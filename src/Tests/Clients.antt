-- ===== src/Tests/Clients.antt =====
-- Clients of the server: their requests, and the steps of its threads.
use sdr_server.Prelude.{some, ◌≡◌, ◌↔◌, refl, [], ◌∷◌, arith, true, false}
use sdr_server.Server.{ClientConfig, validate_client_config, accepted}
use sdr_server.Server.Band.{
  Complete, InBand, validate_client_config-InBand, validate_client_config_wrapped,
}
use sdr_server.Server.Admission.{Resources, accept_connection}
use sdr_server.Server.Admission.Settled.{Settled, accept_connection-Settled}
use sdr_server.Socket.{chunk}
use sdr_server.Server.World.{
  World, initial, enlist, idle, enlisting, waiting, ended, start_device, tcp_worker_end,
}
use sdr_server.Server.Closing as CloseRun
use sdr_server.Server.Closing.Ends.{closing, closing-Over, Finishes, Over}
use sdr_server.Server.World.Steps.{Step, Reach, here, next, admits, enlists, wakes}
use sdr_server.Server.World.Invariant.{Inv, Reach-Inv}
use sdr_server.Server.World.Progress.{Serves, waiting-Serves}
use sdr_server.Server.World.Calm.{CalmReach}
use sdr_server.Server.World.Calm as Calm
use sdr_server.Server.World.Deadlock.{Deadlocked, exits-Deadlocked}
use sdr_server.Tests.Data.{client, server_config, running_node, two_buffers}

validate_client_config-InBand_example :
    (validate_client_config client server_config ≡ accepted)
    ↔ (Complete client × InBand client server_config)
validate_client_config-InBand_example = validate_client_config-InBand client server_config (record {
  requested_low = omega arith;
  requested_high = omega arith;
  server_low = omega arith;
  server_high = omega arith;
})

-- A band of a megahertz around 100 kHz.
abbrev low_client : ClientConfig
low_client = record client { center_freq = 100000; sampling_rate = 1000000; band_freq = 2000000 }

validate_client_config_wrapped_example :
    (validate_client_config low_client server_config ≡ accepted) × ¬ InBand low_client server_config
validate_client_config_wrapped_example =
    validate_client_config_wrapped low_client server_config
      (record {
        center = λ e. omega (arith, e);
        rate = λ e. omega (arith, e);
        band = λ e. omega (arith, e);
        destination = omega arith;
      })
      (omega arith) (omega arith) (omega arith) (omega arith) (omega arith) (omega arith)

abbrev admitted_world : World
admitted_world = record {
  tcp_nodes = [];
  current_band_freq = 0;
  sdr_stopped = true;
  shutdown_thread_created = false;
  stopping = false;
  receiving = false;
  phase = enlisting running_node;
}

abbrev enlisted_world : World
enlisted_world = record admitted_world {
  current_band_freq = 437500000;
  phase = waiting running_node;
}

admission : Step initial admitted_world
unfolding initial
admission = admits running_node refl refl (λ e. omega (arith, e)) refl

enlistment : Step admitted_world enlisted_world
unfolding enlist
enlistment = enlists running_node refl refl

Reach-Inv_example : Inv enlisted_world
Reach-Inv_example = Reach-Inv enlisted_world (next (next here admission) enlistment)

waiting-Serves_example : Serves enlisted_world running_node
unfolding admission enlistment
waiting-Serves_example =
    waiting-Serves enlisted_world running_node
      (Calm.next (Calm.next Calm.here admission tt) enlistment tt) refl

abbrev served_world : World
served_world = record enlisted_world {
  tcp_nodes = running_node ∷ [];
  sdr_stopped = false;
  receiving = true;
  phase = idle;
}

serving : Step enlisted_world served_world
unfolding start_device
serving = wakes running_node true refl refl refl refl

-- The last client leaves while the acceptor waits for it.
abbrev left_world : World
left_world = record served_world {
  tcp_nodes = ended running_node ∷ [];
  shutdown_thread_created = true;
  stopping = true;
}

leaving : CloseRun.CloseStep (closing served_world) (closing left_world)
unfolding tcp_worker_end
leaving = CloseRun.exits running_node.config.id refl refl refl

closing-Over_example :
    (CloseRun.draining ≡ CloseRun.destroyed → Over left_world) × Finishes (closing left_world)
unfolding admission enlistment serving
closing-Over_example =
    closing-Over served_world
      (Calm.next (Calm.next (Calm.next Calm.here admission tt) enlistment tt) serving refl) refl
      (closing left_world) (CloseRun.next CloseRun.here leaving)

abbrev idle_world : World
idle_world = record admitted_world { phase = idle }

exits-Deadlocked_example :
    (u : World) × Reach idle_world u
    × Deadlocked u (ended running_node)
    × ((v : World) → ¬ Step u v)
exits-Deadlocked_example =
    exits-Deadlocked idle_world running_node refl refl refl refl refl (λ e. omega (arith, e))

abbrev plenty : Resources
plenty = record {
  config_memory = true;
  node_memory = true;
  worker_started = some two_buffers;
  thread_created = true;
}

-- A peer that sends a header and then leaves.
accept_connection-Settled_example :
    Settled plenty server_config 7 3
      (accept_connection true plenty server_config 2 7 (chunk (0 ∷ 0 ∷ []) ∷ [])).1
accept_connection-Settled_example =
    accept_connection-Settled true plenty server_config 2 7 (chunk (0 ∷ 0 ∷ []) ∷ [])
