-- ===== src/Server/Closing.antt =====
-- src/tcp_server.c, the end of acceptor_worker: its listening socket is closed, and it waits for
-- every client thread and for the device before it destroys it.
pub mod Kept
pub mod Ends
use sdr_server.Prelude.{ℕ, ◌≡◌, Bool, true, false, not, List, [], ◌∷◌, any}
use sdr_server.Server.Admission.{Node}
use sdr_server.Server.World.{World, is_running, tcp_worker_end, stop_device, shutdown_callback}
use sdr_server.Server.World.Steps.{has_id}

-- Where the acceptor is: at the first node of the list, waiting for the device, joining the
-- shutdown thread, or behind sdr_device_destroy.
pub data Ending : Type 0 where
  draining stopping_device joining_shutdown destroyed : Ending

pub record Closing : Type 0 where
  pub world : World
  pub ending : Ending

abbrev first_runs : List Node → Bool
first_runs [] = false
first_runs (n ∷ ns) = is_running n

-- The acceptor holds the mutex but for its two waits on a condition, and its end.
abbrev pub mutex_released : Ending → World → Bool
mutex_released draining w = first_runs w.tcp_nodes
mutex_released stopping_device w = not w.sdr_stopped
mutex_released joining_shutdown w = false
mutex_released destroyed w = true

pub data CloseStep (c d : Closing) : Type 0 where
  -- A client thread ends: its socket was shut down, or its client has left.
  exits :
      (id : ℕ)
      → mutex_released c.ending c.world ≡ true
      → any (has_id id) c.world.tcp_nodes ≡ true
      → d ≡ record c { world = tcp_worker_end id c.world }
      → CloseStep c d
  -- The shutdown thread stops the device, whoever has the mutex.
  halts :
      c.world.stopping ≡ true
      → c.world.receiving ≡ true
      → d ≡ record c { world = stop_device c.world }
      → CloseStep c d
  stops :
      mutex_released c.ending c.world ≡ true
      → c.world.stopping ≡ true
      → d ≡ record c { world = shutdown_callback c.world }
      → CloseStep c d
  -- The thread of the first node is joined, and the node freed.
  frees :
      (n : Node) (ns : List Node)
      → c.ending ≡ draining
      → c.world.tcp_nodes ≡ n ∷ ns
      → is_running n ≡ false
      → d ≡ record c { world = record c.world { tcp_nodes = ns } }
      → CloseStep c d
  drained :
      c.ending ≡ draining
      → c.world.tcp_nodes ≡ []
      → d ≡ record c { ending = stopping_device }
      → CloseStep c d
  device_stopped :
      c.ending ≡ stopping_device
      → c.world.sdr_stopped ≡ true
      → c.world.shutdown_thread_created ≡ true
      → d ≡ record c { ending = joining_shutdown }
      → CloseStep c d
  never_started :
      c.ending ≡ stopping_device
      → c.world.sdr_stopped ≡ true
      → c.world.shutdown_thread_created ≡ false
      → d ≡ record c { ending = destroyed }
      → CloseStep c d
  shutdown_joined :
      c.ending ≡ joining_shutdown
      → c.world.stopping ≡ false
      → d
        ≡ record { world = record c.world { shutdown_thread_created = false }; ending = destroyed }
      → CloseStep c d

pub data CloseReach (c : Closing) : Closing → Type 0 where
  here : CloseReach c c
  next : {d e : Closing} → CloseReach c d → CloseStep d e → CloseReach c e
