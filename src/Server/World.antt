-- ===== src/Server/World.antt =====
-- src/tcp_server.c: the client list, the threads that share it under the mutex, and the device.
-- A step is what one thread does between locking and unlocking the mutex.
pub mod Steps
pub mod Invariant
pub mod Progress
pub mod Calm
pub mod Liveness
pub mod Deadlock
pub mod Delivery
use sdr_server.Prelude.{
  ℕ, Bool, true, false, ◌&&◌, not, Option, none, some, List, [], ◌∷◌, ◌++◌, map, ◌==◌,
  if◌then◌else◌, keep, any,
}
use sdr_server.Wire.{Response, status_success, status_failure, out_of_band_freq, internal_error}
use sdr_server.Queue.{Queue, Run, ok, fault, queue_put, ◌>>=◌}
use sdr_server.Server.{ClientConfig, Action, respond, close, respond_failure}
use sdr_server.Server.Admission.{Node, Worker, uninitialised, stopped, started}

-- Where the acceptor is with the client that it is admitting: not yet in the list; waiting for
-- the device to stop, with the mutex free; waiting for the end of the shutdown thread, with the
-- mutex held; or, with the node refused, for the end of the node's thread.
pub data Phase : Type 0 where
  idle : Phase
  enlisting waiting joining dismissing : Node → Phase

-- The shared fields of `struct tcp_server_t`, with whether a shutdown thread is running and whether
-- the device is receiving.
pub record World : Type 0 where
  pub tcp_nodes : List Node
  pub current_band_freq : ℕ
  pub sdr_stopped : Bool
  pub shutdown_thread_created : Bool
  pub stopping : Bool
  pub receiving : Bool
  pub phase : Phase

abbrev pub is_running : Node → Bool
is_running n = n.config.is_running

abbrev pub node_id : Node → ℕ
node_id n = n.config.id

-- `start_tcp_server`
unfoldable pub initial : World
initial = record {
  tcp_nodes = [];
  current_band_freq = 0;
  sdr_stopped = true;
  shutdown_thread_created = false;
  stopping = false;
  receiving = false;
  phase = idle;
}

-- `is_running = false`, and `tcp_node_destroy`.
abbrev pub ended : Node → Node
ended n = record n { config = record n.config { is_running = false }; worker = stopped }

abbrev pub end_if : ℕ → Node → Node
end_if id n = if n.config.id == id then ended n else n

-- The end of a node's thread reaches the acceptor's copy of the node too.
abbrev pub end_phase : ℕ → Phase → Phase
end_phase id idle = idle
end_phase id (enlisting n) = enlisting (end_if id n)
end_phase id (waiting n) = waiting (end_if id n)
end_phase id (joining n) = joining (end_if id n)
end_phase id (dismissing n) = if n.config.id == id then idle else dismissing n

-- The last part of `tcp_worker`: with no running client in the list, one shutdown thread is
-- created.
unfoldable pub tcp_worker_end : ℕ → World → World
tcp_worker_end id w =
    let nodes = map (end_if id) w.tcp_nodes in
    let last = not (any is_running nodes) && not w.shutdown_thread_created in
    record w {
      tcp_nodes = nodes;
      shutdown_thread_created = if last then true else w.shutdown_thread_created;
      stopping = if last then true else w.stopping;
      phase = end_phase id w.phase;
    }

-- `sdr_device_stop` in `shutdown_callback`, which runs without the mutex.
unfoldable pub stop_device : World → World
stop_device w = record w { receiving = false }

-- `shutdown_callback` under the mutex; the device has been stopped by then.
unfoldable pub shutdown_callback : World → World
shutdown_callback w = record w { sdr_stopped = true; stopping = false; receiving = false }

pub cleanup_terminated_threads : List Node → List Node
cleanup_terminated_threads nodes = keep is_running nodes

-- `handle_new_client` under the mutex, up to its wait for the device.
enlist_among : Node → List Node → World → World × List Action
enlist_among n [] w =
    (record w { tcp_nodes = []; current_band_freq = n.config.band_freq; phase = waiting n }, [])
enlist_among n (m ∷ ms) w =
    let socket = n.config.client_socket in
    if not (w.current_band_freq == 0) && not (w.current_band_freq == n.config.band_freq)
    then (
      record w { tcp_nodes = m ∷ ms; phase = dismissing n },
      respond_failure socket status_failure out_of_band_freq ++ (close socket ∷ []),
    )
    else (
      record w { tcp_nodes = m ∷ ms ++ (n ∷ []); phase = idle },
      respond socket (record { status = status_success; details = n.config.id }) ∷ [],
    )

unfoldable pub enlist : Node → World → World × List Action
unfolding enlist_among cleanup_terminated_threads
enlist n w = enlist_among n (cleanup_terminated_threads w.tcp_nodes) w

-- Behind the wait: `sdr_device_start`, and its result.
unfoldable pub start_device : Bool → Node → World → World × List Action
start_device device_started n w =
    let socket = n.config.client_socket in
    let joined = record w { shutdown_thread_created = false } in
    if device_started
    then (
      record joined { tcp_nodes = n ∷ []; sdr_stopped = false; receiving = true; phase = idle },
      respond socket (record { status = status_success; details = n.config.id }) ∷ [],
    )
    else (
      record joined { phase = dismissing n },
      respond_failure socket status_failure internal_error ++ (close socket ∷ []),
    )

-- A running node's `dsp_worker_process`, which is `queue_put`.
give : List ℕ → Node → Worker → Run Node
give bytes n (started q) = queue_put bytes q >>= λ q'. ok (record n { worker = started q' })
give bytes n stopped = fault
give bytes n uninitialised = fault

-- `sdr_callback`: the buffer goes to the queue of each running client.
pub sdr_callback : List ℕ → List Node → Run (List Node)
sdr_callback bytes [] = ok []
sdr_callback bytes (n ∷ ns) =
    (if n.config.is_running then give bytes n n.worker else ok n) >>= λ n'.
    sdr_callback bytes ns >>= λ ns'. ok (n' ∷ ns')
