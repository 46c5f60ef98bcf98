-- ===== src/DspWorker/Clients.antt =====
-- src/tcp_server.c, sdr_callback and the end of tcp_worker, with src/dsp_worker.c: the device's
-- thread and the DSP threads of several clients, which share the client list.
pub mod Seen
pub mod Isolated
pub mod Together
use sdr_server.Prelude.{ℕ, zero, suc, Bool, false, List, [], ◌∷◌, if◌then◌else◌}
use sdr_server.Server.{ClientConfig}
use sdr_server.Queue.{Run, ok, ◌>>=◌, interrupt_waiting_the_data}
use sdr_server.DspWorker.{Filter, Answers}
use sdr_server.DspWorker.Thread.{
  Event, takes, completes, interrupts, Thread, dsp_worker_process, happens, run_thread,
}

-- What a client's own thread does: it asks for a buffer and deals with it, or gives it back.
pub data Turn : Type 0 where
  asks : Answers → Turn
  returns : Turn

abbrev pub event : Turn → Event
event (asks a) = takes a
event returns = completes

-- A buffer of the device; a turn of the thread of the client at an index of the list; or the end of
-- that client. Every list of these is an interleaving.
pub data Happening : Type 0 where
  delivers : List ℕ → Happening
  turns : ℕ → Turn → Happening
  ends : ℕ → Happening

-- The entry points are the same for all clients of a server, and so is the filter.
module _ (f : Filter) where
  -- A `struct linked_list_tcp_node` with its worker.
  pub record Client : Type 0 where
    pub config : ClientConfig
    pub thread : Thread f

  unfoldable pub give : List ℕ → Client → Run Client
  give bytes n =
      if n.config.is_running
      then (dsp_worker_process f n.config bytes n.thread >>= λ w. ok (record n { thread = w }))
      else ok n

  unfoldable pub sdr_callback : List ℕ → List Client → Run (List Client)
  unfolding give
  sdr_callback bytes [] = ok []
  sdr_callback bytes (n ∷ ns) =
      give bytes n >>= λ n'. sdr_callback bytes ns >>= λ ns'. ok (n' ∷ ns')

  unfoldable pub take_turn : ℕ → Turn → List Client → Run (List Client)
  take_turn i t [] = ok []
  take_turn zero t (n ∷ ns) =
      happens f n.config (event t) n.thread >>= λ w. ok (record n { thread = w } ∷ ns)
  take_turn (suc i) t (n ∷ ns) = take_turn i t ns >>= λ ns'. ok (n ∷ ns')

  -- `node->config->is_running = false`, and the interruption in `dsp_worker_destroy`.
  abbrev pub ended : Client → Client
  ended n = record n {
    config = record n.config { is_running = false };
    thread = record n.thread { queue = interrupt_waiting_the_data n.thread.queue };
  }

  unfoldable pub end_client : ℕ → List Client → List Client
  end_client i [] = []
  end_client zero (n ∷ ns) = ended n ∷ ns
  end_client (suc i) (n ∷ ns) = n ∷ end_client i ns

  unfoldable pub step : Happening → List Client → Run (List Client)
  unfolding sdr_callback take_turn end_client
  step (delivers bytes) ns = sdr_callback bytes ns
  step (turns i t) ns = take_turn i t ns
  step (ends i) ns = ok (end_client i ns)

  unfoldable pub run_clients : List Happening → List Client → Run (List Client)
  unfolding step
  run_clients [] ns = ok ns
  run_clients (h ∷ hs) ns = step h ns >>= λ ns'. run_clients hs ns'
