-- ===== src/DspWorker/Thread.antt =====
-- src/dsp_worker.c, callback and dsp_worker_process together with src/queue.c: the DSP thread of a
-- client takes buffers from its queue while the device's thread puts more into it.
pub mod Promise
pub mod Refines
pub mod Losses
use sdr_server.Prelude.{Bool, true, false, List, [], ◌∷◌, ◌++◌, ◌||◌, if◌then◌else◌, ℕ}
use sdr_server.Server.{ClientConfig}
use sdr_server.Queue.{
  Queue, Run, ok, ◌>>=◌, Taken, waits, finished, buffer, queue_put, take_buffer_for_processing,
  complete_buffer_processing, interrupt_waiting_the_data,
}
use sdr_server.DspWorker.{Filter, Answers, Round, filtered, deliver}

-- What happens under the queue's mutex: a buffer of the device arrives, the thread asks for a buffer
-- and deals with it, it gives the buffer back, or the worker's destruction interrupts it. A step of
-- the thread that is not its turn is passed over, so every list of events is an interleaving.
pub data Event : Type 0 where
  arrives : List ℕ → Event
  takes : Answers → Event
  completes interrupts : Event

-- `holds`: the thread is between its two calls of the queue. `ended`: it has left the loop.
pub record Thread (f : Filter) : Type 0 where
  pub queue : Queue
  pub filter : f.State
  pub holds : Bool
  pub ended : Bool
  pub rounds : List Round

-- `dsp_worker_start`: a thread that has dealt with nothing.
abbrev pub begun : (f : Filter) → Queue → f.State → Thread f
begun f queue filter = record {
  queue = queue;
  filter = filter;
  holds = false;
  ended = false;
  rounds = [];
}

module _ (f : Filter) (c : ClientConfig) where
  -- A round of `callback`, by what the queue has answered.
  unfoldable pub round : Answers → Thread f → Taken × Queue → Thread f
  round a w (buffer input, q) =
      let (output, filter) = filtered f c.sdr_type input w.filter in
      record {
        queue = q;
        filter = filter;
        holds = true;
        ended = w.ended;
        rounds = w.rounds ++ (deliver f c a output ∷ []);
      }
  round a w (waits, q) = record w { queue = q }
  round a w (finished, q) = record w { queue = q; ended = true }

  unfoldable pub dsp_worker_process : List ℕ → Thread f → Run (Thread f)
  dsp_worker_process bytes w = queue_put bytes w.queue >>= λ q. ok (record w { queue = q })

  unfoldable pub happens : Event → Thread f → Run (Thread f)
  unfolding round dsp_worker_process
  happens (arrives bytes) w = dsp_worker_process bytes w
  happens (takes a) w =
      if w.holds || w.ended
      then ok w
      else (take_buffer_for_processing w.queue >>= λ r. ok (round a w r))
  happens completes w =
      if w.holds
      then (complete_buffer_processing w.queue >>= λ q. ok (record w { queue = q; holds = false }))
      else ok w
  happens interrupts w = ok (record w { queue = interrupt_waiting_the_data w.queue })

  unfoldable pub run_thread : List Event → Thread f → Run (Thread f)
  run_thread [] w = ok w
  run_thread (e ∷ es) w = happens e w >>= λ w'. run_thread es w'
