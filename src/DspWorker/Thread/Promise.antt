-- ===== src/DspWorker/Thread/Promise.antt =====
-- What the DSP thread of src/dsp_worker.c promises of its queue: a FIFO that loses a buffer only
-- when it is full, and the rounds that the thread has made of what it took.
use sdr_server.Prelude.{
  ℕ, ◌+◌, ◌≡◌, refl, ap, Bool, true, false, List, [], ◌∷◌, ◌++◌, ◌||◌, ◌==◌, if◌then◌else◌,
}
use sdr_server.Server.{ClientConfig}
use sdr_server.Queue.{Taken, waits, finished, buffer}
use sdr_server.Queue.View.{QueueView, put, complete, take_first}
use sdr_server.DspWorker.{Filter, Answers, filtered, deliver, callback}
use sdr_server.DspWorker.Thread.{Event, arrives, takes, completes, interrupts}

-- `done`: the buffers that the thread has dealt with. `lost`: how often a buffer was overwritten.
pub record Promise : Type 0 where
  pub view : QueueView
  pub ended : Bool
  pub done : List (List ℕ × Answers)
  pub lost : ℕ

abbrev pub taken : Answers → Promise → Taken × QueueView → Promise
taken a p (buffer input, v) = record p { view = v; done = p.done ++ ((input, a) ∷ []) }
taken a p (waits, v) = p
taken a p (finished, v) = record p { ended = true }

abbrev pub promised : Event → Promise → Promise
promised (arrives bytes) p = record p {
  view = put bytes p.view;
  lost = p.lost + (if p.view.free == 0 then 1 else 0);
}
promised (takes a) p =
    if p.view.detached || p.ended then p else taken a p (take_first p.view.filled p.view)
promised completes p = if p.view.detached then record p { view = complete p.view } else p
promised interrupts p = record p { view = record p.view { poisoned = true } }

unfoldable pub promise : List Event → Promise → Promise
promise [] p = p
promise (e ∷ es) p = promise es (promised e p)

-- A queue whose buffers are all free, and a thread that has dealt with none.
abbrev pub starting : ℕ → Promise
starting count = record {
  view = record { free = count; filled = []; detached = false; poisoned = false };
  ended = false;
  done = [];
  lost = 0;
}

module _ (f : Filter) (c : ClientConfig) where
  -- The filter behind these buffers.
  abbrev pub filter_after : List (List ℕ × Answers) → f.State → f.State
  filter_after [] s = s
  filter_after ((input, a) ∷ rest) s = filter_after rest (filtered f c.sdr_type input s).1

  pub callback-snoc :
      (done : List (List ℕ × Answers)) (input : List ℕ) (a : Answers) (s : f.State)
      → callback f c (done ++ ((input, a) ∷ [])) s
        ≡ callback f c done s
          ++ (deliver f c a (filtered f c.sdr_type input (filter_after done s)).0 ∷ [])
  unfolding callback
  callback-snoc [] input a s = refl
  callback-snoc ((x, b) ∷ done) input a s =
      ap (λ rs. deliver f c b (filtered f c.sdr_type x s).0 ∷ rs)
        (callback-snoc done input a (filtered f c.sdr_type x s).1)

  pub filter_after-snoc :
      (done : List (List ℕ × Answers)) (input : List ℕ) (a : Answers) (s : f.State)
      → filter_after (done ++ ((input, a) ∷ [])) s
        ≡ (filtered f c.sdr_type input (filter_after done s)).1
  filter_after-snoc [] input a s = refl
  filter_after-snoc ((x, b) ∷ done) input a s =
      filter_after-snoc done input a (filtered f c.sdr_type x s).1
