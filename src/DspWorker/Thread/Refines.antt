-- ===== src/DspWorker/Thread/Refines.antt =====
-- src/dsp_worker.c with src/queue.c: the thread does what it promises, whatever the interleaving.
use sdr_server.Prelude.{
  ℕ, ◌≤◌, ◌≡◌, refl, sym, ◌∙◌, Bool, true, false, List, [], ◌∷◌, ◌||◌, length, Bool-cases, inl, inr,
  if◌then◌else◌, arith, All,
}
use sdr_server.Server.{ClientConfig}
use sdr_server.Queue.{Queue, ok, waits, finished}
use sdr_server.Queue.View.{QueueView, put, complete, take_first, Represents}
use sdr_server.Queue.Put.{queue_put-refines}
use sdr_server.Queue.Take.{take_buffer_for_processing-refines}
use sdr_server.Queue.Complete.{complete_buffer_processing-refines}
use sdr_server.Queue.History.{interrupt_waiting_the_data-refines}
use sdr_server.DspWorker.{Filter, Answers, callback}
use sdr_server.DspWorker.Thread.{
  Event, arrives, takes, completes, interrupts, Thread, round, dsp_worker_process, happens,
  run_thread,
}
use sdr_server.DspWorker.Thread.Promise.{
  Promise, taken, promised, promise, filter_after, callback-snoc, filter_after-snoc,
}

abbrev pub Fits : ℕ → Event → Type 0
Fits size (arrives bytes) = length bytes ≤ size
Fits size (takes a) = Unit {0}
Fits size completes = Unit {0}
Fits size interrupts = Unit {0}

module _ (f : Filter) (c : ClientConfig) (size count : ℕ) (s : f.State) where
  -- The thread is where its promise says: the queue represents the promised FIFO, and the rounds
  -- are those of `callback` over the buffers that were dealt with.
  pub record Keeps (w : Thread f) (p : Promise) : Type 0 where
    pub represents : Represents size count w.queue p.view
    pub holds : w.holds ≡ p.view.detached
    pub ended : w.ended ≡ p.ended
    pub rounds : w.rounds ≡ callback f c p.done s
    pub filter : w.filter ≡ filter_after f c p.done s

  round-Keeps :
      (a : Answers) (w : Thread f) (p : Promise) (q : Queue) (filled : List (List ℕ))
      → Keeps w p
      → p.view.detached ≡ false
      → Represents size count q (take_first filled p.view).1
      → Keeps
          (round f c a w ((take_first filled p.view).0, q))
          (taken a p (take_first filled p.view))
  unfolding round
  round-Keeps a w p q (input ∷ rest) k d r = record {
    represents = r;
    holds = refl;
    ended = k.ended;
    rounds = rw (k.rounds, k.filter) (sym (callback-snoc f c p.done input a s));
    filter = rw k.filter (sym (filter_after-snoc f c p.done input a s));
  }
  round-Keeps a w p q [] k d r = waited p.view.poisoned r
    where
      waited :
          (b : Bool)
          → Represents size count q p.view
          → Keeps
              (round f c a w (if b then finished else waits, q))
              (taken a p (if b then finished else waits, p.view))
      waited true r' = record {
        represents = r';
        holds = k.holds;
        ended = refl;
        rounds = k.rounds;
        filter = k.filter;
      }
      waited false r' = record {
        represents = r';
        holds = k.holds;
        ended = k.ended;
        rounds = k.rounds;
        filter = k.filter;
      }

  abbrev Steps : Event → Thread f → Promise → Type 0
  Steps e w p = (w' : Thread f) × (happens f c e w ≡ ok w') × Keeps w' (promised e p)

  arrives-Keeps :
      (bytes : List ℕ) (w : Thread f) (p : Promise)
      → Keeps w p
      → length bytes ≤ size
      → 2 ≤ count
      → Steps (arrives bytes) w p
  unfolding happens dsp_worker_process
  arrives-Keeps bytes w p k h two =
      let (q, e, r) = queue_put-refines size count w.queue p.view bytes k.represents h two in
      (
        record w { queue = q },
        rw e refl,
        record {
          represents = r;
          holds = k.holds ∙ sym (put-detached bytes p.view);
          ended = k.ended;
          rounds = k.rounds;
          filter = k.filter;
        },
      )
    where
      put-detached : (bytes : List ℕ) (v : QueueView) → (put bytes v).detached ≡ v.detached
      put-detached bytes v = ground arith

  takes-Keeps : (a : Answers) (w : Thread f) (p : Promise) → Keeps w p → Steps (takes a) w p
  unfolding happens
  takes-Keeps a w p k = elim (Bool-cases (p.view.detached || p.ended)) [
    | inl e ↦ (w, rw (k.holds, k.ended, e) refl, rw e k)
    | inr e ↦
        let idle : p.view.detached ≡ false = ground (arith, e) in
        let (q, t, r) =
          take_buffer_for_processing-refines size count w.queue p.view k.represents idle in
        (
          round f c a w ((take_first p.view.filled p.view).0, q),
          rw (k.holds, k.ended, e, t) refl,
          rw e (round-Keeps a w p q p.view.filled k idle r),
        )
  ]

  completes-Keeps : (w : Thread f) (p : Promise) → Keeps w p → Steps completes w p
  unfolding happens
  completes-Keeps w p k = chosen p.view.detached refl
    where
      chosen :
          (b : Bool)
          → p.view.detached ≡ b
          → (w' : Thread f) × (happens f c completes w ≡ ok w')
            × Keeps w' (if b then record p { view = complete p.view } else p)
      chosen true e =
          let (q, t, r) =
            complete_buffer_processing-refines size count w.queue p.view k.represents e in
          (
            record w { queue = q; holds = false },
            simp (k.holds, e, t),
            record {
              represents = r;
              holds = refl;
              ended = k.ended;
              rounds = k.rounds;
              filter = k.filter;
            },
          )
      chosen false e = (w, rw (k.holds, e) refl, k)

  happens-Keeps :
      (e : Event) (w : Thread f) (p : Promise) → Keeps w p → Fits size e → 2 ≤ count → Steps e w p
  unfolding happens
  happens-Keeps (arrives bytes) w p k h two = arrives-Keeps bytes w p k h two
  happens-Keeps (takes a) w p k h two = takes-Keeps a w p k
  happens-Keeps completes w p k h two = completes-Keeps w p k
  happens-Keeps interrupts w p k h two = (
    _,
    refl,
    record {
      represents = interrupt_waiting_the_data-refines size count w.queue p.view k.represents;
      holds = k.holds;
      ended = k.ended;
      rounds = k.rounds;
      filter = k.filter;
    },
  )

  -- Whatever the interleaving of the device's buffers, the thread and the interruption, if the
  -- queue has two buffers or more and every buffer fits: nothing faults, the queue represents the
  -- promised FIFO, and the thread has sent exactly the rounds of the buffers that it was promised.
  pub run_thread-Keeps :
      (es : List Event) (w : Thread f) (p : Promise)
      → Keeps w p
      → All (Fits size) es
      → 2 ≤ count
      → (w' : Thread f) × (run_thread f c es w ≡ ok w') × Keeps w' (promise es p)
  unfolding run_thread promise
  run_thread-Keeps [] w p k h two = (w, refl, k)
  run_thread-Keeps (e ∷ es) w p k h two =
      let (w₁, r₁, k₁) = happens-Keeps e w p k h.0 two in
      let (w₂, r₂, k₂) = run_thread-Keeps es w₁ (promised e p) k₁ h.1 two in (w₂, rw r₁ r₂, k₂)
