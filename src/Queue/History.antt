-- ===== src/Queue/History.antt =====
-- Whole histories of a queue between its producer and its consumer: each call is atomic under the
-- mutex, so a history is any interleaving of the calls of src/queue.c that keeps the consumer's
-- protocol, to complete one buffer before it asks for the next.
use sdr_server.Prelude.{ℕ, ◌≤◌, ◌≡◌, refl, ap, true, false, List, [], ◌∷◌, length}
use sdr_server.Queue.{
  Queue, Run, ok, ◌>>=◌, Taken, queue_put, take_buffer_for_processing, complete_buffer_processing,
  interrupt_waiting_the_data,
}
use sdr_server.Queue.View.{QueueView, put, take_first, complete, Represents}
use sdr_server.Queue.Put.{queue_put-refines}
use sdr_server.Queue.Take.{take_buffer_for_processing-refines}
use sdr_server.Queue.Complete.{complete_buffer_processing-refines}

pub data Call : Type 0 where
  puts : List ℕ → Call
  takes completes interrupts : Call

-- A history's answers to the consumer, and the queue that it leaves.
pub run : List Call → Queue → Run (List Taken × Queue)
run [] q = ok ([], q)
run (puts bytes ∷ cs) q = queue_put bytes q >>= run cs
run (takes ∷ cs) q = take_buffer_for_processing q >>= λ r. run cs r.1 >>= λ s. ok (r.0 ∷ s.0, s.1)
run (completes ∷ cs) q = complete_buffer_processing q >>= run cs
run (interrupts ∷ cs) q = run cs (interrupt_waiting_the_data q)

pub view_run : List Call → QueueView → List Taken × QueueView
view_run [] v = ([], v)
view_run (puts bytes ∷ cs) v = view_run cs (put bytes v)
view_run (takes ∷ cs) v =
    let (t, v') = take_first v.filled v in let (ts, w) = view_run cs v' in (t ∷ ts, w)
view_run (completes ∷ cs) v = view_run cs (complete v)
view_run (interrupts ∷ cs) v = view_run cs (record v { poisoned = true })

-- Messages fit, and the consumer has at most one buffer.
abbrev pub Obeys : ℕ → List Call → QueueView → Type 0
Obeys size [] v = Unit {0}
Obeys size (puts bytes ∷ cs) v = (length bytes ≤ size) × Obeys size cs (put bytes v)
Obeys size (takes ∷ cs) v = (v.detached ≡ false) × Obeys size cs (take_first v.filled v).1
Obeys size (completes ∷ cs) v = (v.detached ≡ true) × Obeys size cs (complete v)
Obeys size (interrupts ∷ cs) v = Obeys size cs (record v { poisoned = true })

abbrev pub Runs : ℕ → ℕ → List Call → Queue → QueueView → Type 0
Runs size count cs q v =
    (q' : Queue) × (run cs q ≡ ok ((view_run cs v).0, q'))
    × Represents size count q' (view_run cs v).1

pub interrupt_waiting_the_data-refines :
    (size count : ℕ) (q : Queue) (v : QueueView)
    → Represents size count q v
    → Represents size count (interrupt_waiting_the_data q) (record v { poisoned = true })
unfolding interrupt_waiting_the_data
interrupt_waiting_the_data-refines size count q v (F, G, D, l, e, n) = (
  F,
  G,
  D,
  record {
    free = l.free;
    free_end = l.free_end;
    filled = l.filled;
    filled_end = l.filled_end;
    detached = l.detached;
    single = l.single;
    free_filled = l.free_filled;
    free_detached = l.free_detached;
    filled_detached = l.filled_detached;
  },
  ap (λ (w : QueueView). record w { poisoned = true }) e,
  n,
)

-- No history of calls of a queue with two buffers or more faults, if its messages fit the buffers
-- and its consumer completes one buffer before it asks for the next: the consumer is answered as
-- the FIFO with overwriting answers, and no buffer is lost or used twice.
pub run-refines :
    (size count : ℕ) (cs : List Call) (q : Queue) (v : QueueView)
    → Represents size count q v
    → 2 ≤ count
    → Obeys size cs v
    → Runs size count cs q v
unfolding run view_run
run-refines size count [] q v r two o = (q, refl, r)
run-refines size count (puts bytes ∷ cs) q v r two o =
    let (q₁, e₁, r₁) = queue_put-refines size count q v bytes r o.0 two in
    let (q₂, e₂, r₂) = run-refines size count cs q₁ (put bytes v) r₁ two o.1 in (q₂, rw e₁ e₂, r₂)
run-refines size count (takes ∷ cs) q v r two o =
    let (q₁, e₁, r₁) = take_buffer_for_processing-refines size count q v r o.0 in
    let (q₂, e₂, r₂) = run-refines size count cs q₁ (take_first v.filled v).1 r₁ two o.1 in
    (q₂, rw (e₁, e₂), r₂)
run-refines size count (completes ∷ cs) q v r two o =
    let (q₁, e₁, r₁) = complete_buffer_processing-refines size count q v r o.0 in
    let (q₂, e₂, r₂) = run-refines size count cs q₁ (complete v) r₁ two o.1 in (q₂, rw e₁ e₂, r₂)
run-refines size count (interrupts ∷ cs) q v r two o =
    run-refines size count cs (interrupt_waiting_the_data q) (record v { poisoned = true })
      (interrupt_waiting_the_data-refines size count q v r) two o
