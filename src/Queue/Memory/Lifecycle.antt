-- ===== src/Queue/Memory/Lifecycle.antt =====
-- The whole life of a queue of src/queue.c.
use sdr_server.Prelude.{ℕ, suc, ◌≤◌, ◌≡◌, true, false, List, ◌⊎◌, inl, inr, arith}
use sdr_server.Queue.{Queue, Heap, ok}
use sdr_server.Queue.View.{QueueView, Represents}
use sdr_server.Queue.History.{Call, run, view_run, Obeys, run-refines}
use sdr_server.Queue.Memory.{NodeMemory, created, no_memory, create_queue, destroy_queue}
use sdr_server.Queue.Memory.Create.{all_free, Built, built, out_of_memory, create_queue-Built}
use sdr_server.Queue.Memory.Destroy.{destroy_queue-Released}

-- The queue is created, answers as the FIFO does, and is released, all without a fault.
pub record Lives (memory : ℕ → NodeMemory) (size count : ℕ) (cs : List Call) : Type 0 where
  pub first : Queue
  pub last : Queue
  pub heap : Heap
  pub creation : create_queue memory size true count ≡ ok (created first)
  pub history : run cs first ≡ ok ((view_run cs (all_free count)).0, last)
  pub release : destroy_queue (suc count) last ≡ ok heap

pub record Fails (memory : ℕ → NodeMemory) (size count : ℕ) : Type 0 where
  pub heap : Heap
  pub creation : create_queue memory size true count ≡ ok (no_memory false heap)

released :
    (size count : ℕ) (q : Queue) (v : QueueView)
    → Represents size count q v
    → (h : Heap) × (destroy_queue (suc count) q ≡ ok h)
released size count q v (F, G, D, l, e, n) =
    let r = destroy_queue-Released size q F G D (suc count) l (omega (arith, n)) in (r.left, r.ran)

-- A queue of two buffers or more lives without a fault, if its messages fit and its consumer
-- completes one buffer before it asks for the next: its creation fails for want of memory, or it
-- is created, the history of its calls runs as the FIFO does, and whatever state that history
-- leaves is released.
pub create_queue-Lives :
    (memory : ℕ → NodeMemory) (size count : ℕ) (cs : List Call)
    → 2 ≤ count
    → Obeys size cs (all_free count)
    → Lives memory size count cs ⊎ Fails memory size count
create_queue-Lives memory size count cs two o = by_creation (create_queue-Built memory size count)
  where
    by_creation :
        Built memory size count (create_queue memory size true count)
        → Lives memory size count cs ⊎ Fails memory size count
    by_creation (out_of_memory h i e none_left l f) = inr (record { heap = h; creation = e })
    by_creation (built q e r) =
        let (q', ran, r') = run-refines size count cs q (all_free count) r two o in
        let (h, freed) = released size count q' (view_run cs (all_free count)).1 r' in
        inl
          (record { first = q; last = q'; heap = h; creation = e; history = ran; release = freed })
