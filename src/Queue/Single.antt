-- ===== src/Queue/Single.antt =====
-- A queue of src/queue.c with one buffer.
use sdr_server.Prelude.{ℕ, ◌+◌, ◌≡◌, ap, ◌∙◌, true, List, [], ◌∷◌, length, ◌==◌, arith}
use sdr_server.Queue.{Ptr, Queue, fault, load, queue_put, fill}
use sdr_server.Queue.View.{QueueView, Layout, Represents}

-- A queue of one buffer cannot take a message while that buffer is processed: `queue_put` then
-- writes through NULL.
pub queue_put_faults :
    (size : ℕ) (q : Queue) (v : QueueView) (bytes : List ℕ)
    → Represents size 1 q v
    → v.detached ≡ true
    → queue_put bytes q ≡ fault
unfolding queue_put fill load
queue_put_faults size q v bytes (F, G, D, l, e, n) busy =
    no_buffer F G D l n (ap (λ (w : QueueView). w.detached) e ∙ busy)
  where
    no_buffer :
        (F G D : List Ptr)
        → Layout size q F G D
        → length F + length G + length D ≡ 1
        → (length D == 1) ≡ true
        → queue_put bytes q ≡ fault
    no_buffer [] [] D l n b = ground (arith, l.free, l.filled_end)
    no_buffer (a ∷ F) G D l n b = absurd (ground arith)
    no_buffer [] (a ∷ G) D l n b = absurd (ground arith)
