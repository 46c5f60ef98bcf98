-- ===== src/Server/World/Delivery.antt =====
-- What `sdr_callback` of src/tcp_server.c does with a buffer from the device.
use sdr_server.Prelude.{
  ℕ, ◌≤◌, ◌≡◌, refl, ap, ◌∙◌, true, false, List, [], ◌∷◌, length, All, Bool-cases, inl, inr,
}
use sdr_server.Queue.{Queue, ok, queue_put}
use sdr_server.Queue.View.{QueueView, put, Represents}
use sdr_server.Queue.Put.{queue_put-refines}
use sdr_server.Server.Admission.{Node, started}
use sdr_server.Server.World.{is_running, sdr_callback, give}

-- A running client has a worker with at least two buffers.
pub record NodeReady (size : ℕ) (n : Node) : Type 0 where
  pub queue : Queue
  pub count : ℕ
  pub content : QueueView
  pub worker : n.worker ≡ started queue
  pub represents : Represents size count queue content
  pub enough : 2 ≤ count

abbrev pub ReadyIfRunning : ℕ → Node → Type 0
ReadyIfRunning size n = is_running n ≡ true → NodeReady size n

-- A client that runs has the buffer in its queue, and one that does not is as it was.
pub data Delivered (size : ℕ) (bytes : List ℕ) (n n' : Node) : Type 0 where
  skipped : is_running n ≡ false → n' ≡ n → Delivered size bytes n n'
  stored :
      (count : ℕ) (q q' : Queue) (v : QueueView)
      → n.worker ≡ started q
      → Represents size count q v
      → n' ≡ record n { worker = started q' }
      → Represents size count q' (put bytes v)
      → Delivered size bytes n n'

abbrev pub Pairwise : (Node → Node → Type 0) → List Node → List Node → Type 0
Pairwise R [] [] = Unit {0}
Pairwise R [] (y ∷ ys) = ⊥
Pairwise R (x ∷ xs) [] = ⊥
Pairwise R (x ∷ xs) (y ∷ ys) = R x y × Pairwise R xs ys

module _ (bytes : List ℕ) (n : Node) where
  given :
      (q q' : Queue)
      → n.worker ≡ started q
      → queue_put bytes q ≡ ok q'
      → give bytes n n.worker ≡ ok (record n { worker = started q' })
  unfolding give
  given q q' w e = ap (give bytes n) w ∙ rw e

  served_cons :
      (ns : List Node) (n' : Node) (ns' : List Node)
      → is_running n ≡ true
      → give bytes n n.worker ≡ ok n'
      → sdr_callback bytes ns ≡ ok ns'
      → sdr_callback bytes (n ∷ ns) ≡ ok (n' ∷ ns')
  unfolding sdr_callback
  served_cons ns n' ns' r g e = simp (r, g, e)

  skipped_cons :
      (ns ns' : List Node)
      → is_running n ≡ false
      → sdr_callback bytes ns ≡ ok ns'
      → sdr_callback bytes (n ∷ ns) ≡ ok (n ∷ ns')
  unfolding sdr_callback
  skipped_cons ns ns' r e = simp (r, e)

-- If every running client in the list has a worker with two buffers or more, a buffer that fits
-- reaches the queue of each of them and of no other, no queue faults, however full it is, and
-- nothing else of a client changes.
pub sdr_callback-Delivered :
    (size : ℕ) (bytes : List ℕ) (ns : List Node)
    → length bytes ≤ size
    → All (ReadyIfRunning size) ns
    → (ns' : List Node) × (sdr_callback bytes ns ≡ ok ns') × Pairwise (Delivered size bytes) ns ns'
unfolding sdr_callback
sdr_callback-Delivered size bytes [] fits h = ([], refl, tt)
sdr_callback-Delivered size bytes (n ∷ ns) fits h =
    let (ns', e, d) = sdr_callback-Delivered size bytes ns fits h.1 in
    elim (Bool-cases n.config.is_running) [
      | inl r ↦
          let k = h.0 r in
          let (q', put_ok, rep) =
            queue_put-refines size k.count k.queue k.content bytes k.represents fits k.enough in
          let n' : Node = record n { worker = started q' } in
          (
            n' ∷ ns',
            served_cons bytes n ns n' ns' r (given bytes n k.queue q' k.worker put_ok) e,
            (stored k.count k.queue q' k.content k.worker k.represents refl rep, d),
          )
      | inr r ↦ (n ∷ ns', skipped_cons bytes n ns ns' r e, (skipped r refl, d))
    ]
