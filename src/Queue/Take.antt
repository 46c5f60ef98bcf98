-- ===== src/Queue/Take.antt =====
-- `take_buffer_for_processing` and `complete_buffer_processing` refine the view, and the one queue
-- that cannot take a message.
use sdr_server.Prelude.{
  ℕ, ◌+◌, ◌≡◌, refl, sym, ap, subst, ◌∙◌, false, List, [], ◌∷◌, length, ◌==◌, if◌then◌else◌, arith,
  eqb_refl, some, take,
}
use sdr_server.Queue.{
  Ptr, null, QueueNode, Queue, Heap, write, ok, buffer, take_buffer_for_processing, detach_first,
}
use sdr_server.Queue.Chain.{
  Chain, Live, Apart-symm, has, last, messages, message_at, Chain-frame, messages-same, load-ok,
  set_next-ok, Live-write, SameOn, not_null,
}
use sdr_server.Queue.View.{QueueView, take_first, Layout, view, Represents}

last-tail :
    (h : Heap) (size : ℕ) (p t : Ptr) (F : List Ptr)
    → Chain h size p F
    → (if p == null then null else last (t ∷ F)) ≡ last F
last-tail h size p t [] c = rw c
last-tail h size p t (a ∷ F) (e, fresh, (n, live, rest)) = rw (e, not_null live)

abbrev cut : Queue → QueueNode → Heap
cut q n = write q.heap q.first_filled_node (some (record n { next = null }))

abbrev detached : Queue → QueueNode → Queue
detached q n = record q {
  detached_node = q.first_filled_node;
  first_filled_node = n.next;
  last_filled_node = if n.next == null then null else q.last_filled_node;
  heap = cut q n;
}

module _ (size : ℕ) (q : Queue) (F G : List Ptr) (n : QueueNode)
    (v : Layout size q F (q.first_filled_node ∷ G) [])
    (live : Live q.heap size q.first_filled_node n) (rest : Chain q.heap size n.next G) where
  same_elsewhere : (xs : List Ptr) → has q.first_filled_node xs ≡ false → SameOn xs q.heap (cut q n)
  same_elsewhere xs o a i = ground arith

  head_F : has q.first_filled_node F ≡ false
  head_F =
      Apart-symm F (q.first_filled_node ∷ G) v.free_filled q.first_filled_node
        (rw (eqb_refl q.first_filled_node))

  Layout-detached : Layout size (detached q n) F G (q.first_filled_node ∷ [])
  Layout-detached = record {
    free = Chain-frame q.heap (cut q n) size q.first_free_node F (same_elsewhere F head_F) v.free;
    free_end = v.free_end;
    filled = Chain-frame q.heap (cut q n) size n.next G (same_elsewhere G v.filled.1) rest;
    filled_end = rw v.filled_end (last-tail q.heap size n.next q.first_filled_node G rest);
    detached = (
      refl,
      refl,
      (record n { next = null }, Live-write live (record n { next = null }) live.capacity, refl),
    );
    single = omega arith;
    free_filled = λ a i. ground (arith, v.free_filled a);
    free_detached = λ a i. ground (arith, v.free_filled a);
    filled_detached = λ a i. ground (arith, v.filled.1);
  }

  detach_first-ok : detach_first q ≡ ok (buffer (take n.len n.buffer), detached q n)
  unfolding detach_first
  detach_first-ok = rw (load-ok live, set_next-ok live null)

  kept : messages (cut q n) G ≡ messages q.heap G
  kept = messages-same q.heap (cut q n) G (λ a i. ap message_at (same_elsewhere G v.filled.1 a i))

-- What a call for the next buffer must return and leave.
abbrev pub Takes : ℕ → ℕ → Queue → QueueView → Type 0
Takes size count q v =
    (q' : Queue) × (take_buffer_for_processing q ≡ ok ((take_first v.filled v).0, q'))
    × Represents size count q' (take_first v.filled v).1

module _ (size count : ℕ) (q : Queue) where
  takes :
      (F G D : List Ptr)
      → Layout size q F G D
      → length F + length G + length D ≡ count
      → (length D == 1) ≡ false
      → Takes size count q (view q F G D)
  unfolding take_buffer_for_processing
  takes F [] D l n e = (q, rw l.filled, (F, [], D, l, refl, n))
  takes F (a ∷ G) (d ∷ D) l n e = absurd (ground (arith, l.single))
  takes F (a ∷ G) [] l n e =
      let (h, fresh, (m, live, rest)) = l.filled in
      let l' = subst (λ b. Layout size q F (b ∷ G) []) (sym h) l in
      let live' = subst (λ b. Live q.heap size b m) (sym h) live in
      (
        detached q m,
        rw (not_null live') (
            detach_first-ok size q F G m l' live' rest
            ∙ ap (λ o. ok (buffer (message_at o), detached q m)) (sym live.holds)),
        (
          F,
          G,
          q.first_filled_node ∷ [],
          Layout-detached size q F G m l' live' rest,
          ap (λ ms. record (view q F G (a ∷ [])) { filled = ms }) (kept size q F G m l' live' rest),
          omega arith,
        ),
      )

-- While no buffer is being processed, a call hands out the oldest message with its buffer, also
-- from a poisoned queue; from an empty queue it returns NULL if the queue is poisoned and
-- waits otherwise, and the queue is as it was.
pub take_buffer_for_processing-refines :
    (size count : ℕ) (q : Queue) (v : QueueView)
    → Represents size count q v
    → v.detached ≡ false
    → Takes size count q v
take_buffer_for_processing-refines size count q v (F, G, D, l, e, n) idle =
    subst (Takes size count q) e
      (takes size count q F G D l n (ap (λ (w : QueueView). w.detached) e ∙ idle))
