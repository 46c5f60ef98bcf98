-- ===== src/Queue/Memory/Destroy.antt =====
-- The release of a queue of src/queue.c.
use sdr_server.Prelude.{
  ℕ, zero, suc, ◌+◌, ◌≤◌, ◌<◌, ◌≡◌, refl, ◌∙◌, true, false, none, List, [], ◌∷◌, ◌++◌, arith,
  length, Bool-cases, inl, inr,
}
use sdr_server.Queue.{Ptr, Heap, write, Queue, ok}
use sdr_server.Queue.Chain.{Chain, has, Apart-symm, Chain-frame, not_null, load-ok, has-append}
use sdr_server.Queue.View.{Layout}
use sdr_server.Queue.Memory.{destroy_nodes, destroy_detached, destroy_queue}

-- The heap without the cells of a list.
abbrev pub freed : Heap → List Ptr → Heap
freed h [] = h
freed h (a ∷ xs) = freed (write h a none) xs

pub freed-same : (h : Heap) (xs : List Ptr) (a : Ptr) → has a xs ≡ false → freed h xs a ≡ h a
freed-same h [] a e = refl
freed-same h (b ∷ xs) a e = freed-same (write h b none) xs a (ground arith) ∙ ground arith

pub freed-gone : (h : Heap) (xs : List Ptr) (a : Ptr) → has a xs ≡ true → freed h xs a ≡ none
freed-gone h [] a e = cc
freed-gone h (b ∷ xs) a e = elim (Bool-cases (has a xs)) [
  | inl i ↦ freed-gone (write h b none) xs a i
  | inr i ↦ freed-same (write h b none) xs a i ∙ ground arith
]

-- A chain of fewer nodes than there are steps is freed, each of its cells once.
pub destroy_nodes-freed :
    (k : ℕ) (h : Heap) (size : ℕ) (p : Ptr) (xs : List Ptr)
    → Chain h size p xs
    → length xs < k
    → destroy_nodes k h p ≡ ok (freed h xs)
unfolding destroy_nodes
destroy_nodes-freed zero h size p xs c l = absurd (omega arith)
destroy_nodes-freed (suc k) h size p [] c l = rw c
destroy_nodes-freed (suc k) h size p (a ∷ xs) (e, fresh, (n, live, rest)) l =
    rw (e, not_null live, load-ok live)
      (destroy_nodes-freed k (write h a none) size n.next xs
        (Chain-frame h (write h a none) size n.next xs (λ b i. ground arith) rest) (omega arith))

destroy_detached-freed :
    (h : Heap) (size : ℕ) (p : Ptr) (xs : List Ptr)
    → Chain h size p xs
    → length xs ≤ 1
    → destroy_detached h p ≡ ok (freed h xs)
unfolding destroy_detached
destroy_detached-freed h size p [] c l = rw c
destroy_detached-freed h size p (a ∷ b ∷ xs) c l = absurd (omega arith)
destroy_detached-freed h size p (a ∷ []) (e, fresh, (n, live, rest)) l =
    rw (e, not_null live, load-ok live)

-- What the release of a queue with these nodes must do: it runs without a fault, no node is left,
-- and nothing else is touched.
pub record Released (k : ℕ) (q : Queue) (nodes : List Ptr) : Type 0 where
  pub left : Heap
  pub ran : destroy_queue k q ≡ ok left
  pub gone : (a : Ptr) → has a nodes ≡ true → left a ≡ none
  pub same : (a : Ptr) → has a nodes ≡ false → left a ≡ q.heap a

module _ (size : ℕ) (q : Queue) (F G D : List Ptr) (l : Layout size q F G D) where
  without_free : Heap
  without_free = freed q.heap F

  without_filled : Heap
  unfolding without_free
  without_filled = freed without_free G

  filled_left : Chain without_free size q.first_filled_node G
  unfolding without_free
  filled_left =
      Chain-frame q.heap (freed q.heap F) size q.first_filled_node G
        (λ a i. freed-same q.heap F a (Apart-symm F G l.free_filled a i)) l.filled

  detached_left : Chain without_filled size q.detached_node D
  unfolding without_free without_filled
  detached_left =
      Chain-frame q.heap (freed (freed q.heap F) G) size q.detached_node D
        (λ a i.
          freed-same (freed q.heap F) G a (Apart-symm G D l.filled_detached a i)
          ∙ freed-same q.heap F a (Apart-symm F D l.free_detached a i))
        l.detached

  all_freed : (a : Ptr) → has a (F ++ (G ++ D)) ≡ true → freed without_filled D a ≡ none
  unfolding without_free without_filled
  all_freed a i = elim (Bool-cases (has a D)) [
    | inl d ↦ freed-gone (freed (freed q.heap F) G) D a d
    | inr d ↦ freed-same (freed (freed q.heap F) G) D a d ∙ elim (Bool-cases (has a G)) [
      | inl g ↦ freed-gone (freed q.heap F) G a g
      | inr g ↦
          freed-same (freed q.heap F) G a g
          ∙ freed-gone q.heap F a (ground (arith, has-append a F (G ++ D), has-append a G D))
    ]
  ]

  others_same : (a : Ptr) → has a (F ++ (G ++ D)) ≡ false → freed without_filled D a ≡ q.heap a
  unfolding without_free without_filled
  others_same a i =
      freed-same (freed (freed q.heap F) G) D a
        (ground (arith, has-append a F (G ++ D), has-append a G D))
      ∙ freed-same (freed q.heap F) G a (ground (arith, has-append a F (G ++ D), has-append a G D))
      ∙ freed-same q.heap F a (ground (arith, has-append a F (G ++ D)))

-- A queue is released without a fault, whichever of its buffers are free, filled or being
-- processed: each node is freed once, all of them are, and nothing else. More steps than there
-- are nodes are enough.
pub destroy_queue-Released :
    (size : ℕ) (q : Queue) (F G D : List Ptr) (k : ℕ)
    → Layout size q F G D
    → length F + length G + length D < k
    → Released k q (F ++ (G ++ D))
unfolding destroy_queue without_free without_filled
destroy_queue-Released size q F G D k l enough = record {
  left = freed (freed (freed q.heap F) G) D;
  ran =
      rw
        (
          destroy_nodes-freed k q.heap size q.first_free_node F l.free (omega arith),
          destroy_nodes-freed k (freed q.heap F) size q.first_filled_node G
              (filled_left size q F G D l) (omega arith),
        )
        (destroy_detached-freed (freed (freed q.heap F) G) size q.detached_node D
          (detached_left size q F G D l) l.single);
  gone = all_freed size q F G D l;
  same = others_same size q F G D l;
}
