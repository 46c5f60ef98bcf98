-- ===== src/Queue/Memory/Create.antt =====
-- The allocation of a queue of src/queue.c.
use sdr_server.Prelude.{
  ℕ, zero, suc, ◌+◌, ◌≤◌, ◌<◌, ◌≡◌, refl, ap, ◌∙◌, subst, true, false, ◌&&◌, none, some, List, [],
  ◌∷◌, ◌++◌, arith, ◌==◌, if◌then◌else◌, length, length-append, replicate, Bool-cases, inl, inr,
}
use sdr_server.Queue.{Ptr, null, Heap, write, Queue, Run, ok}
use sdr_server.Queue.Chain.{Chain, has, Chain-frame, has-append, last, last-append}
use sdr_server.Queue.Links.{Linked, link_last-Linked}
use sdr_server.Queue.View.{QueueView, Represents}
use sdr_server.Queue.Memory.{
  NodeMemory, new_node, free_queue, without_buffer, give_up_node, Creation, created, no_memory,
  give_up, create_nodes, create_queue,
}
use sdr_server.Queue.Memory.Destroy.{freed, freed-same, freed-gone, destroy_nodes-freed}

abbrev pub all_free : ℕ → QueueView
all_free count = record { free = count; filled = []; detached = false; poisoned = false }

pub data Built (memory : ℕ → NodeMemory) (size count : ℕ) (r : Run Creation) : Type 0 where
  built :
      (q : Queue)
      → r ≡ ok (created q)
      → Represents size count q (all_free count)
      → Built memory size count r
  out_of_memory :
      (h : Heap) (i : ℕ)
      → r ≡ ok (no_memory false h)
      → ((a : Ptr) → h a ≡ none)
      → i < count
      → ((memory i).node && (memory i).buffer) ≡ false
      → Built memory size count r

length-replicate : (n x : ℕ) → length (replicate n x) ≡ n
length-replicate zero x = refl
length-replicate (suc n) x = omega (arith, length-replicate n x)

-- The nodes made so far: a chain of `i` of them, below the next address, and nothing else.
record Made (size i : ℕ) (h : Heap) (first : Ptr) (xs : List Ptr) : Type 0 where
  chain : Chain h size first xs
  count : length xs ≡ i
  low : (a : Ptr) → has a xs ≡ true → a ≤ i
  only : (a : Ptr) → has a xs ≡ false → h a ≡ none

module _ (memory : ℕ → NodeMemory) (size : ℕ) where
  gave_up :
      (i : ℕ) (h : Heap) (first : Ptr) (xs : List Ptr)
      → Made size i h first xs
      → give_up memory size i h first ≡ ok (no_memory false (freed h xs))
  unfolding give_up
  gave_up i h first xs m =
      rw (destroy_nodes-freed (suc i) h size first xs m.chain (omega (arith, m.count)))

  nothing_left :
      (i : ℕ) (h : Heap) (first : Ptr) (xs : List Ptr)
      → Made size i h first xs
      → (a : Ptr) → freed h xs a ≡ none
  nothing_left i h first xs m a = elim (Bool-cases (has a xs)) [
    | inl e ↦ freed-gone h xs a e
    | inr e ↦ freed-same h xs a e ∙ m.only a e
  ]

  fresh_node :
      (i : ℕ) (h : Heap) (first : Ptr) (xs : List Ptr)
      → Made size i h first xs
      → has (suc i) xs ≡ false
  fresh_node i h first xs m = elim (Bool-cases (has (suc i) xs)) [
    | inl e ↦ absurd (omega (arith, m.low (suc i) e))
    | inr e ↦ e
  ]

  abbrev with_node : ℕ → Heap → Heap
  with_node i h = write h (suc i) (some (new_node size))

  abbrev with_bare : ℕ → Heap → Heap
  with_bare i h = write h (suc i) (some (without_buffer memory size))

  gave_up_node :
      (i : ℕ) (h : Heap) (first : Ptr) (xs : List Ptr)
      → Made size i h first xs
      → give_up_node memory size i h first
        ≡ ok (no_memory false (write (freed (with_bare i h) xs) (suc i) none))
  unfolding give_up_node
  gave_up_node i h first xs m =
      rw
        (destroy_nodes-freed (suc i) (with_bare i h) size first xs
          (Chain-frame h (with_bare i h) size first xs (λ a e. ground (arith, m.low a)) m.chain)
          (omega (arith, m.count)))
        refl

  nothing_left_of_node :
      (i : ℕ) (h : Heap) (first : Ptr) (xs : List Ptr)
      → Made size i h first xs
      → (a : Ptr) → write (freed (with_bare i h) xs) (suc i) none a ≡ none
  nothing_left_of_node i h first xs m a = elim (Bool-cases (a == suc i)) [
    | inl e ↦ rw e refl
    | inr e ↦ rw e (elim (Bool-cases (has a xs)) [
      | inl k ↦ freed-gone (with_bare i h) xs a k
      | inr k ↦ freed-same (with_bare i h) xs a k ∙ rw e (m.only a k)
    ])
  ]

  new_chain : (i : ℕ) (h : Heap) → Chain (with_node i h) size (suc i) (suc i ∷ [])
  new_chain i h = (
    refl,
    refl,
    (
      new_node size,
      record {
        ne_null = λ e. omega (arith, e);
        holds = ground arith;
        capacity = length-replicate size 0;
      },
      refl,
    ),
  )

  old_chain :
      (i : ℕ) (h : Heap) (first : Ptr) (xs : List Ptr)
      → Made size i h first xs
      → Chain (with_node i h) size first xs
  old_chain i h first xs m =
      Chain-frame h (with_node i h) size first xs (λ a e. ground (arith, m.low a)) m.chain

  Made-more :
      (i : ℕ) (h : Heap) (first : Ptr) (xs : List Ptr) (g : Heap)
      → Made size i h first xs
      → Linked (with_node i h) size first xs (suc i) g
      → Made size (suc i) g (if last xs == null then suc i else first) (xs ++ suc i ∷ [])
  Made-more i h first xs g m k = record {
    chain = k.chain;
    count = omega (arith, length-append xs (suc i ∷ []), m.count);
    low = λ a e. ground (arith, has-append a xs (suc i ∷ []), m.low a);
    only = λ a e.
        k.same a (ground (arith, has-append a xs (suc i ∷ [])))
        ∙ ground (arith, has-append a xs (suc i ∷ []), m.only a);
  }

  all_free-Made :
      (i : ℕ) (h : Heap) (first : Ptr) (xs : List Ptr)
      → Made size i h first xs
      → Represents size i (free_queue h first (last xs)) (all_free i)
  all_free-Made i h first xs m = (
    xs,
    [],
    [],
    record {
      free = m.chain;
      free_end = refl;
      filled = refl;
      filled_end = refl;
      detached = refl;
      single = omega arith;
      free_filled = λ a e. refl;
      free_detached = λ a e. refl;
      filled_detached = λ a e. refl;
    },
    ap all_free m.count,
    omega (arith, m.count),
  )

  refused_here :
      (i total : ℕ) (h : Heap) (first : Ptr) (xs : List Ptr)
      → Made size i h first xs
      → i < total
      → ((memory i).node && (memory i).buffer) ≡ false
      → Built memory size total (give_up memory size i h first)
  refused_here i total h first xs m l e =
      out_of_memory (freed h xs) i (gave_up i h first xs m) (nothing_left i h first xs m) l e

  refused_buffer :
      (i total : ℕ) (h : Heap) (first : Ptr) (xs : List Ptr)
      → Made size i h first xs
      → i < total
      → ((memory i).node && (memory i).buffer) ≡ false
      → Built memory size total (give_up_node memory size i h first)
  refused_buffer i total h first xs m l e =
      out_of_memory (write (freed (with_bare i h) xs) (suc i) none) i (gave_up_node i h first xs m)
        (nothing_left_of_node i h first xs m) l e

  create_nodes-Built :
      (total k i : ℕ) (h : Heap) (first : Ptr) (xs : List Ptr)
      → Made size i h first xs
      → i + k ≡ total
      → Built memory size total (create_nodes memory size k i h first (last xs))
  unfolding create_nodes
  create_nodes-Built total zero i h first xs m e =
      subst (λ n. Built memory size n (ok (created (free_queue h first (last xs)))))
        (omega (arith, e))
        (built (free_queue h first (last xs)) refl (all_free-Made i h first xs m))
  create_nodes-Built total (suc k) i h first xs m e = elim (Bool-cases (memory i).node) [
    | inr a ↦ rw a (refused_here i total h first xs m (omega (arith, e)) (ground arith))
    | inl a ↦ elim (Bool-cases (memory i).buffer) [
      | inr b ↦ rw (a, b) (refused_buffer i total h first xs m (omega (arith, e)) (ground arith))
      | inl b ↦
          let (g, r) =
            link_last-Linked (with_node i h) size first xs (suc i) (old_chain i h first xs m)
              (new_chain i h) (fresh_node i h first xs m) in
          rw (a, b, r.ran)
            (subst
              (λ t.
                Built memory size total (
                  create_nodes memory size k (suc i) g (if last xs == null then suc i else first)
                    t))
              (last-append xs (suc i))
              (create_nodes-Built total k (suc i) g (if last xs == null then suc i else first)
                (xs ++ suc i ∷ []) (Made-more i h first xs g m r) (omega (arith, e))))
    ]
  ]

  -- A queue is created with all its buffers free, one for each that was asked for; if a node or a
  -- buffer cannot be allocated, everything that was is freed again, the node without its buffer and
  -- the structure of the queue included.
  pub create_queue-Built :
      (count : ℕ) → Built memory size count (create_queue memory size true count)
  unfolding create_queue
  create_queue-Built count =
      create_nodes-Built count count 0 (λ _. none) null []
        (record { chain = refl; count = refl; low = λ a e. cc; only = λ a e. refl }) (omega arith)
