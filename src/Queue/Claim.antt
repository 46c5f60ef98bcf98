-- ===== src/Queue/Claim.antt =====
-- The move of a free node to the filled ones in `queue_put` of src/queue.c.
use sdr_server.Prelude.{
  ℕ, ◌≡◌, refl, sym, ap, ◌∙◌, false, List, [], ◌∷◌, ◌++◌, ◌==◌, if◌then◌else◌, arith, eqb_refl,
  some,
}
use sdr_server.Queue.{Ptr, null, QueueNode, Queue, Heap, write, ok, claim_free}
use sdr_server.Queue.Chain.{
  last-append, Chain, Live, Apart, Apart-symm, has, has-append, last, messages, message_at,
  Chain-frame, messages-same, load-ok, set_next-ok, Live-write, SameOn, not_null,
}
use sdr_server.Queue.Links.{Linked}
use sdr_server.Queue.View.{Layout}

pub record Claimed (size : ℕ) (q : Queue) (t : Ptr) (F G D : List Ptr) (q' : Queue) : Type 0 where
  pub ran : claim_free q ≡ ok q'
  pub layout : Layout size q' F (G ++ t ∷ []) D
  pub kept : messages q'.heap G ≡ messages q.heap G
  pub poison : q'.poison_pill ≡ q.poison_pill

abbrev pub claimed : Queue → QueueNode → Heap → Queue
claimed q n g = record q {
  first_free_node = n.next;
  last_free_node = if n.next == null then null else q.last_free_node;
  first_filled_node = if q.last_filled_node == null then q.first_free_node else q.first_filled_node;
  last_filled_node = q.first_free_node;
  heap = g;
}

last-cons :
    (h : Heap) (size : ℕ) (p t : Ptr) (F : List Ptr)
    → Chain h size p F
    → (if p == null then null else last (t ∷ F)) ≡ last F
last-cons h size p t [] c = rw c
last-cons h size p t (a ∷ F) (e, fresh, (n, live, rest)) = rw (e, not_null live)

module _ (size : ℕ) (q : Queue) (F G D : List Ptr) where
  abbrev pub head : Ptr
  head = q.first_free_node

  -- `t->next = NULL`
  abbrev pub cut : QueueNode → Heap
  cut n = write q.heap head (some (record n { next = null }))

  module _ (v : Layout size q (head ∷ F) G D) (n : QueueNode) (live : Live q.heap size head n)
      (rest : Chain q.heap size n.next F) where
    pub head_G : has head G ≡ false
    head_G = v.free_filled head (rw (eqb_refl head))

    head_D : has head D ≡ false
    head_D = v.free_detached head (rw (eqb_refl head))

    head_F : has head F ≡ false
    head_F = v.free.1

    pub cut-SameOn : (xs : List Ptr) → has head xs ≡ false → SameOn xs q.heap (cut n)
    cut-SameOn xs o a i = ground arith

    pub cut-single : Chain (cut n) size head (head ∷ [])
    cut-single = (
      refl,
      refl,
      (record n { next = null }, Live-write live (record n { next = null }) live.capacity, refl),
    )

    module _ (g : Heap) (l : Linked (cut n) size q.first_filled_node G head g) where
      outside : (xs : List Ptr) → has head xs ≡ false → Apart xs G → SameOn xs q.heap g
      outside xs o apart a i = l.same a (apart a i) ∙ cut-SameOn xs o a i

      pub Claimed-link : Claimed size q head F G D (claimed q n g)
      unfolding claim_free
      Claimed-link = record {
        ran = rw (load-ok live, set_next-ok live null, v.filled_end, l.ran);
        layout = record {
          free =
              Chain-frame q.heap g size n.next F
                (outside F head_F (λ a i. v.free_filled a (ground arith))) rest;
          free_end = rw v.free_end (last-cons q.heap size n.next head F rest);
          filled = rw v.filled_end l.chain;
          filled_end = sym (last-append G head);
          detached =
              Chain-frame q.heap g size q.detached_node D
                (outside D head_D (Apart-symm G D v.filled_detached)) v.detached;
          single = v.single;
          free_filled = λ a i. ground (arith, has-append a G (head ∷ []), v.free_filled a);
          free_detached = λ a i. v.free_detached a (ground arith);
          filled_detached =
              λ a i. ground (arith, has-append a G (head ∷ []), v.filled_detached a, head_D);
        };
        kept = messages-same q.heap g G (λ a i. l.kept a ∙ ap message_at (cut-SameOn G head_G a i));
        poison = refl;
      }
