-- ===== src/Queue/Complete.antt =====
-- What `complete_buffer_processing` of src/queue.c does to the view of a queue.
use sdr_server.Prelude.{
  ℕ, ◌+◌, ◌≡◌, refl, sym, ap, subst, ◌∙◌, true, false, List, [], ◌∷◌, ◌++◌, length, ◌==◌,
  if◌then◌else◌, arith, length-append, eqb_refl,
}
use sdr_server.Queue.{Ptr, null, Queue, Heap, ok, complete_buffer_processing}
use sdr_server.Queue.Chain.{
  last-append, Apart-symm, has, has-append, message_at, Chain-frame, messages-same, SameOn,
}
use sdr_server.Queue.Links.{link_last-Linked, Linked}
use sdr_server.Queue.View.{QueueView, complete, Layout, view, Represents}

abbrev completed : Queue → Heap → Queue
completed q g = record q {
  first_free_node = if q.last_free_node == null then q.detached_node else q.first_free_node;
  last_free_node = q.detached_node;
  detached_node = null;
  heap = g;
}

module _ (size : ℕ) (q : Queue) (F G : List Ptr)
    (v : Layout size q F G (q.detached_node ∷ [])) where
  detached_F : has q.detached_node F ≡ false
  detached_F =
      Apart-symm F (q.detached_node ∷ []) v.free_detached q.detached_node
        (rw (eqb_refl q.detached_node))

  detached_G : has q.detached_node G ≡ false
  detached_G =
      Apart-symm G (q.detached_node ∷ []) v.filled_detached q.detached_node
        (rw (eqb_refl q.detached_node))

  module _ (g : Heap) (k : Linked q.heap size q.first_free_node F q.detached_node g) where
    same_filled : SameOn G q.heap g
    same_filled a i = k.same a (Apart-symm F G v.free_filled a i)

    Layout-completed : Layout size (completed q g) (F ++ q.detached_node ∷ []) G []
    Layout-completed = record {
      free = rw v.free_end k.chain;
      free_end = sym (last-append F q.detached_node);
      filled = Chain-frame q.heap g size q.first_filled_node G same_filled v.filled;
      filled_end = v.filled_end;
      detached = refl;
      single = omega arith;
      free_filled =
          λ a i. ground (arith, has-append a F (q.detached_node ∷ []), v.free_filled a, detached_G);
      free_detached = λ a i. refl;
      filled_detached = λ a i. refl;
    }

    complete-ok : complete_buffer_processing q ≡ ok (completed q g)
    unfolding complete_buffer_processing
    complete-ok = rw (v.free_end, k.ran)

    view-completed :
        view (completed q g) (F ++ q.detached_node ∷ []) G []
        ≡ complete (view q F G (q.detached_node ∷ []))
    view-completed = λ i. record {
      free = length-append F (q.detached_node ∷ []) i;
      filled = messages-same q.heap g G (λ a h. ap message_at (same_filled a h)) i;
      detached = false;
      poisoned = q.poison_pill;
    }

abbrev pub Completes : ℕ → ℕ → Queue → QueueView → Type 0
Completes size count q v =
    (q' : Queue) × (complete_buffer_processing q ≡ ok q') × Represents size count q' (complete v)

module _ (size count : ℕ) (q : Queue) where
  completes :
      (F G D : List Ptr)
      → Layout size q F G D
      → length F + length G + length D ≡ count
      → (length D == 1) ≡ true
      → Completes size count q (view q F G D)
  completes F G [] l n e = cc
  completes F G (d ∷ c ∷ D) l n e = absurd (omega (arith, l.single))
  completes F G (d ∷ []) l n e =
      let l' = subst (λ b. Layout size q F G (b ∷ [])) (sym l.detached.0) l in
      let (g, k) =
        link_last-Linked q.heap size q.first_free_node F q.detached_node l.free l'.detached
          (detached_F size q F G l') in
      (
        completed q g,
        complete-ok size q F G l' g k,
        (
          F ++ q.detached_node ∷ [],
          G,
          [],
          Layout-completed size q F G l' g k,
          view-completed size q F G l' g k,
          omega (arith, length-append F (q.detached_node ∷ [])),
        ),
      )

-- If a buffer was handed out, its completion does not fault: the buffer goes behind the free ones,
-- and the messages stay.
pub complete_buffer_processing-refines :
    (size count : ℕ) (q : Queue) (v : QueueView)
    → Represents size count q v
    → v.detached ≡ true
    → Completes size count q v
complete_buffer_processing-refines size count q v (F, G, D, l, e, n) busy =
    subst (Completes size count q) e
      (completes size count q F G D l n (ap (λ (w : QueueView). w.detached) e ∙ busy))
