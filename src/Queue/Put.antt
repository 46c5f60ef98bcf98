-- ===== src/Queue/Put.antt =====
-- `queue_put` and `complete_buffer_processing` refine the view.
use sdr_server.Prelude.{
  ℕ, suc, ◌+◌, ◌≤◌, ◌≡◌, ◌≢◌, refl, sym, ap, subst, ◌∙◌, Bool, true, false, List, [], ◌∷◌, ◌++◌,
  length, ◌==◌, arith, length-append,
}
use sdr_server.Queue.{Ptr, null, QueueNode, Queue, Heap, ok, queue_put, claim_free, fill}
use sdr_server.Queue.Chain.{Chain, Live, Apart-symm, messages, message_at, Chain-frame, not_null}
use sdr_server.Queue.Links.{overwrite_last, link_last-Linked, fill-Filled, Filled}
use sdr_server.Queue.View.{QueueView, put, Layout, view, Represents}
use sdr_server.Queue.Claim.{Claimed, claimed, cut, cut-SameOn, cut-single, head_G, Claimed-link}

-- After the free node `t` has been moved to the end of the filled ones.

overwrite_last-append :
    (ms : List (List ℕ)) (m bytes : List ℕ) → overwrite_last (ms ++ m ∷ []) bytes ≡ ms ++ bytes ∷ []
overwrite_last-append [] m bytes = refl
overwrite_last-append (x ∷ []) m bytes = refl
overwrite_last-append (x ∷ y ∷ ms) m bytes = ap (◌∷◌ x) (overwrite_last-append (y ∷ ms) m bytes)

messages-append :
    (h : Heap) (xs : List Ptr) (t : Ptr)
    → messages h (xs ++ t ∷ []) ≡ messages h xs ++ message_at (h t) ∷ []
messages-append h [] t = refl
messages-append h (x ∷ xs) t = ap (◌∷◌ (message_at (h x))) (messages-append h xs t)

length-messages : (h : Heap) (xs : List Ptr) → length (messages h xs) ≡ length xs
length-messages h [] = refl
length-messages h (x ∷ xs) = ap suc (length-messages h xs)

fill_some :
    (h : Heap) (size : ℕ) (p : Ptr) (xs : List Ptr) (bytes : List ℕ)
    → xs ≢ []
    → Chain h size p xs
    → length bytes ≤ size
    → (g : Heap) × Filled h size p xs bytes g
fill_some h size p [] bytes ne c fits = absurd (ne refl)
fill_some h size p (a ∷ xs) bytes ne c fits = fill-Filled h size p a xs bytes c fits

append-ne-nil : (xs : List Ptr) (t : Ptr) → xs ++ t ∷ [] ≢ []
append-ne-nil [] t = cc
append-ne-nil (x ∷ xs) t = cc

-- The write into the last filled node, which ends each `queue_put`.
fill-Layout :
    (size : ℕ) (q : Queue) (F G D : List Ptr) (bytes : List ℕ) (g : Heap)
    → Filled q.heap size q.first_filled_node G bytes g
    → Layout size q F G D
    → Layout size (record q { heap = g }) F G D
fill-Layout size q F G D bytes g f v = record {
  free = Chain-frame q.heap g size q.first_free_node F (λ b i. f.same b (v.free_filled b i)) v.free;
  free_end = v.free_end;
  filled = f.chain;
  filled_end = v.filled_end;
  detached =
      Chain-frame q.heap g size q.detached_node D
        (λ b i. f.same b (Apart-symm G D v.filled_detached b i)) v.detached;
  single = v.single;
  free_filled = v.free_filled;
  free_detached = v.free_detached;
  filled_detached = v.filled_detached;
}

put_full :
    (q : Queue) (bytes : List ℕ) (g : Heap)
    → (q.first_free_node == null) ≡ true
    → fill q.heap q.last_filled_node bytes ≡ ok g
    → queue_put bytes q ≡ ok (record q { heap = g })
unfolding queue_put
put_full q bytes g e f = rw (e, f)

put_free :
    (q q' : Queue) (bytes : List ℕ) (g : Heap)
    → (q.first_free_node == null) ≡ false
    → claim_free q ≡ ok q'
    → fill q'.heap q'.last_filled_node bytes ≡ ok g
    → queue_put bytes q ≡ ok (record q' { heap = g })
unfolding queue_put
put_free q q' bytes g e c f = rw (e, c, f)

put_view :
    (free : ℕ) (new old : List (List ℕ)) (bytes : List ℕ) (out p p' : Bool)
    → new ≡ old ++ bytes ∷ []
    → p' ≡ p
    → ◌≡◌ {A = QueueView}
        (record { free = free; filled = new; detached = out; poisoned = p' })
        (put bytes (record { free = suc free; filled = old; detached = out; poisoned = p }))
put_view free new old bytes out p p' e e' = ground arith

module _ (size count : ℕ) (q : Queue) (bytes : List ℕ) (fits : length bytes ≤ size) where
  abbrev Puts : QueueView → Type 0
  Puts v = (q' : Queue) × (queue_put bytes q ≡ ok q') × Represents size count q' (put bytes v)

  overwrites :
      (G D : List Ptr)
      → G ≢ []
      → Layout size q [] G D
      → length G + length D ≡ count
      → Puts (view q [] G D)
  overwrites G D ne l n =
      let (g, f) = fill_some q.heap size q.first_filled_node G bytes ne l.filled fits in
      (
        record q { heap = g },
        put_full q bytes g (rw l.free) (rw l.filled_end f.ran),
        (
          [],
          G,
          D,
          fill-Layout size q [] G D bytes g f l,
          ap (λ ms. record (view q [] G D) { filled = ms }) f.stored,
          omega arith,
        ),
      )

  appends :
      (F G D : List Ptr) (q' : Queue)
      → Claimed size q q.first_free_node F G D q'
      → (q.first_free_node == null) ≡ false
      → suc (length F) + length G + length D ≡ count
      → Puts (view q (q.first_free_node ∷ F) G D)
  appends F G D q' c e n =
      let t = q.first_free_node in
      let l = c.layout in
      let (g, f) =
        fill_some q'.heap size q'.first_filled_node (G ++ t ∷ []) bytes (append-ne-nil G t) l.filled
          fits in
      (
        record q' { heap = g },
        put_free q q' bytes g e c.ran (rw l.filled_end f.ran),
        (
          F,
          G ++ t ∷ [],
          D,
          fill-Layout size q' F (G ++ t ∷ []) D bytes g f l,
          put_view (length F) _ _ bytes _ _ _
              (f.stored
                ∙ ap (λ ms. overwrite_last ms bytes)
                    (messages-append q'.heap G t
                      ∙ ap (λ ms. ms ++ message_at (q'.heap t) ∷ []) c.kept)
                ∙ overwrite_last-append (messages q.heap G) (message_at (q'.heap t)) bytes)
              c.poison,
          omega (arith, length-append G (t ∷ [])),
        ),
      )

  puts :
      (F G D : List Ptr)
      → Layout size q F G D
      → length F + length G + length D ≡ count
      → 2 ≤ count
      → Puts (view q F G D)
  puts [] [] D l n two = absurd (omega (arith, l.single))
  puts [] (a ∷ G) D l n two = overwrites (a ∷ G) D (λ e. cc) l (omega arith)
  puts (t ∷ F) G D l n two =
      let (e, fresh, (m, live, rest)) = l.free in
      let moved =
        claims F G D m (subst (λ a. Layout size q (a ∷ F) G D) (sym e) l)
          (subst (λ a. Live q.heap size a m) (sym e) live) rest in
      subst (λ a. Puts (view q (a ∷ F) G D)) e
        (appends F G D moved.0 moved.1 (rw e (not_null live)) (omega arith))
    where
      claims :
          (F G D : List Ptr) (m : QueueNode)
          → Layout size q (q.first_free_node ∷ F) G D
          → Live q.heap size q.first_free_node m
          → Chain q.heap size m.next F
          → (q' : Queue) × Claimed size q q.first_free_node F G D q'
      claims F G D m l live rest =
          let (g, k) =
            link_last-Linked (cut size q F G D m) size q.first_filled_node G q.first_free_node
              (Chain-frame q.heap _ size q.first_filled_node G
                (cut-SameOn size q F G D l m live rest G (head_G size q F G D l m live rest))
                l.filled)
              (cut-single size q F G D l m live rest) (head_G size q F G D l m live rest) in
          (claimed q m g, Claimed-link size q F G D l m live rest g k)

-- With two buffers or more, a message that fits a buffer is stored: behind the others while there
-- is a free buffer, and over the newest of them when there is none.
pub queue_put-refines :
    (size count : ℕ) (q : Queue) (v : QueueView) (bytes : List ℕ)
    → Represents size count q v
    → length bytes ≤ size
    → 2 ≤ count
    → (q' : Queue) × (queue_put bytes q ≡ ok q') × Represents size count q' (put bytes v)
queue_put-refines size count q v bytes (F, G, D, l, e, n) fits two =
    subst (λ w. Puts size count q bytes fits w) e (puts size count q bytes fits F G D l n two)
