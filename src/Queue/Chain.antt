-- ===== src/Queue/Chain.antt =====
-- Linked nodes: what a first pointer leads to, and how the writes of src/queue.c change it.
use sdr_server.Prelude.{
  ℕ, ◌≡◌, ◌≢◌, refl, ◌∙◌, Bool, true, false, Option, none, some, List, [], ◌∷◌, ◌++◌, arith, ◌==◌,
  if◌then◌else◌, length, take, eqb_refl, map, Bool-cases, inl, inr,
}
use sdr_server.Queue.{Ptr, null, QueueNode, Heap, write, ok, load, set_next}

abbrev pub has : Ptr → List Ptr → Bool
has a [] = false
has a (p ∷ xs) = if a == p then true else has a xs

-- A live node with a buffer of `size` bytes.
pub record Live (h : Heap) (size : ℕ) (p : Ptr) (n : QueueNode) : Type 0 where
  pub ne_null : p ≢ null
  pub holds : h p ≡ some n
  pub capacity : length n.buffer ≡ size

-- From `p` the `next` pointers lead through the distinct live nodes `xs` to NULL.
abbrev pub Chain : Heap → ℕ → Ptr → List Ptr → Type 0
Chain h size p [] = p ≡ null
Chain h size p (a ∷ xs) =
    (p ≡ a) × (has a xs ≡ false) × ((n : QueueNode) × Live h size a n × Chain h size n.next xs)

abbrev pub last : List Ptr → Ptr
last [] = null
last (a ∷ []) = a
last (a ∷ b ∷ xs) = last (b ∷ xs)

pub last-append : (xs : List Ptr) (t : Ptr) → last (xs ++ t ∷ []) ≡ t
last-append [] t = refl
last-append (x ∷ []) t = refl
last-append (x ∷ y ∷ xs) t = last-append (y ∷ xs) t

abbrev pub message_at : Option QueueNode → List ℕ
message_at none = []
message_at (some n) = take n.len n.buffer

-- The bytes that the nodes of a list hold.
abbrev pub messages : Heap → List Ptr → List (List ℕ)
messages h = map (λ p. message_at (h p))

module _ {h : Heap} {size : ℕ} {p : Ptr} {n : QueueNode} (v : Live h size p n) where
  pub not_null : (p == null) ≡ false
  not_null = ground (arith, v.ne_null)

  pub load-ok : load h p ≡ ok n
  unfolding load
  load-ok = rw (not_null, v.holds)

  pub set_next-ok : (q : Ptr) → set_next h p q ≡ ok (write h p (some (record n { next = q })))
  unfolding set_next
  set_next-ok q = rw load-ok

  pub Live-write : (m : QueueNode) → length m.buffer ≡ size → Live (write h p (some m)) size p m
  Live-write m e = record { ne_null = v.ne_null; holds = rw (eqb_refl p); capacity = e }

-- `g` and `h` agree on the nodes of a list; outside of it.
abbrev pub SameOn : List Ptr → Heap → Heap → Type 0
SameOn xs h g = (a : Ptr) → has a xs ≡ true → g a ≡ h a

abbrev pub SameOutside : List Ptr → Heap → Heap → Type 0
SameOutside xs h g = (a : Ptr) → has a xs ≡ false → g a ≡ h a

abbrev pub Apart : List Ptr → List Ptr → Type 0
Apart xs ys = (a : Ptr) → has a xs ≡ true → has a ys ≡ false

pub Apart-symm : (xs ys : List Ptr) → Apart xs ys → Apart ys xs
Apart-symm xs ys f a i = elim (Bool-cases (has a xs)) [ inl e ↦ cc (f a e) | inr e ↦ e ]

pub has-append :
    (a : Ptr) (xs ys : List Ptr) → has a (xs ++ ys) ≡ (if has a xs then true else has a ys)
has-append a [] ys = refl
has-append a (x ∷ xs) ys = ground (arith, has-append a xs ys)

pub Chain-frame :
    (h g : Heap) (size : ℕ) (p : Ptr) (xs : List Ptr)
    → SameOn xs h g
    → Chain h size p xs
    → Chain g size p xs
Chain-frame h g size p [] same v = v
Chain-frame h g size p (b ∷ xs) same (e, fresh, (n, live, rest)) = (
  e,
  fresh,
  (
    n,
    record {
      ne_null = live.ne_null;
      holds = same b (rw (eqb_refl b)) ∙ live.holds;
      capacity = live.capacity;
    },
    Chain-frame h g size n.next xs (λ a i. same a (ground arith)) rest,
  ),
)

-- So they agree on its messages wherever they agree on each message.
pub messages-same :
    (h g : Heap) (xs : List Ptr)
    → ((a : Ptr) → has a xs ≡ true → message_at (g a) ≡ message_at (h a))
    → messages g xs ≡ messages h xs
messages-same h g [] same = refl
messages-same h g (b ∷ xs) same =
    λ i. same b (rw (eqb_refl b)) i ∷ messages-same h g xs (λ a e. same a (ground arith)) i

pub last-Live :
    (h : Heap) (size : ℕ) (p : Ptr) (a : Ptr) (xs : List Ptr)
    → Chain h size p (a ∷ xs)
    → (n : QueueNode) × Live h size (last (a ∷ xs)) n × (n.next ≡ null)
last-Live h size p a [] (e, fresh, (n, live, rest)) = (n, live, rest)
last-Live h size p a (b ∷ xs) (e, fresh, (n, live, rest)) = last-Live h size n.next b xs rest

pub has-last : (a : Ptr) (xs : List Ptr) → has (last (a ∷ xs)) (a ∷ xs) ≡ true
has-last a [] = rw (eqb_refl a)
has-last a (b ∷ xs) = ground (arith, has-last b xs)
