-- ===== src/Prelude/Sublists.antt =====
-- Lists that lack some elements of others, in the same order.
use Prim.Native.Nat.{◌≤◌}
use mathlib.Core.Path.{◌≡◌, refl, ap}
use mathlib.Core.List.{List, [], ◌∷◌, ◌++◌}
use native.Mathlib.Omega.{arith}
use sdr_server.Prelude.Lists.{length}

pub data IsSublist {A : Type 0} : List A → List A → Type 0 where
  nothing : IsSublist [] []
  kept : {x : A} {xs ys : List A} → IsSublist xs ys → IsSublist (x ∷ xs) (x ∷ ys)
  dropped : {y : A} {xs ys : List A} → IsSublist xs ys → IsSublist xs (y ∷ ys)

module _ {A : Type 0} where
  pub whole : (xs : List A) → IsSublist xs xs
  whole [] = nothing
  whole (x ∷ xs) = kept (whole xs)

  pub IsSublist-append :
      (us vs : List A) {xs ys : List A}
      → IsSublist us vs
      → IsSublist xs ys
      → IsSublist (us ++ xs) (vs ++ ys)
  IsSublist-append [] [] nothing h = h
  IsSublist-append (u ∷ us) (v ∷ vs) (kept g) h = kept (IsSublist-append us vs g h)
  IsSublist-append (u ∷ us) [] g h = elim g [ ]
  IsSublist-append us (v ∷ vs) (dropped g) h = dropped (IsSublist-append us vs g h)

  pub IsSublist-trans :
      (ys zs : List A) → IsSublist ys zs → (xs : List A) → IsSublist xs ys → IsSublist xs zs
  IsSublist-trans [] [] nothing xs g = g
  IsSublist-trans (y ∷ ys) [] h xs g = elim h [ ]
  IsSublist-trans (y ∷ ys) (z ∷ zs) (kept h) (x ∷ xs) (kept g) = kept (IsSublist-trans ys zs h xs g)
  IsSublist-trans (y ∷ ys) (z ∷ zs) (kept h) xs (dropped g) = dropped (IsSublist-trans ys zs h xs g)
  IsSublist-trans ys (z ∷ zs) (dropped h) xs g = dropped (IsSublist-trans ys zs h xs g)

  pub length-IsSublist : (xs ys : List A) → IsSublist xs ys → length xs ≤ length ys
  length-IsSublist [] [] nothing = omega arith
  length-IsSublist (x ∷ xs) (y ∷ ys) (kept g) = omega (arith, length-IsSublist xs ys g)
  length-IsSublist (x ∷ xs) [] g = elim g [ ]
  length-IsSublist xs (y ∷ ys) (dropped g) = omega (arith, length-IsSublist xs ys g)

  -- A list that lacks nothing.
  pub IsSublist-full : (xs ys : List A) → IsSublist xs ys → length xs ≡ length ys → xs ≡ ys
  IsSublist-full [] [] nothing e = refl
  IsSublist-full (x ∷ xs) (y ∷ ys) (kept g) e =
      ap (λ r. x ∷ r) (IsSublist-full xs ys g (omega arith))
  IsSublist-full (x ∷ xs) [] g e = elim g [ ]
  IsSublist-full xs (y ∷ ys) (dropped g) e = absurd (omega (arith, length-IsSublist xs ys g))
