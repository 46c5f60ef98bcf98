-- ===== src/Xlating/Reverse.antt =====
-- src/xlating.c, create_frequency_xlating_filter: the loop that reverses the taps in place.
use sdr_server.Prelude.{
  ℕ, zero, suc, ◌+◌, ◌-◌, ◌*◌, ◌/◌, ◌≤◌, ◌<◌, ◌≡◌, refl, ap, ◌∙◌, ◌||◌, Option, none, some, List,
  [], ◌∷◌, ltb, ◌==◌, if◌then◌else◌, length, get_elem?, set, length-set, get_elem?-set, arith,
}

-- Where an element comes from after `k` rounds on a list of length `n`.
abbrev mirror : ℕ → ℕ → ℕ → ℕ
mirror n k m = if ltb m k then n - 1 - m else if ltb (n - 1 - m) k then n - 1 - m else m

mirror_step :
    (n k m : ℕ)
    → 2 * k + 1 ≤ n
    → m < n
    → (if m == k
        then mirror n k (n - 1 - k)
        else if m == n - 1 - k
        then mirror n k k
        else mirror n k m)
      ≡ mirror n (k + 1) m
mirror_step n k m h h' = ground arith

module _ {A : Type 0} where
  -- `tmp = xs[j]; xs[j] = xs[i]; xs[i] = tmp;` of the two values. Both indices are inside.
  abbrev exchange : ℕ → ℕ → Option A → Option A → List A → List A
  exchange i j none there xs = xs
  exchange i j (some here) none xs = xs
  exchange i j (some here) (some there) xs = set (set xs j here) i there

  unfoldable pub swap : ℕ → ℕ → List A → List A
  swap i j xs = exchange i j (get_elem? xs i) (get_elem? xs j) xs

  -- `for (i = 0; i <= taps_len / 2; i++)`, by the rounds left.
  unfoldable pub reverse_from : ℕ → ℕ → List A → List A
  unfolding swap
  reverse_from zero i xs = xs
  reverse_from (suc rounds) i xs = reverse_from rounds (i + 1) (swap i (length xs - 1 - i) xs)

  unfoldable pub reverse_taps : List A → List A
  unfolding reverse_from
  reverse_taps xs = reverse_from (length xs / 2 + 1) 0 xs

  length-exchange :
      (i j : ℕ) (here there : Option A) (xs : List A)
      → length (exchange i j here there xs) ≡ length xs
  length-exchange i j none there xs = refl
  length-exchange i j (some here) none xs = refl
  length-exchange i j (some here) (some there) xs =
      length-set (set xs j here) i there ∙ length-set xs j here

  length-swap : (i j : ℕ) (xs : List A) → length (swap i j xs) ≡ length xs
  unfolding swap
  length-swap i j xs = length-exchange i j (get_elem? xs i) (get_elem? xs j) xs

  pub length-reverse_from : (n i : ℕ) (xs : List A) → length (reverse_from n i xs) ≡ length xs
  unfolding reverse_from
  length-reverse_from zero i xs = refl
  length-reverse_from (suc n) i xs =
      length-reverse_from n (i + 1) (swap i (length xs - 1 - i) xs)
      ∙ length-swap i (length xs - 1 - i) xs

  -- An index inside has an element.
  found : (xs : List A) (i : ℕ) → i < length xs → (x : A) × (get_elem? xs i ≡ some x)
  found [] i h = elim h [ ]
  found (x ∷ xs) zero h = (x, refl)
  found (x ∷ xs) (suc i) h = found xs i (omega arith)

  exchanged :
      (i j m : ℕ) (xs : List A) (here there : A)
      → i < length xs
      → j < length xs
      → get_elem? (set (set xs j here) i there) m
        ≡ (if m == i then some there else if m == j then some here else get_elem? xs m)
  exchanged i j m xs here there h h' =
      get_elem?-set (set xs j here) i m there (omega (arith, length-set xs j here))
      ∙ ap (λ z. if m == i then some there else z) (get_elem?-set xs j m here h')

  pub get_elem?-swap :
      (i j m : ℕ) (xs : List A)
      → i < length xs
      → j < length xs
      → get_elem? (swap i j xs) m
        ≡ (if m == i then get_elem? xs j else if m == j then get_elem? xs i else get_elem? xs m)
  unfolding swap
  get_elem?-swap i j m xs h h' =
      let (here, e) = found xs i h in
      let (there, e') = found xs j h' in rw (e, e') (exchanged i j m xs here there h h')

  abbrev Mirrored : ℕ → List A → List A → Type 0
  Mirrored k xs ys =
      (m : ℕ) → m < length xs → get_elem? ys m ≡ get_elem? xs (mirror (length xs) k m)

  swap-Mirrored :
      (k j : ℕ) (xs ys : List A)
      → length ys ≡ length xs
      → j ≡ length xs - 1 - k
      → 2 * k + 1 ≤ length xs
      → Mirrored k xs ys
      → Mirrored (k + 1) xs (swap k j ys)
  swap-Mirrored k j xs ys e e' h mirrored m h' = ground (
    arith,
    get_elem?-swap k j m ys,
    mirrored k,
    mirrored j,
    mirrored m,
    mirror_step (length xs) k m,
  )

  rounds-Mirrored :
      (n k : ℕ) (xs ys : List A)
      → length ys ≡ length xs
      → 2 * (k + n) ≤ length xs + 1
      → Mirrored k xs ys
      → Mirrored (k + n) xs (reverse_from n k ys)
  unfolding reverse_from
  rounds-Mirrored zero k xs ys e h mirrored m h' =
      mirrored m h' ∙ ap (λ i. get_elem? xs (mirror (length xs) i m)) {x = k} (omega arith)
  rounds-Mirrored (suc n) k xs ys e h mirrored m h' =
      let j : ℕ = length ys - 1 - k in
      rounds-Mirrored n (k + 1) xs (swap k j ys) (length-swap k j ys ∙ e) (omega arith)
        (swap-Mirrored k j xs ys e (omega arith) (omega arith) mirrored) m h'
      ∙ ap (λ i. get_elem? xs (mirror (length xs) i m)) {x = k + 1 + n} {y = k + suc n}
          (omega arith)

  start-Mirrored : (xs : List A) → Mirrored 0 xs xs
  start-Mirrored xs m h = ap (get_elem? xs) {x = m} (ground arith)

  reverse_from-last :
      (n k : ℕ) (xs : List A)
      → reverse_from (suc n) k xs ≡ swap (k + n) (length xs - 1 - (k + n)) (reverse_from n k xs)
  unfolding reverse_from
  reverse_from-last zero k xs = ap (λ i. swap i (length xs - 1 - i) xs) {x = k} (omega arith)
  reverse_from-last (suc n) k xs =
      let ys : List A = swap k (length xs - 1 - k) xs in
      reverse_from-last n (k + 1) ys
      ∙ (ap (λ i. swap i (length ys - 1 - i) (reverse_from n (k + 1) ys)) {x = k + 1 + n}
            {y = k + suc n} (omega arith)
          ∙ ap (λ l. swap (k + suc n) (l - 1 - (k + suc n)) (reverse_from n (k + 1) ys))
              (length-swap k (length xs - 1 - k) xs))

  reverse_taps-rounds :
      (rounds : ℕ) (xs : List A)
      → length xs / 2 + 1 ≡ rounds
      → reverse_taps xs ≡ reverse_from rounds 0 xs
  unfolding reverse_taps
  reverse_taps-rounds rounds xs e = ap (λ n. reverse_from n 0 xs) e

  -- An odd number of taps is reversed: the loop puts every tap at the mirrored place.
  pub reverse_taps-odd :
      (half : ℕ) (xs : List A)
      → length xs ≡ 2 * half + 1
      → (length (reverse_taps xs) ≡ length xs)
        × ((m : ℕ)
            → m < length xs
            → get_elem? (reverse_taps xs) m ≡ get_elem? xs (length xs - 1 - m))
  reverse_taps-odd half xs e = rw (reverse_taps-rounds (half + 1) xs (omega arith)) (
    length-reverse_from (half + 1) 0 xs,
    λ m h.
        rounds-Mirrored (half + 1) 0 xs xs refl (omega arith) (start-Mirrored xs) m h
        ∙ ap (get_elem? xs) (ground arith),
  )

  swapped_back :
      (half i j m : ℕ) (xs ys : List A)
      → 0 < half
      → length xs ≡ 2 * half
      → i ≡ half
      → j ≡ half - 1
      → m < length xs
      → length ys ≡ length xs
      → Mirrored i xs ys
      → get_elem? (swap i j ys) m
        ≡ get_elem? xs (if m == half - 1 || m == half then m else length xs - 1 - m)
  swapped_back half i j m xs ys h e ei ej h' l mirrored =
      ground (arith, get_elem?-swap i j m ys, mirrored i, mirrored j, mirrored m)

  -- Of an even number of taps, at least two, all are mirrored but the two in the middle: they are
  -- swapped twice and keep their places.
  pub reverse_taps-even :
      (half : ℕ) (xs : List A)
      → 0 < half
      → length xs ≡ 2 * half
      → (m : ℕ) → m < length xs
      → get_elem? (reverse_taps xs) m
        ≡ get_elem? xs (if m == half - 1 || m == half then m else length xs - 1 - m)
  reverse_taps-even half xs h e m h' =
      rw (reverse_taps-rounds (suc half) xs (omega arith), reverse_from-last half 0 xs)
        (swapped_back half (0 + half) (length xs - 1 - (0 + half)) m xs (reverse_from half 0 xs) h e
          (omega arith) (omega arith) h' (length-reverse_from half 0 xs)
          (rounds-Mirrored half 0 xs xs refl (omega arith) (start-Mirrored xs)))

  pub length-reverse_taps : (xs : List A) → length (reverse_taps xs) ≡ length xs
  unfolding reverse_taps
  length-reverse_taps xs = length-reverse_from (length xs / 2 + 1) 0 xs
