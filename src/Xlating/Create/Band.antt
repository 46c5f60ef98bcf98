-- ===== src/Xlating/Create/Band.antt =====
-- src/xlating.c, create_frequency_xlating_filter: the taps of the band pass, tap by tap.
use sdr_server.Prelude.{
  ℕ, zero, suc, ◌+◌, ◌-◌, ◌*◌, ◌<◌, ◌≡◌, ◌∙◌, refl, sym, ap, some, List, [], ◌∷◌, length, get_elem?,
  map, arith,
}
use sdr_server.Lpf.Shape.{indices, length-map-indices, get_elem?-map-indices}
use sdr_server.Xlating.Taps.{Complex}
use sdr_server.Xlating.Reverse.{reverse_taps, reverse_taps-odd}
use sdr_server.Xlating.Create.{Tuning, moved_from, bpf}

-- Lists of one length with the same elements.
same_elements :
    {A : Type 0} (xs ys : List A)
    → length xs ≡ length ys
    → ((i : ℕ) → i < length xs → get_elem? xs i ≡ get_elem? ys i)
    → xs ≡ ys
same_elements {A = A} [] [] l e = refl
same_elements {A = A} [] (y ∷ ys) l e = absurd (omega (arith, l))
same_elements {A = A} (x ∷ xs) [] l e = absurd (omega (arith, l))
same_elements {A = A} (x ∷ xs) (y ∷ ys) l e =
    cons (e 0 (omega arith))
      (same_elements xs ys (omega (arith, l)) (λ i h. e (suc i) (omega (arith, h))))
  where
    cons : some x ≡ some y → xs ≡ ys → ◌≡◌ {A = List A} (x ∷ xs) (y ∷ ys)
    cons p q = cc

module _ {Tap : Type 0} (c : Complex) (tuning : Tuning Tap c) where
  open c use {Sample}

  moved_from-map :
      (g : ℕ → Tap) (first count : ℕ)
      → moved_from c tuning first (map g (indices first count))
        ≡ map (λ i. tuning.moved i (g i)) (indices first count)
  unfolding moved_from
  moved_from-map g first zero = refl
  moved_from-map g first (suc count) = ap (◌∷◌ (tuning.moved first (g first))) (
      ap (λ n. moved_from c tuning n (map g (indices (suc first) count))) {x = first + 1}
        {y = suc first} (omega arith)
      ∙ moved_from-map g (suc first) count)

  -- The taps of the band pass: each low pass tap is moved by its own index, and the last comes
  -- first.
  abbrev pub band_taps : (half : ℕ) → (ℕ → Tap) → List Sample
  band_taps half g =
      map (λ j. tuning.moved (2 * half - j) (g (2 * half - j))) (indices 0 (2 * half + 1))

  pub bpf-band :
      (half : ℕ) (g : ℕ → Tap) → bpf c tuning (map g (indices 0 (2 * half + 1))) ≡ band_taps half g
  unfolding bpf
  bpf-band half g =
      let n : ℕ = 2 * half + 1 in
      let k : ℕ → Sample = λ i. tuning.moved i (g i) in
      let ms : List Sample = map k (indices 0 n) in
      let l : length ms ≡ n = length-map-indices k 0 n in
      let (l', at) = reverse_taps-odd half ms l in
      ap reverse_taps (moved_from-map g 0 n)
      ∙ same_elements (reverse_taps ms) (band_taps half g)
          (l' ∙ l ∙ sym (length-map-indices (λ j. k (2 * half - j)) 0 n))
          (λ i h.
            at i (omega (arith, h, l'))
            ∙ get_elem?-map-indices k 0 (2 * half + 1) (length ms - 1 - i) (omega (arith, h, l', l))
            ∙ ap (λ m. some (k m)) {x = 0 + (length ms - 1 - i)} {y = 2 * half - (0 + i)}
                (omega (arith, l))
            ∙ sym (
                get_elem?-map-indices (λ j. k (2 * half - j)) 0 (2 * half + 1) i
                  (omega (arith, h, l', l))))
