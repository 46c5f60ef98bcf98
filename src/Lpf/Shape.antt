-- ===== src/Lpf/Shape.antt =====
-- src/lpf.c: which taps come out, tap by tap.
use sdr_server.Prelude.{
  ℕ, zero, suc, ◌+◌, ◌-◌, ◌*◌, ◌/◌, ◌≤◌, ◌<◌, ◌≡◌, ◌==◌, ◌∙◌, refl, ap, true, some, List, [], ◌∷◌,
  if◌then◌else◌, length, drop, get_elem?, map, arith,
}
use sdr_server.Prelude.Int.{pos, sub_ℕ, eqb_ℤ}
use sdr_server.Lpf.{
  Floats, made, compute_ntaps, window_from, create_hamming_window, tap, taps_from, fmax_from,
  normalized, fill_taps, create_low_pass_filter,
}
use sdr_server.Lpf.Count.{Sane, sanity_check_1f-Sane}

-- So many numbers from a first one on.
abbrev pub indices : (first count : ℕ) → List ℕ
indices first zero = []
indices first (suc count) = first ∷ indices (suc first) count

pub length-map-indices :
    {B : Type 0} (g : ℕ → B) (first count : ℕ) → length (map g (indices first count)) ≡ count
length-map-indices g first zero = refl
length-map-indices g first (suc count) = ap suc (length-map-indices g (suc first) count)

pub get_elem?-map-indices :
    {B : Type 0} (g : ℕ → B) (first count i : ℕ)
    → i < count
    → get_elem? (map g (indices first count)) i ≡ some (g (first + i))
get_elem?-map-indices g first zero i h = elim h [ ]
get_elem?-map-indices g first (suc count) zero h = ap (λ n. some (g n)) {x = first} (omega arith)
get_elem?-map-indices g first (suc count) (suc i) h =
    get_elem?-map-indices g (suc first) count i (omega arith)
    ∙ ap (λ n. some (g n)) {x = suc first + i} {y = first + suc i} (omega arith)

same_range :
    {B : Type 0} (g : ℕ → B) {a a' n n' : ℕ}
    → a ≡ a'
    → n ≡ n'
    → map g (indices a n) ≡ map g (indices a' n')
same_range g e e' = λ i. map g (indices (e i) (e' i))

drop-map-indices :
    {B : Type 0} (g : ℕ → B) (k first count : ℕ)
    → k ≤ count
    → drop k (map g (indices first count)) ≡ map g (indices (first + k) (count - k))
drop-map-indices g zero first count h = same_range g (omega arith) (omega arith)
drop-map-indices g (suc k) first zero h = elim h [ ]
drop-map-indices g (suc k) first (suc count) h =
    drop-map-indices g k (suc first) count (omega arith) ∙ same_range g (omega arith) (omega arith)

map-map :
    {A B C : Type 0} (g : B → C) (h : A → B) (xs : List A)
    → map g (map h xs) ≡ map (λ x. g (h x)) xs
map-map g h [] = refl
map-map g h (x ∷ xs) = ap (◌∷◌ (g (h x))) (map-map g h xs)

module _ (f : Floats) where
  open f use {Float}

  -- Twice the values, added one after the other.
  abbrev pub add_twice_all : Float → List Float → Float
  add_twice_all sum [] = sum
  add_twice_all sum (x ∷ xs) = add_twice_all (f.add_twice sum x) xs

  -- A tap before the gain, by its index: the windowed sinc around the tap in the middle.
  abbrev pub windowed_sinc : (sampling_freq cutoff_freq half i : ℕ) → Float
  windowed_sinc s c half i =
      if i == half
      then f.middle_tap c s (f.hamming i (2 * half))
      else f.side_tap c s (sub_ℕ i half) (f.hamming i (2 * half))

  -- The gain at the frequency zero: the middle and twice the taps behind it.
  abbrev pub total_gain : (sampling_freq cutoff_freq half : ℕ) → Float
  total_gain s c half =
      add_twice_all (windowed_sinc s c half half)
        (map (windowed_sinc s c half) (indices (half + 1) half))

  abbrev pub low_pass_tap : Float → (sampling_freq cutoff_freq half i : ℕ) → Float
  low_pass_tap gain s c half i =
      f.scale (windowed_sinc s c half i) (f.divide gain (total_gain s c half))

  taps_from-map :
      (c s half : ℕ) (rounds index : ℕ)
      → taps_from f c s half rounds index (window_from f rounds index (2 * half))
        ≡ some (map (windowed_sinc s c half) (indices index rounds))
  unfolding taps_from window_from tap
  taps_from-map c s half zero index = refl
  taps_from-map c s half (suc rounds) index =
      rw (taps_from-map c s half rounds (index + 1), middle_index index half)
        (ap
          (λ n.
            some (windowed_sinc s c half index ∷ map (windowed_sinc s c half) (indices n rounds)))
          {x = index + 1} {y = suc index} (omega arith))
    where
      middle_index : (i h : ℕ) → eqb_ℤ (sub_ℕ i h) (pos 0) ≡ (i == h)
      middle_index i h = ground arith

  fmax_from-sum :
      (xs : List Float) (n : ℕ) (sum : Float)
      → length xs ≡ n
      → fmax_from f n sum xs ≡ some (add_twice_all sum xs)
  unfolding fmax_from
  fmax_from-sum [] zero sum h = refl
  fmax_from-sum [] (suc n) sum h = absurd (omega arith)
  fmax_from-sum (x ∷ xs) zero sum h = absurd (omega arith)
  fmax_from-sum (x ∷ xs) (suc n) sum h = fmax_from-sum xs n (f.add_twice sum x) (omega arith)

  normalized-map :
      (gain : Float) (s c half : ℕ)
      → normalized f gain half (map (windowed_sinc s c half) (indices 0 (2 * half + 1)))
        ≡ some (map (low_pass_tap gain s c half) (indices 0 (2 * half + 1)))
  unfolding normalized
  normalized-map gain s c half =
      let g : ℕ → Float = windowed_sinc s c half in
      rw
        (
          get_elem?-map-indices g 0 (2 * half + 1) half (omega arith),
          drop-map-indices g (half + 1) 0 (2 * half + 1) (omega arith),
          from_zero half,
          from_zero (half + 1),
          behind half,
          fmax_from-sum (map g (indices (half + 1) half)) half (g half)
              (length-map-indices g (half + 1) half),
        )
        (ap some (
          map-map (λ x. f.scale x (f.divide gain (total_gain s c half))) g
            (indices 0 (2 * half + 1))))
    where
      from_zero : (h : ℕ) → 0 + h ≡ h
      from_zero h = omega arith

      behind : (h : ℕ) → 2 * h + 1 - (h + 1) ≡ h
      behind h = omega arith

  fill_taps-made :
      (gain : Float) (s c half ntaps : ℕ)
      → ntaps ≡ 2 * half + 1
      → fill_taps f gain s c ntaps (window_from f ntaps 0 (ntaps - 1))
        ≡ made (map (low_pass_tap gain s c half) (indices 0 (2 * half + 1))) ntaps
  unfolding fill_taps
  fill_taps-made gain s c half ntaps e =
      rw
        (
          e,
          back half,
          middle half,
          taps_from-map c s half (2 * half + 1) 0,
          normalized-map gain s c half,
        )
        refl
    where
      back : (h : ℕ) → 2 * h + 1 - 1 ≡ 2 * h
      back h = omega arith

      middle : (h : ℕ) → 2 * h / 2 ≡ h
      middle h = omega arith

  pub compute_ntaps-half : (s t : ℕ) → compute_ntaps f s t ≡ 2 * (f.quotient s t / 2) + 1
  unfolding compute_ntaps
  compute_ntaps-half s t = ground arith

  -- With memory and sane arguments the taps are the normalized windowed sinc, and as many as the
  -- odd number at the quotient or behind it.
  pub create_low_pass_filter-made :
      (gain : Float) (s c t : ℕ)
      → Sane f s c t
      → let half = f.quotient s t / 2 in
        create_low_pass_filter f gain s c t (record { gives_taps = true; gives_window = true })
        ≡ made (map (low_pass_tap gain s c half) (indices 0 (2 * half + 1))) (2 * half + 1)
  unfolding create_low_pass_filter create_hamming_window
  create_low_pass_filter-made gain s c t h =
      rw
        (
          sanity_check_1f-Sane f s c t h,
          fill_taps-made gain s c (f.quotient s t / 2) (compute_ntaps f s t)
              (compute_ntaps-half s t),
        )
        (ap
          (made (
            map (low_pass_tap gain s c (f.quotient s t / 2))
              (indices 0 (2 * (f.quotient s t / 2) + 1))))
          (compute_ntaps-half s t))
