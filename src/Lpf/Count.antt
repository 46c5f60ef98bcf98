-- ===== src/Lpf/Count.antt =====
-- src/lpf.c: how many taps come out, and when.
use sdr_server.Prelude.{
  ℕ, zero, suc, ◌+◌, ◌-◌, ◌*◌, ◌/◌, ◌≤◌, ◌<◌, ◌≡◌, ◌⊎◌, inl, inr, ◌&&◌, refl, ap, Bool, true, false,
  some, List, [], ◌∷◌, length, drop, get_elem?, map, length-map, length-drop, lt_or_ge, arith,
}
use sdr_server.Prelude.Int.{ℤ, pos, sub_ℕ}
use sdr_server.Lpf.{
  Floats, Grants, refused, made, failure, enomem, sanity_check_1f, compute_ntaps, window_from,
  create_hamming_window, tap, taps_from, fmax_from, normalized, fill_taps, create_low_pass_filter,
}

module _ (f : Floats) where
  open f use {Float}

  compute_ntaps-odd : (s t : ℕ) → compute_ntaps f s t ≡ 2 * ((compute_ntaps f s t - 1) / 2) + 1
  unfolding compute_ntaps
  compute_ntaps-odd s t = ground arith

  length-window_from : (rounds n m : ℕ) → length (window_from f rounds n m) ≡ rounds
  unfolding window_from
  length-window_from zero n m = refl
  length-window_from (suc rounds) n m = ap suc (length-window_from rounds (n + 1) m)

  -- The loops stay inside the arrays.
  taps_from-made :
      (c s middle rounds index : ℕ) (w : List Float)
      → rounds ≤ length w
      → (taps : List Float) × (taps_from f c s middle rounds index w ≡ some taps)
        × (length taps ≡ rounds)
  unfolding taps_from
  taps_from-made c s middle zero index w h = ([], refl, refl)
  taps_from-made c s middle (suc rounds) index [] h = elim h [ ]
  taps_from-made c s middle (suc rounds) index (x ∷ w) h =
      let (taps, e, l) = taps_from-made c s middle rounds (index + 1) w (omega arith) in
      (tap f c s (sub_ℕ index middle) x ∷ taps, rw e refl, ap suc l)

  fmax_from-made :
      (rounds : ℕ) (fmax : Float) (taps : List Float)
      → rounds ≤ length taps
      → (v : Float) × (fmax_from f rounds fmax taps ≡ some v)
  unfolding fmax_from
  fmax_from-made zero fmax taps h = (fmax, refl)
  fmax_from-made (suc rounds) fmax [] h = elim h [ ]
  fmax_from-made (suc rounds) fmax (x ∷ taps) h =
      fmax_from-made rounds (f.add_twice fmax x) taps (omega arith)

  found : (taps : List Float) (i : ℕ) → i < length taps → (x : Float) × (get_elem? taps i ≡ some x)
  found [] i h = elim h [ ]
  found (x ∷ taps) zero h = (x, refl)
  found (x ∷ taps) (suc i) h = found taps i (omega arith)

  normalized-made :
      (gain : Float) (middle : ℕ) (taps : List Float)
      → 2 * middle + 1 ≤ length taps
      → (scaled : List Float) × (normalized f gain middle taps ≡ some scaled)
        × (length scaled ≡ length taps)
  unfolding normalized
  normalized-made gain middle taps h =
      let (center, e) = found taps middle (omega arith) in
      let (fmax, e') =
        fmax_from-made middle center (drop (middle + 1) taps)
          (omega (arith, length-drop (middle + 1) taps)) in
      (
        map (λ x. f.scale x (f.divide gain fmax)) taps,
        rw (e, e') refl,
        length-map taps (λ x. f.scale x (f.divide gain fmax)),
      )

  fill_taps-made :
      (gain : Float) (s c ntaps : ℕ) (w : List Float)
      → ntaps ≡ 2 * ((ntaps - 1) / 2) + 1
      → length w ≡ ntaps
      → (taps : List Float) × (fill_taps f gain s c ntaps w ≡ made taps ntaps)
        × (length taps ≡ ntaps)
  unfolding fill_taps
  fill_taps-made gain s c ntaps w odd l =
      let middle : ℕ = (ntaps - 1) / 2 in
      let (taps, e, l') = taps_from-made c s middle (2 * middle + 1) 0 w (omega arith) in
      let (scaled, e', l'') = normalized-made gain middle taps (omega arith) in
      (scaled, rw (e, e') refl, omega arith)

  -- The arguments that are accepted: a rate and a width that are not zero, and a cutoff between
  -- zero and half the rate, as floats.
  abbrev pub Sane : ℕ → ℕ → ℕ → Type 0
  Sane s c t = (0 < s) × (0 < c) × (2 * f.to_float c ≤ f.to_float s) × (0 < t)

  pub sanity_check_1f-Sane : (s c t : ℕ) → Sane s c t → sanity_check_1f f s c t ≡ pos 0
  unfolding sanity_check_1f
  sanity_check_1f-Sane s c t h = ground arith

  sanity_check_1f-refuses : (s c t : ℕ) → sanity_check_1f f s c t ≡ pos 0 → Sane s c t
  unfolding sanity_check_1f
  sanity_check_1f-refuses s c t h = ground arith

  -- With memory and sane arguments an odd number of taps comes out, which is the number reported.
  pub create_low_pass_filter-odd :
      (gain : Float) (s c t : ℕ)
      → Sane s c t
      → (taps : List Float) × (half : ℕ) × (create_low_pass_filter f gain s c t
            (record { gives_taps = true; gives_window = true })
          ≡ made taps (compute_ntaps f s t))
        × (length taps ≡ compute_ntaps f s t)
        × (compute_ntaps f s t ≡ 2 * half + 1)
  unfolding create_low_pass_filter create_hamming_window
  create_low_pass_filter-odd gain s c t h =
      let n : ℕ = compute_ntaps f s t in
      let (taps, e, l) =
        fill_taps-made gain s c n (window_from f n 0 (n - 1)) (compute_ntaps-odd s t)
          (length-window_from n 0 (n - 1)) in
      (taps, (n - 1) / 2, rw (sanity_check_1f-Sane s c t h, e) refl, l, compute_ntaps-odd s t)

  sanity_check_1f-cases :
      (s c t : ℕ)
      → ((sanity_check_1f f s c t ≡ pos 0) × Sane s c t)
        ⊎ ((sanity_check_1f f s c t ≡ failure) × ¬ Sane s c t)
  unfolding sanity_check_1f
  sanity_check_1f-cases s c t = elim (lt_or_ge 0 s) [
    | inr no_rate ↦ inr (ground arith, λ h. omega arith)
    | inl rate ↦ elim (lt_or_ge 0 c) [
      | inr no_cutoff ↦ inr (ground arith, λ h. omega arith)
      | inl cutoff ↦ elim (lt_or_ge (f.to_float s) (2 * f.to_float c)) [
        | inl beyond ↦ inr (ground arith, λ h. omega arith)
        | inr within ↦ elim (lt_or_ge 0 t) [
          | inr no_width ↦ inr (ground arith, λ h. omega arith)
          | inl width ↦ inl (ground arith, (rate, cutoff, within, width))
        ]
      ]
    ]
  ]

  refused_by_check :
      (gain : Float) (s c t : ℕ) (g : Grants) (code : ℤ) (freed : Bool)
      → create_low_pass_filter f gain s c t g ≡ refused code freed
      → sanity_check_1f f s c t ≡ failure
      → ¬ Sane s c t
      → ¬ Sane s c t × (code ≡ failure) × (freed ≡ false)
  unfolding create_low_pass_filter
  refused_by_check gain s c t g code freed e bad not_sane = (not_sane, ground arith, ground arith)

  refused_by_memory :
      (gain : Float) (s c t : ℕ) (g : Grants) (code : ℤ) (freed : Bool)
      → create_low_pass_filter f gain s c t g ≡ refused code freed
      → sanity_check_1f f s c t ≡ pos 0
      → Sane s c t
      → Sane s c t
        × (code ≡ enomem)
        × (freed ≡ g.gives_taps)
        × ((g.gives_taps && g.gives_window) ≡ false)
  unfolding create_low_pass_filter create_hamming_window
  refused_by_memory gain s c t g code freed e good sane =
      let made : (taps : List Float) × (half : ℕ) × (create_low_pass_filter f gain s c t
              (record { gives_taps = true; gives_window = true })
            ≡ made taps (compute_ntaps f s t))
          × (length taps ≡ compute_ntaps f s t)
          × (compute_ntaps f s t ≡ 2 * half + 1) =
        create_low_pass_filter-odd gain s c t sane in
      (sane, ground arith, ground arith, ground arith)

  -- The low pass is refused for arguments that are not sane, with nothing allocated, or, with sane
  -- ones, because an allocation has failed, and then the taps are freed exactly if they had been
  -- allocated.
  create_low_pass_filter-refused :
      (gain : Float) (s c t : ℕ) (g : Grants) (code : ℤ) (freed : Bool)
      → create_low_pass_filter f gain s c t g ≡ refused code freed
      → (¬ Sane s c t × (code ≡ failure) × (freed ≡ false))
        ⊎ (Sane s c t
            × (code ≡ enomem)
            × (freed ≡ g.gives_taps)
            × ((g.gives_taps && g.gives_window) ≡ false))
  unfolding create_low_pass_filter create_hamming_window
  create_low_pass_filter-refused gain s c t g code freed e = elim (sanity_check_1f-cases s c t) [
    | inr (bad, not_sane) ↦ inl (refused_by_check gain s c t g code freed e bad not_sane)
    | inl (good, sane) ↦ inr (refused_by_memory gain s c t g code freed e good sane)
  ]
