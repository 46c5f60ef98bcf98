-- ===== src/Xlating/Cs16/Stream.antt =====
-- src/xlating.c, process_native_cs16 against the plain filter on the stream. The position of a
-- sample in the `int16_t` buffer is always aligned, so the first copy of the taps is the one read.
use mathlib.Core.Path.{fun_ext}
use sdr_server.Prelude.{
  if◌then◌else◌, ◌∙◌, ℕ, ◌+◌, ◌-◌, ◌≤◌, ◌≡◌, refl, sym, ap, subst, some, List, [], ◌∷◌, ◌++◌,
  length, take, drop, get_elem?, length-drop, All, arith,
}
use sdr_server.Prelude.Int.{ℤ, pos, negsuc, ltb_ℤ, ◌+ℤ◌, ◌-ℤ◌, ◌*ℤ◌}
use sdr_server.Xlating.{Kernel, Xlating}
use sdr_server.Xlating.Cs16.{
  Pair, shr15, to_i32, saturate_to_int16, scaled, scaled_product, dot, align_index, cleared,
  native_cs16, FilterCs16, IsInt16Pair, scaled_product-IsInt16Pair,
}
use sdr_server.Xlating.Refine.{history, IsReady, expected}
use sdr_server.Xlating.Loop.{Reads}
use sdr_server.Xlating.Reference.{Outcome, reference}
use sdr_server.Xlating.Stream.{feed_all, feed_all-run, joined, expected-All}

-- The taps as they lie in memory.
abbrev pub flat : List Pair → List ℤ
flat [] = []
flat (t ∷ ts) = t.re ∷ t.im ∷ flat ts

unfoldable pub convolve : Pair → List Pair → List Pair → Pair
convolve temp [] ts = temp
convolve temp (a ∷ xs) [] = temp
convolve temp (a ∷ xs) (b ∷ ts) =
    convolve
      (record {
        re = temp.re +ℤ to_i32 (a.re *ℤ b.re -ℤ a.im *ℤ b.im);
        im = temp.im +ℤ to_i32 (a.re *ℤ b.im +ℤ a.im *ℤ b.re);
      })
      xs ts

abbrev pub window_cs16 : List Pair → List Pair → Pair → Pair
window_cs16 taps xs phase =
    let temp = convolve cleared xs taps in
    scaled_product (record { re = scaled temp.re; im = scaled temp.im }) phase

dot-convolve :
    (temp : Pair) (xs ts : List Pair) (more : List ℤ)
    → length ts ≤ length xs
    → dot (length ts) temp xs (flat ts ++ more) ≡ some (convolve temp (take (length ts) xs) ts)
unfolding dot convolve
dot-convolve temp xs [] more h = refl
dot-convolve temp [] (t ∷ ts) more h = elim h [ ]
dot-convolve temp (x ∷ xs) (t ∷ ts) more h =
    dot-convolve
      (record {
        re = temp.re +ℤ to_i32 (x.re *ℤ t.re -ℤ x.im *ℤ t.im);
        im = temp.im +ℤ to_i32 (x.re *ℤ t.im +ℤ x.im *ℤ t.re);
      })
      xs ts more (omega arith)

align_index-zero : (i : ℕ) → align_index i ≡ 0
unfolding align_index
align_index-zero i = omega arith

-- A filter for inputs of up to `max_input` samples, whose first copy of the taps is `taps`.
pub record IsMade (max_input : ℕ) (taps : List Pair) (f : FilterCs16) : Type 0 where
  pub more : List ℤ
  pub copy : get_elem? f.taps_cs16 0 ≡ some (flat taps ++ more)
  pub size : f.state.taps_len ≡ length taps
  pub ready : IsReady max_input f.state

abbrev pub kernel : FilterCs16 → Kernel Pair Pair Pair
kernel f = native_cs16 f.taps_cs16 f.state.taps_len f.phase_incr

native_cs16-Reads :
    (rows : List (List ℤ)) (taps : List Pair) (more : List ℤ) (phase_incr : Pair)
    → get_elem? rows 0 ≡ some (flat taps ++ more)
    → Reads (native_cs16 rows (length taps) phase_incr) (length taps) (window_cs16 taps)
unfolding native_cs16
native_cs16-Reads rows taps more phase_incr e buf i phase h =
    rw
      (
        align_index-zero i,
        e,
        ap (λ n. dot n cleared (drop (i - 0) buf) (flat taps ++ more)) {x = length taps + 0}
            {y = length taps} (omega arith),
        ap (λ j. dot (length taps) cleared (drop j buf) (flat taps ++ more)) {x = i - 0} {y = i}
            (omega arith),
        dot-convolve cleared (drop i buf) taps more (omega (arith, length-drop i buf)),
      )
      refl

made-Reads :
    (max_input : ℕ) (taps : List Pair) (f : FilterCs16)
    → IsMade max_input taps f
    → Reads (kernel f) f.state.taps_len (window_cs16 taps)
made-Reads max_input taps f made =
    subst (λ n. Reads (native_cs16 f.taps_cs16 n f.phase_incr) n (window_cs16 taps)) (sym made.size)
      (native_cs16-Reads f.taps_cs16 taps made.more f.phase_incr made.copy)

-- A number in units of 2 ^ -15, rounded down to units of one, in 32 bits, and clamped to 16.
abbrev pub q15 : ℤ → ℤ
q15 z =
    let y = to_i32 (shr15 z) in
    if ltb_ℤ y (negsuc 32767) then negsuc 32767 else if ltb_ℤ (pos 32767) y then pos 32767 else y

-- (a + b i) (c + d i) = (a c - b d) + (a d + b c) i
abbrev pub q15_product : (a b c d : ℤ) → Pair
q15_product a b c d = record {
  re = q15 (to_i32 (a *ℤ c -ℤ b *ℤ d));
  im = q15 (to_i32 (a *ℤ d +ℤ b *ℤ c));
}

abbrev pub plain_window : List Pair → List Pair → Pair → Pair
plain_window taps xs phase =
    let sum = convolve cleared xs taps in q15_product (q15 sum.re) (q15 sum.im) phase.re phase.im

-- The plain filter on a stream, with the phase turned by the same step after every window.
abbrev pub plain_stream : List Pair → FilterCs16 → List Pair → Outcome Pair Pair Pair
plain_stream taps f xs =
    reference (plain_window taps) (λ p. q15_product p.re p.im f.phase_incr.re f.phase_incr.im)
      (length taps) f.state.decimation xs f.state.phase

scaled-q15 : (z : ℤ) → scaled z ≡ q15 z
unfolding scaled saturate_to_int16
scaled-q15 z = clamped (to_i32 (shr15 z))
  where
    clamped :
        (y : ℤ)
        → saturate_to_int16 y ≡ (
            if ltb_ℤ y (negsuc 32767)
            then negsuc 32767
            else if ltb_ℤ (pos 32767) y
            then pos 32767
            else y)
    clamped y = ground arith

scaled_product-q15 : (x y : Pair) → scaled_product x y ≡ q15_product x.re x.im y.re y.im
unfolding scaled_product
scaled_product-q15 x y =
    pair_eq (scaled-q15 (to_i32 (x.re *ℤ y.re -ℤ x.im *ℤ y.im)))
      (scaled-q15 (to_i32 (x.re *ℤ y.im +ℤ x.im *ℤ y.re)))
  where
    pair_eq :
        {a b c d : ℤ}
        → a ≡ b
        → c ≡ d
        → ◌≡◌ {A = Pair} (record { re = a; im = c }) (record { re = b; im = d })
    pair_eq e f = rw (e, f) refl

window-plain : (taps : List Pair) → window_cs16 taps ≡ plain_window taps
window-plain taps = fun_ext (λ xs. fun_ext (λ phase.
    scaled_product-q15 _ phase
    ∙ rw (scaled-q15 (convolve cleared xs taps).re, scaled-q15 (convolve cleared xs taps).im) refl))

expected-plain :
    (max_input : ℕ) (taps : List Pair) (f : FilterCs16) (xs : List Pair)
    → IsMade max_input taps f
    → expected (kernel f) (window_cs16 taps) f.state xs ≡ plain_stream taps f xs
unfolding native_cs16
expected-plain max_input taps f xs made =
    ap
      (λ w.
        reference w (λ p. scaled_product p f.phase_incr) f.state.taps_len f.state.decimation xs
          f.state.phase)
      (window-plain taps)
    ∙ (ap
          (λ t.
            reference (plain_window taps) t f.state.taps_len f.state.decimation xs f.state.phase)
          (fun_ext (λ p. scaled_product-q15 p f.phase_incr))
        ∙ ap
            (λ n.
              reference (plain_window taps)
                (λ p. q15_product p.re p.im f.phase_incr.re f.phase_incr.im) n f.state.decimation xs
                f.state.phase)
            made.size)

-- However a stream is cut into buffers that the filter is made for, the calls finish without a
-- fault and put out the samples of the plain filter on the whole stream behind the history, where a
-- window's sum and every product with the phase are rounded down, and clamped to 16 bits; every one of them is in the range of an `int16_t`.
pub process_native_cs16-Stream :
    (max_input : ℕ) (taps : List Pair) (f : FilterCs16) (xss : List (List Pair))
    → IsMade max_input taps f
    → All (λ xs. length xs ≤ max_input) xss
    → let ys = (plain_stream taps f (history f.state ++ joined xss)).outputs in
      (s : Xlating Pair Pair) × (feed_all (kernel f) xss f.state ≡ some (ys, s))
      × IsReady max_input s
      × All IsInt16Pair ys
process_native_cs16-Stream max_input taps f xss made fits =
    let (s, runs, ready) =
      feed_all-run (kernel f) (window_cs16 taps) (unfold native_cs16 in λ p. refl) f.state xss
        max_input (made-Reads max_input taps f made) made.ready fits in
    let e = expected-plain max_input taps f (history f.state ++ joined xss) made in
    (
      s,
      runs ∙ ap (λ r. some (r.outputs, s)) e,
      ready,
      subst (λ r. All IsInt16Pair r.outputs) e
          (expected-All (kernel f) (window_cs16 taps) IsInt16Pair
            (λ xs p.
              scaled_product-IsInt16Pair
                (record {
                  re = scaled (convolve cleared xs taps).re;
                  im = scaled (convolve cleared xs taps).im;
                })
                p)
            f.state (history f.state ++ joined xss)),
    )
