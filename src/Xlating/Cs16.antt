-- ===== src/Xlating/Cs16.antt =====
-- src/xlating.c, process_native_cs16 and its entry points: the same filter on `int16_t`, with
-- fixed-point products, saturation and a phase that is not renormalised.
pub mod Stream
use sdr_server.Prelude.{
  ◌>>=◌, ℕ, zero, suc, ◌+◌, ◌-◌, ◌*◌, ◌/◌, ◌%◌, ◌^◌, ◌≤◌, ◌<◌, ◌≡◌, refl, sym, ap, subst, ◌∙◌, Bool,
  true, false, Option, none, some, List, [], ◌∷◌, ◌++◌, ltb, if◌then◌else◌, length, take, drop,
  get_elem?, All, arith,
}
use sdr_server.Prelude.Int.{ℤ, pos, negsuc, ◌+ℤ◌, ◌-ℤ◌, ◌*ℤ◌, ◌≤ℤ◌, ltb_ℤ}
use sdr_server.Xlating.{Kernel, Xlating, feed}
use sdr_server.Xlating.Input.{pairs, shifted_cu8, q15_cs8, q15_cs16, IsInt16, length-pairs}

-- Two neighbours of an `int16_t` buffer: the real and the imaginary part.
pub record Pair : Type 0 where
  pub re : ℤ
  pub im : ℤ

-- `>> 15`, which rounds down.
abbrev pub shr15 : ℤ → ℤ
shr15 (pos n) = pos (n / 2 ^ 15)
shr15 (negsuc n) = negsuc (n / 2 ^ 15)

-- An `int64_t` as an argument of type `int32_t`.
abbrev pub to_i32 : ℤ → ℤ
to_i32 (pos n) =
    if ltb (n % 2 ^ 32) (2 ^ 31) then pos (n % 2 ^ 32) else negsuc (2 ^ 32 - 1 - n % 2 ^ 32)
to_i32 (negsuc n) =
    if ltb (n % 2 ^ 32) (2 ^ 31) then negsuc (n % 2 ^ 32) else pos (2 ^ 32 - 1 - n % 2 ^ 32)

unfoldable pub saturate_to_int16 : ℤ → ℤ
saturate_to_int16 value =
    let result = if ltb_ℤ (pos 32767) value then pos 32767 else value in
    if ltb_ℤ result (negsuc 32767) then negsuc 32767 else result

-- A sum of products scaled back to `int16_t`.
unfoldable pub scaled : ℤ → ℤ
unfolding saturate_to_int16
scaled z = saturate_to_int16 (to_i32 (shr15 z))

-- The product of two complex numbers, scaled. Its sums are `int`s, which wrap.
unfoldable pub scaled_product : Pair → Pair → Pair
unfolding scaled ◌+ℤ◌ ◌-ℤ◌ ◌*ℤ◌
scaled_product a b = record {
  re = scaled (to_i32 (a.re *ℤ b.re -ℤ a.im *ℤ b.im));
  im = scaled (to_i32 (a.re *ℤ b.im +ℤ a.im *ℤ b.re));
}

-- `for (i = 0; i < 2 * n; i += 2)`, over samples and over the `int16_t` of the taps. The
-- products are summed as `int32_t`, which wraps, before they are added to an `int64_t`.
unfoldable pub dot : ℕ → Pair → List Pair → List ℤ → Option Pair
unfolding ◌+ℤ◌ ◌-ℤ◌ ◌*ℤ◌
dot zero temp xs ts = some temp
dot (suc n) temp (a ∷ xs) (br ∷ bi ∷ ts) =
    dot n
      (record {
        re = temp.re +ℤ to_i32 (a.re *ℤ br -ℤ a.im *ℤ bi);
        im = temp.im +ℤ to_i32 (a.re *ℤ bi +ℤ a.im *ℤ br);
      })
      xs ts
dot (suc n) temp xs ts = none

abbrev pub alignment_cs16 : ℕ
alignment_cs16 = 4

-- `buf - aligned_buffer` in `int16_t`, for the sample at an index.
unfoldable pub align_index : ℕ → ℕ
align_index current_sample = 4 * current_sample % alignment_cs16 / 2

abbrev pub cleared : Pair
cleared = record { re = pos 0; im = pos 0 }

unfoldable pub native_cs16 : List (List ℤ) → ℕ → Pair → Kernel Pair Pair Pair
unfolding dot align_index scaled scaled_product
native_cs16 taps_cs16 taps_len phase_incr = record {
  output_at = λ buf i phase. get_elem? taps_cs16 (align_index i) >>= λ taps.
      dot (taps_len + align_index i) cleared (drop (i - align_index i) buf) taps >>= λ temp.
      some (scaled_product (record { re = scaled temp.re; im = scaled temp.im }) phase);
  turn = λ phase. scaled_product phase phase_incr;
  renormalise = λ phase. phase;
}

-- The part of `xlating_t` for `int16_t`.
pub record FilterCs16 : Type 0 where
  pub taps_cs16 : List (List ℤ)
  pub phase_incr : Pair
  pub state : Xlating Pair Pair

abbrev pub pair : ℤ → ℤ → Pair
pair re im = record { re = re; im = im }

unfoldable pub process_native_cs16 : List Pair → FilterCs16 → Option (List Pair × FilterCs16)
process_native_cs16 input filter =
    feed (native_cs16 filter.taps_cs16 filter.state.taps_len filter.phase_incr) input filter.state
    >>= λ (output, state). some (output, record filter { state = state })

unfoldable pub process_native_cu8_cs16 : List ℕ → FilterCs16 → Option (List Pair × FilterCs16)
process_native_cu8_cs16 input = process_native_cs16 (pairs shifted_cu8 pair input)

unfoldable pub process_native_cs8_cs16 : List ℕ → FilterCs16 → Option (List Pair × FilterCs16)
process_native_cs8_cs16 input = process_native_cs16 (pairs q15_cs8 pair input)

unfoldable pub process_native_cs16_cs16 : List ℕ → FilterCs16 → Option (List Pair × FilterCs16)
process_native_cs16_cs16 input = process_native_cs16 (pairs q15_cs16 pair input)

unfoldable pub process_optimized_cu8_cs16 : List ℕ → FilterCs16 → Option (List Pair × FilterCs16)
process_optimized_cu8_cs16 = process_native_cu8_cs16

unfoldable pub process_optimized_cs8_cs16 : List ℕ → FilterCs16 → Option (List Pair × FilterCs16)
process_optimized_cs8_cs16 = process_native_cs8_cs16

unfoldable pub process_optimized_cs16_cs16 : List ℕ → FilterCs16 → Option (List Pair × FilterCs16)
process_optimized_cs16_cs16 = process_native_cs16_cs16

abbrev pub IsInt16Pair : Pair → Type 0
IsInt16Pair p = IsInt16 p.re × IsInt16 p.im

saturate_to_int16-IsInt16 : (z : ℤ) → IsInt16 (saturate_to_int16 z)
unfolding saturate_to_int16
saturate_to_int16-IsInt16 z = ground arith

scaled-IsInt16 : (z : ℤ) → IsInt16 (scaled z)
unfolding scaled
scaled-IsInt16 z = saturate_to_int16-IsInt16 (to_i32 (shr15 z))

pub scaled_product-IsInt16Pair : (a b : Pair) → IsInt16Pair (scaled_product a b)
unfolding scaled_product
scaled_product-IsInt16Pair a b = (
  scaled-IsInt16 (to_i32 (a.re *ℤ b.re -ℤ a.im *ℤ b.im)),
  scaled-IsInt16 (to_i32 (a.re *ℤ b.im +ℤ a.im *ℤ b.re)),
)

-- A value that an `int16_t` holds is left alone.
pub saturate_to_int16_fits : (z : ℤ) → IsInt16 z → saturate_to_int16 z ≡ z
unfolding saturate_to_int16
saturate_to_int16_fits z h = ground arith
