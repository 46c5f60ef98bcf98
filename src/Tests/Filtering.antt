-- ===== src/Tests/Filtering.antt =====
-- Inputs for the filter on `float complex` of src/xlating.c.
use sdr_server.Prelude.{ℕ, ◌+◌, ◌*◌, ◌≡◌, refl, some, List, [], ◌∷◌, arith}
use sdr_server.Prelude.Int.{pos_part}
use sdr_server.Xlating.Taps.{Complex, aligned_taps, aligned_from}
use sdr_server.Xlating.Input.{pairs, q15_cu8, q15_cs8, q15_cs16}
use sdr_server.Xlating.Cf32
use sdr_server.Xlating.Cf32.{
  FilterCf32, Computes, process_native_cf32, process_native_cu8_cf32, process_native_cs8_cf32,
  process_native_cs16_cf32, window_cf32, process_native-Computes,
}

-- Samples that are natural numbers, and no rotation.
abbrev pub numbers : Complex
numbers = record {
  Sample = ℕ;
  Phase = Unit {0};
  zero = 0;
  add = λ x y. x + y;
  mul = λ x y. x * y;
  derotate = λ x p. x;
  turn = λ p q. p;
  normalise = λ p. p;
  from_q15 = λ re im. pos_part re;
}

abbrev pub three_taps : List ℕ
three_taps = 1 ∷ 2 ∷ 3 ∷ []

abbrev three_rows : List (List ℕ)
three_rows =
    (1 ∷ 2 ∷ 3 ∷ 0 ∷ 0 ∷ 0 ∷ [])
    ∷ (0 ∷ 1 ∷ 2 ∷ 3 ∷ 0 ∷ 0 ∷ [])
    ∷ (0 ∷ 0 ∷ 1 ∷ 2 ∷ 3 ∷ 0 ∷ [])
    ∷ (0 ∷ 0 ∷ 0 ∷ 1 ∷ 2 ∷ 3 ∷ [])
    ∷ []

-- For four samples a call, of which every second is kept.
abbrev pub small_filter : FilterCf32 numbers
small_filter = record {
  taps_cf32 = three_rows;
  phase_incr = tt;
  state = record {
    decimation = 2;
    taps_len = 3;
    working_buffer = 0 ∷ 0 ∷ 0 ∷ 0 ∷ 0 ∷ 0 ∷ [];
    history_offset = 2;
    output_len_samples = 3;
    phase = tt;
  };
}

pub three_rows-made : aligned_taps numbers 4 three_taps ≡ some three_rows
unfolding aligned_taps aligned_from
three_rows-made = refl

small_filter-IsMade : Cf32.IsMade numbers 4 three_taps small_filter
small_filter-IsMade = record {
  copies = three_rows-made;
  size = refl;
  ready = record {
    forward = omega arith;
    overlapping = omega arith;
    history_short = omega arith;
    buffer_whole = refl;
    output_whole = refl;
  };
}

pub silent : (x : ℕ) → 0 + x * 0 ≡ 0
silent x = omega arith

abbrev eight_bytes : List ℕ
eight_bytes = 128 ∷ 128 ∷ 130 ∷ 127 ∷ 200 ∷ 1 ∷ 255 ∷ 0 ∷ []

process_native-Computes_example :
    Computes numbers 4 three_taps small_filter
      (pairs q15_cu8 numbers.from_q15 eight_bytes)
      (process_native_cu8_cf32 numbers eight_bytes small_filter)
    × Computes numbers 4 three_taps small_filter
        (pairs q15_cs8 numbers.from_q15 eight_bytes)
        (process_native_cs8_cf32 numbers eight_bytes small_filter)
    × Computes numbers 4 three_taps small_filter
        (pairs q15_cs16 numbers.from_q15 eight_bytes)
        (process_native_cs16_cf32 numbers eight_bytes small_filter)
process_native-Computes_example =
    process_native-Computes numbers silent 4 three_taps small_filter eight_bytes small_filter-IsMade
      (omega arith)
