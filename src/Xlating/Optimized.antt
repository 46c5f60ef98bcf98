-- ===== src/Xlating/Optimized.antt =====
-- src/xlating.c, process_optimized_cf32: the variant that the build chose, and its entry points.
use mathlib.Core.Path.{fun_ext}
use sdr_server.Prelude.{◌>>=◌, ℕ, ◌+◌, ◌-◌, ◌≡◌, ap, Option, some, List, drop, get_elem?}
use sdr_server.Xlating.{Kernel}
use sdr_server.Xlating.Taps.{Complex}
use sdr_server.Xlating.Input.{pairs, q15_cu8, q15_cs8, q15_cs16}
use sdr_server.Xlating.Cf32.{align_index, native_cf32, FilterCf32, run_filter, process_native_cf32}
use sdr_server.Xlating.Simd.{dot_avx, dot_neon, IsExact, dot_avx-dot, dot_neon-dot}

-- NO_MANUAL_SIMD or neither of the two, __ARM_NEON, __AVX__.
pub data Build : Type 0 where
  plain : Build
  neon : Build
  avx : Build

module _ (c : Complex) where
  open c use {Sample, Phase}

  -- A variant by its inner sum and by what it does with the phase after the loop.
  abbrev pub vector_kernel :
      (ℕ → List Sample → List Sample → Option Sample)
      → (Phase → Phase)
      → FilterCf32 c
      → Kernel Sample Sample Phase
  vector_kernel sum renormalise filter = record {
    output_at = λ buf i phase. get_elem? filter.taps_cf32 (align_index i) >>= λ taps.
        sum (filter.state.taps_len + align_index i) (drop (i - align_index i) buf) taps
        >>= λ sum_temp. some (c.derotate sum_temp phase);
    turn = λ phase. c.turn phase filter.phase_incr;
    renormalise = renormalise;
  }

  unfoldable pub neon_kernel : FilterCf32 c → Kernel Sample Sample Phase
  unfolding align_index dot_neon
  neon_kernel = vector_kernel (dot_neon c) c.normalise

  -- This variant has no division by hypotf.
  unfoldable pub avx_kernel : FilterCf32 c → Kernel Sample Sample Phase
  unfolding align_index dot_avx
  avx_kernel = vector_kernel (dot_avx c) (λ phase. phase)

  unfoldable pub process_optimized_cf32 : Build → FilterCf32 c → Kernel Sample Sample Phase
  unfolding neon_kernel avx_kernel
  process_optimized_cf32 plain = process_native_cf32 c
  process_optimized_cf32 neon = neon_kernel
  process_optimized_cf32 avx = avx_kernel

  unfoldable pub process_optimized_cu8_cf32 :
      Build → List ℕ → FilterCf32 c → Option (List Sample × FilterCf32 c)
  process_optimized_cu8_cf32 b input =
      run_filter c (process_optimized_cf32 b) (pairs q15_cu8 c.from_q15 input)

  unfoldable pub process_optimized_cs8_cf32 :
      Build → List ℕ → FilterCf32 c → Option (List Sample × FilterCf32 c)
  process_optimized_cs8_cf32 b input =
      run_filter c (process_optimized_cf32 b) (pairs q15_cs8 c.from_q15 input)

  unfoldable pub process_optimized_cs16_cf32 :
      Build → List ℕ → FilterCf32 c → Option (List Sample × FilterCf32 c)
  process_optimized_cs16_cf32 b input =
      run_filter c (process_optimized_cf32 b) (pairs q15_cs16 c.from_q15 input)

  module _ (exact : IsExact c) where
    -- If sums could be reordered exactly, the NEON variant would be the native one.
    neon-native : neon_kernel ≡ process_native_cf32 c
    unfolding neon_kernel process_native_cf32 native_cf32
    neon-native =
        ap (λ sum. vector_kernel sum c.normalise)
          (fun_ext (λ n. fun_ext (λ xs. fun_ext (λ ts. dot_neon-dot c exact n xs ts))))

    -- The AVX variant would be the native one without the division of the phase by its modulus.
    avx-native :
        avx_kernel
        ≡ (λ filter. record (process_native_cf32 c filter) { renormalise = λ phase. phase })
    unfolding avx_kernel process_native_cf32 native_cf32
    avx-native =
        ap (λ sum. vector_kernel sum (λ phase. phase))
          (fun_ext (λ n. fun_ext (λ xs. fun_ext (λ ts. dot_avx-dot c exact n xs ts))))
