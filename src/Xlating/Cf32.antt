-- ===== src/Xlating/Cf32.antt =====
-- src/xlating.c, process_native_cf32 and its entry points: samples are `float complex`, and the
-- taps are read at the alignment of the position in the working buffer.
use sdr_server.Prelude.{
  ◌>>=◌, ℕ, ◌+◌, ◌-◌, ◌*◌, ◌/◌, ◌%◌, ◌≤◌, ◌<◌, ◌≡◌, refl, sym, subst, ◌∙◌, Option, some, List, ◌++◌,
  length, drop, get_elem?, arith, ltb, if◌then◌else◌,
}
use sdr_server.Xlating.{Kernel, Xlating, feed}
use sdr_server.Xlating.Taps.{Complex, dot, aligned_taps, aligned_taps-row, convolve, dot_aligned}
use sdr_server.Xlating.Input.{pairs, q15_cu8, q15_cs8, q15_cs16, length-pairs}
use sdr_server.Xlating.Refine.{history, IsReady, feed-run}
use sdr_server.Xlating.Loop.{Reads}
use sdr_server.Xlating.Reference.{Outcome, reference}

abbrev pub alignment_cf32 : ℕ
alignment_cf32 = 32

abbrev pub number_of_aligned_cf32 : ℕ
number_of_aligned_cf32 = 4

-- `buf - aligned_buffer` for the sample at an index: it lies at 8 * index from the start of the
-- buffer, which is aligned.
unfoldable pub align_index : ℕ → ℕ
align_index current_index = 8 * current_index % alignment_cf32 / 8

-- The part of `xlating_t` for `float complex`.
pub record FilterCf32 (c : Complex) : Type 0 where
  pub taps_cf32 : List (List c.Sample)
  pub phase_incr : c.Phase
  pub state : Xlating c.Sample c.Phase

module _ (c : Complex) where
  open c use {Sample, Phase}

  unfoldable pub native_cf32 : List (List Sample) → ℕ → Phase → Kernel Sample Sample Phase
  native_cf32 taps_cf32 taps_len phase_incr = record {
    output_at = λ buf i phase. get_elem? taps_cf32 (align_index i) >>= λ taps.
        dot c (taps_len + align_index i) c.zero (drop (i - align_index i) buf) taps >>= λ temp.
        some (c.derotate temp phase);
    turn = λ phase. c.turn phase phase_incr;
    renormalise = c.normalise;
  }

  -- A call with a variant of the inner loop.
  unfoldable pub run_filter :
      (FilterCf32 c → Kernel Sample Sample Phase)
      → List Sample
      → FilterCf32 c
      → Option (List Sample × FilterCf32 c)
  run_filter variant input filter = feed (variant filter) input filter.state >>= λ (output, state).
      some (output, record filter { state = state })

  unfoldable pub process_native_cf32 : FilterCf32 c → Kernel Sample Sample Phase
  process_native_cf32 filter = native_cf32 filter.taps_cf32 filter.state.taps_len filter.phase_incr

  unfoldable pub process_native_cu8_cf32 :
      List ℕ → FilterCf32 c → Option (List Sample × FilterCf32 c)
  process_native_cu8_cf32 input = run_filter process_native_cf32 (pairs q15_cu8 c.from_q15 input)

  unfoldable pub process_native_cs8_cf32 :
      List ℕ → FilterCf32 c → Option (List Sample × FilterCf32 c)
  process_native_cs8_cf32 input = run_filter process_native_cf32 (pairs q15_cs8 c.from_q15 input)

  unfoldable pub process_native_cs16_cf32 :
      List ℕ → FilterCf32 c → Option (List Sample × FilterCf32 c)
  process_native_cs16_cf32 input = run_filter process_native_cf32 (pairs q15_cs16 c.from_q15 input)

  align_index_bounds : (i : ℕ) → (align_index i < number_of_aligned_cf32) × (align_index i ≤ i)
  unfolding align_index
  align_index_bounds i = omega arith

  -- The sum over a window with the plain taps, derotated.
  abbrev pub window_cf32 : List Sample → List Sample → Phase → Sample
  window_cf32 taps xs phase = c.derotate (convolve c c.zero xs taps) phase

  pub native_cf32-Reads :
      ((x : Sample) → c.add c.zero (c.mul x c.zero) ≡ c.zero)
      → (taps : List Sample) (rows : List (List Sample)) (phase_incr : Phase)
      → aligned_taps c number_of_aligned_cf32 taps ≡ some rows
      → Reads (native_cf32 rows (length taps) phase_incr) (length taps) (window_cf32 taps)
  unfolding native_cf32
  native_cf32-Reads zero_tap taps rows phase_incr made buf i phase h =
      let (within, before) = align_index_bounds i in
      rw
        (
          aligned_taps-row c taps number_of_aligned_cf32 made (align_index i) within,
          dot_aligned c zero_tap taps buf number_of_aligned_cf32 i (align_index i) before within h,
        )
        refl

  -- A filter of the server: the copies are those of some taps, and the buffers fit inputs of up to
  -- `max_input` samples.
  pub record IsMade (max_input : ℕ) (taps : List Sample) (f : FilterCf32 c) : Type 0 where
    pub copies : aligned_taps c number_of_aligned_cf32 taps ≡ some f.taps_cf32
    pub size : f.state.taps_len ≡ length taps
    pub ready : IsReady max_input f.state

  -- The plain filter on the samples `past` of earlier calls and the new ones `xs`: a window of all
  -- taps every `decimation` samples, each with the phase turned by the same step.
  abbrev pub plain_call :
      List Sample → FilterCf32 c → List Sample → List Sample → Phase → Outcome Sample Sample Phase
  plain_call taps f past xs phase =
      reference (window_cf32 taps) (λ p. c.turn p f.phase_incr) f.state.taps_len f.state.decimation
        (past ++ xs) phase

  -- A call with enough input for an output normalises the phase that it leaves.
  abbrev pub left_phase : FilterCf32 c → (past_len input_len : ℕ) → Phase → Phase
  left_phase f past_len input_len phase =
      if ltb (f.state.taps_len - 1) (past_len + input_len) then c.normalise phase else phase

  -- The result of a call: what the plain filter makes of the history and the input.
  abbrev pub Computes :
      ℕ → List Sample → FilterCf32 c → List Sample → Option (List Sample × FilterCf32 c) → Type 0
  Computes max_input taps f xs result =
      let r = plain_call taps f (history f.state) xs f.state.phase in
      (f' : FilterCf32 c) × (result ≡ some (r.outputs, f'))
      × (history f'.state ≡ r.rest)
      × (f'.state.phase ≡ left_phase f f.state.history_offset (length xs) r.phase)
      × (f'.phase_incr ≡ f.phase_incr)
      × IsMade max_input taps f'

  module _ (zero_tap : (x : Sample) → c.add c.zero (c.mul x c.zero) ≡ c.zero) where
    pub made-Reads :
        (max_input : ℕ) (taps : List Sample) (f : FilterCf32 c)
        → IsMade max_input taps f
        → Reads (process_native_cf32 f) f.state.taps_len (window_cf32 taps)
    unfolding process_native_cf32
    made-Reads max_input taps f made =
        subst (λ n. Reads (native_cf32 f.taps_cf32 n f.phase_incr) n (window_cf32 taps))
          (sym made.size) (native_cf32-Reads zero_tap taps f.taps_cf32 f.phase_incr made.copies)

    computed :
        (max_input : ℕ) (taps : List Sample) (f : FilterCf32 c) (xs : List Sample)
        → IsMade max_input taps f
        → length xs ≤ max_input
        → Computes max_input taps f xs (run_filter process_native_cf32 xs f)
    unfolding run_filter process_native_cf32 native_cf32
    computed max_input taps f xs made fits =
        let (s, runs, left, turned, ready, d, t) =
          feed-run (process_native_cf32 f) (window_cf32 taps) f.state xs max_input
            (made-Reads max_input taps f made) made.ready fits in
        (
          record f { state = s },
          rw runs refl,
          left,
          turned,
          refl,
          record { copies = made.copies; size = t ∙ made.size; ready = ready },
        )

    -- Of a filter that is made for inputs of this size, each entry point finishes without a fault:
    -- it puts out the samples of the plain filter on the history and the converted input, keeps
    -- the samples that the plain filter leaves, renormalises the phase once if there was enough
    -- input, and leaves a filter that is made for the same inputs. A zero tap adds nothing to zero.
    pub process_native-Computes :
        (max_input : ℕ) (taps : List Sample) (f : FilterCf32 c) (input : List ℕ)
        → IsMade max_input taps f
        → length input / 2 ≤ max_input
        → Computes max_input taps f
            (pairs q15_cu8 c.from_q15 input)
            (process_native_cu8_cf32 input f)
          × Computes max_input taps f
              (pairs q15_cs8 c.from_q15 input)
              (process_native_cs8_cf32 input f)
          × Computes max_input taps f
              (pairs q15_cs16 c.from_q15 input)
              (process_native_cs16_cf32 input f)
    unfolding process_native_cu8_cf32 process_native_cs8_cf32 process_native_cs16_cf32
    process_native-Computes max_input taps f input made fits = (
      computed max_input taps f (pairs q15_cu8 c.from_q15 input) made
          (omega (arith, length-pairs q15_cu8 c.from_q15 input)),
      computed max_input taps f (pairs q15_cs8 c.from_q15 input) made
          (omega (arith, length-pairs q15_cs8 c.from_q15 input)),
      computed max_input taps f (pairs q15_cs16 c.from_q15 input) made
          (omega (arith, length-pairs q15_cs16 c.from_q15 input)),
    )
