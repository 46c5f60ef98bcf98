-- ===== src/Xlating/Create/Ready.antt =====
-- src/xlating.c: a filter that is created is ready for every input of the size it was made for.
use sdr_server.Prelude.{
  ℕ, suc, ◌+◌, ◌-◌, ◌*◌, ◌/◌, ◌≤◌, ◌<◌, ◌≡◌, refl, sym, ap, ◌∙◌, none, some, List, [], ◌∷◌, ◌++◌,
  length, take, drop, replicate, get_elem?, length-replicate, take-replicate, le→leb, arith,
}
use sdr_server.Prelude.Int.{ℤ, pos}
use sdr_server.Xlating.Taps.{Complex, aligned_taps-rows}
use sdr_server.Xlating.Cf32
use sdr_server.Xlating.Cf32.{FilterCf32, number_of_aligned_cf32}
use sdr_server.Xlating.Cs16.{Pair, cleared}
use sdr_server.Xlating.Cs16.Stream.{flat}
use sdr_server.Xlating.Cs16.Stream as Words
use sdr_server.Xlating.Reverse.{length-reverse_taps}
use sdr_server.Xlating.Refine.{IsReady, history}
use sdr_server.Xlating.Create.{
  Tuning, Filters, Grants, memory_refused, aligned_cs16, aligned_cs16_from, moved_from, map_pairs,
  bpf, start, assembled, create_frequency_xlating_filter, created,
}

length-flat : (taps : List Pair) → length (flat taps) ≡ 2 * length taps
length-flat [] = omega arith
length-flat (t ∷ taps) = omega (arith, length-flat taps)

-- The copies for `int16_t` fit, and the first is the taps, with zeros behind.
cs16_copied :
    (taps : List Pair)
    → (rows : List (List ℤ)) × (more : List ℤ) × (aligned_cs16 taps ≡ some rows)
      × (get_elem? rows 0 ≡ some (flat taps ++ more))
unfolding aligned_cs16 aligned_cs16_from
cs16_copied taps =
    let zeros : List ℤ = replicate (2 * (length taps + 2 - 1)) (pos 0) in
    let z : length zeros ≡ 2 * (length taps + 2 - 1) =
      length-replicate (2 * (length taps + 2 - 1)) (pos 0) in
    let l : length (flat taps) ≡ 2 * length taps = length-flat taps in
    (
      (flat taps ++ drop (0 + length (flat taps)) zeros)
          ∷ (take 1 zeros ++ (flat taps ++ drop (1 + length (flat taps)) zeros))
          ∷ [],
      drop (0 + length (flat taps)) zeros,
      rw
          (
            le→leb (0 + length (flat taps)) (length zeros) (omega arith),
            le→leb (1 + length (flat taps)) (length zeros) (omega arith),
          )
          refl,
      refl,
    )

start-IsReady :
    {Tap : Type 0} (c : Complex) (tuning : Tuning Tap c) {A P : Type 0}
    (decimation taps_len max_input : ℕ) (quiet : A) (phase : P)
    → 0 < decimation
    → decimation ≤ taps_len
    → IsReady (max_input / 2) (start c tuning decimation taps_len max_input quiet phase)
start-IsReady c tuning decimation taps_len max_input quiet phase h h' = record {
  forward = h;
  overlapping = h';
  history_short = omega arith;
  buffer_whole = length-replicate (max_input / 2 + (taps_len - 1)) quiet;
  output_whole = refl;
}

module _ {Tap : Type 0} (c : Complex) (tuning : Tuning Tap c) where
  open c use {Sample}

  length-moved_from : (i : ℕ) (taps : List Tap) → length (moved_from c tuning i taps) ≡ length taps
  unfolding moved_from
  length-moved_from i [] = refl
  length-moved_from i (t ∷ taps) = ap suc (length-moved_from (i + 1) taps)

  length-bpf : (taps : List Tap) → length (bpf c tuning taps) ≡ length taps
  unfolding bpf
  length-bpf taps = length-reverse_taps (moved_from c tuning 0 taps) ∙ length-moved_from 0 taps

  length-map_pairs : (taps : List Sample) → length (map_pairs c tuning taps) ≡ length taps
  unfolding map_pairs
  length-map_pairs [] = refl
  length-map_pairs (t ∷ taps) = ap suc (length-map_pairs taps)

  -- With memory for all, and taps that are at least as many as the decimation, a filter comes out
  -- whose two halves hold the moved and reversed taps at every alignment, start from silence, and
  -- fit every input of up to `max_input_buffer_length` bytes or words.
  pub create_frequency_xlating_filter-IsMade :
      (decimation : ℕ) (taps : List Tap) (max_input : ℕ) (g : Grants)
      → memory_refused g ≡ none
      → 0 < decimation
      → decimation ≤ length taps
      → (f : Filters c) × (create_frequency_xlating_filter c tuning decimation taps max_input g
          ≡ created f)
        × Cf32.IsMade c (max_input / 2) (bpf c tuning taps) f.cf32
        × Words.IsMade (max_input / 2) (map_pairs c tuning (bpf c tuning taps)) f.cs16
        × (history f.cf32.state ≡ replicate (length taps - 1) c.zero)
        × (history f.cs16.state ≡ replicate (length taps - 1) cleared)
        × (f.cf32.state.decimation ≡ decimation)
        × (f.cs16.state.decimation ≡ decimation)
        × (f.cf32.state.phase ≡ tuning.phase_one)
        × (f.cf32.phase_incr ≡ tuning.phase_incr)
  unfolding create_frequency_xlating_filter
  create_frequency_xlating_filter-IsMade decimation [] max_input g granted h h' =
      absurd (omega arith)
  create_frequency_xlating_filter-IsMade decimation (t ∷ taps) max_input g granted h h' =
      let all : List Tap = t ∷ taps in
      let (rows, made, at) = aligned_taps-rows c (bpf c tuning all) number_of_aligned_cf32 in
      let (words, more, made', first) = cs16_copied (map_pairs c tuning (bpf c tuning all)) in
      (
        assembled c tuning decimation (length all) max_input rows words,
        rw (granted, made, made') (ground arith),
        record {
          copies = made;
          size = sym (length-bpf all);
          ready =
              start-IsReady c tuning decimation (length all) max_input c.zero tuning.phase_one h h';
        },
        record {
          more = more;
          copy = first;
          size = sym (length-map_pairs (bpf c tuning all) ∙ length-bpf all);
          ready =
              start-IsReady c tuning decimation (length all) max_input cleared
                (record { re = pos 32767; im = pos 0 }) h h';
        },
        take-replicate (length all - 1) (max_input / 2 + (length all - 1)) c.zero (omega arith),
        take-replicate (length all - 1) (max_input / 2 + (length all - 1)) cleared (omega arith),
        refl,
        refl,
        refl,
        refl,
      )
