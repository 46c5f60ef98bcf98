-- ===== src/Xlating/Create.antt =====
-- src/xlating.c, create_frequency_xlating_filter, create_aligned_taps and destroy_xlating: the
-- filter that a client's parameters make, and the memory that every outcome holds and gives back.
pub mod Memory
pub mod Ready
pub mod Band
use sdr_server.Prelude.{
  ◌>>=◌, ℕ, zero, suc, ◌+◌, ◌-◌, ◌*◌, ◌/◌, ◌≤◌, ◌<◌, ◌≡◌, Bool, true, false, Option, none, some,
  List, [], ◌∷◌, ◌++◌, ◌==◌, if◌then◌else◌, length, replicate,
}
use sdr_server.Prelude.Int.{ℤ, pos, negsuc}
use sdr_server.Xlating.{Xlating, write_at}
use sdr_server.Xlating.Taps.{Complex, aligned_taps}
use sdr_server.Xlating.Cf32.{FilterCf32, number_of_aligned_cf32}
use sdr_server.Xlating.Cs16.{Pair, FilterCs16, cleared, alignment_cs16}
use sdr_server.Xlating.Cs16.Stream.{flat}
use sdr_server.Xlating.Reverse.{reverse_taps}

-- What the filter holds memory for.
pub data Block : Type 0 where
  filter_struct original_taps bpf_taps taps_cf32 taps_cs16 : Block
  working_cf32 working_cs16 output_cf32 output_cs16 : Block

-- The pointers of `xlating_t` that are not NULL.
pub record Pointers : Type 0 where
  pub has_taps_cf32 : Bool
  pub has_taps_cs16 : Bool
  pub has_original_taps : Bool
  pub has_output_cf32 : Bool
  pub has_output_cs16 : Bool
  pub has_working_cf32 : Bool
  pub has_working_cs16 : Bool

abbrev pub when : Bool → Block → List Block
when true b = b ∷ []
when false b = []

-- A set of copies is freed copy by copy, and then itself.
unfoldable pub destroy_xlating : Pointers → List Block
destroy_xlating p =
    when p.has_taps_cf32 taps_cf32
    ++ (when p.has_taps_cs16 taps_cs16
        ++ (when p.has_original_taps original_taps
            ++ (when p.has_output_cf32 output_cf32
                ++ (when p.has_output_cs16 output_cs16
                    ++ (when p.has_working_cf32 working_cf32
                        ++ (when p.has_working_cs16 working_cs16 ++ filter_struct ∷ []))))))

-- Which allocations the system grants. The copies of the taps are not checked by the code: they
-- are granted here.
pub record Grants : Type 0 where
  pub gives_filter : Bool
  pub gives_bpf_taps : Bool
  pub gives_taps_cf32 : Bool
  pub gives_taps_cs16 : Bool
  pub gives_working_cf32 : Bool
  pub gives_working_cs16 : Bool
  pub gives_output_cf32 : Bool
  pub gives_output_cs16 : Bool

abbrev pub enomem : ℤ
enomem = negsuc 11

abbrev pub failure : ℤ
failure = negsuc 0

-- What the filter holds after its first allocation.
abbrev pub bare : Pointers
bare = record {
  has_taps_cf32 = false;
  has_taps_cs16 = false;
  has_original_taps = true;
  has_output_cf32 = false;
  has_output_cs16 = false;
  has_working_cf32 = false;
  has_working_cs16 = false;
}

-- `create_aligned_taps` when an array of copies is refused: its code, and what it frees.
unfoldable pub create_aligned_taps_refused : Grants → Option (List Block)
create_aligned_taps_refused g =
    if g.gives_taps_cf32
    then (if g.gives_taps_cs16 then none else some (taps_cf32 ∷ []))
    else some []

-- The allocations after the taps, in their order.
unfoldable pub buffers_refused : Grants → Pointers → Option (List Block)
unfolding destroy_xlating
buffers_refused g p =
    if g.gives_working_cf32
    then (let p = record p { has_working_cf32 = true } in
        if g.gives_working_cs16
        then (let p = record p { has_working_cs16 = true } in
            if g.gives_output_cf32
            then (let p = record p { has_output_cf32 = true } in
                if g.gives_output_cs16 then none else some (destroy_xlating p))
            else some (destroy_xlating p))
        else some (destroy_xlating p))
    else some (destroy_xlating p)

-- Every refusal of memory, by its code and with what has been freed; `none`: all is granted.
unfoldable pub memory_refused : Grants → Option (ℤ × List Block)
unfolding create_aligned_taps_refused buffers_refused destroy_xlating
memory_refused g =
    if g.gives_filter
    then (if g.gives_bpf_taps
        then elim (create_aligned_taps_refused g) [
          | some freed ↦ some (failure, freed ++ bpf_taps ∷ destroy_xlating bare)
          | none ↦
              buffers_refused g (record bare { has_taps_cf32 = true; has_taps_cs16 = true })
              >>= λ freed. some (enomem, bpf_taps ∷ freed)
        ]
        else some (enomem, destroy_xlating bare))
    else some (enomem, [])

-- The copies for `int16_t`, from the i-th on: a copy starts at an `int16_t`, not at a sample.
unfoldable pub aligned_cs16_from : List Pair → (number rounds i : ℕ) → Option (List (List ℤ))
aligned_cs16_from taps number zero i = some []
aligned_cs16_from taps number (suc rounds) i =
    write_at i (flat taps) (replicate (2 * (length taps + number - 1)) (pos 0)) >>= λ row.
    aligned_cs16_from taps number rounds (i + 1) >>= λ rows. some (row ∷ rows)

abbrev pub number_of_aligned_cs16 : ℕ
number_of_aligned_cs16 = alignment_cs16 / 2

unfoldable pub aligned_cs16 : List Pair → Option (List (List ℤ))
unfolding aligned_cs16_from
aligned_cs16 taps = aligned_cs16_from taps number_of_aligned_cs16 number_of_aligned_cs16 0

-- The floating point that the creation does: a low pass tap moved to the centre frequency, a tap as
-- a pair of `int16_t`, and the phases for one step, as a float and as a pair.
pub record Tuning (Tap : Type 0) (c : Complex) : Type 0 where
  pub moved : ℕ → Tap → c.Sample
  pub to_pair : c.Sample → Pair
  pub phase_one : c.Phase
  pub phase_incr : c.Phase
  pub phase_incr_cs16 : Pair

-- The two halves of a filter.
pub record Filters (c : Complex) : Type 0 where
  pub cf32 : FilterCf32 c
  pub cs16 : FilterCs16

-- A refusal with its code and with what has been freed; a filter; or a write past a copy's end.
pub data Creation (c : Complex) : Type 0 where
  refused : ℤ → List Block → Creation c
  created : Filters c → Creation c
  overrun : Creation c

module _ {Tap : Type 0} (c : Complex) (tuning : Tuning Tap c) where
  open c use {Sample, Phase}

  unfoldable pub moved_from : ℕ → List Tap → List Sample
  moved_from i [] = []
  moved_from i (t ∷ taps) = tuning.moved i t ∷ moved_from (i + 1) taps

  unfoldable pub map_pairs : List Sample → List Pair
  map_pairs [] = []
  map_pairs (t ∷ taps) = tuning.to_pair t ∷ map_pairs taps

  -- `bpfTaps` when `create_aligned_taps` gets it.
  unfoldable pub bpf : List Tap → List Sample
  unfolding moved_from reverse_taps
  bpf taps = reverse_taps (moved_from 0 taps)

  abbrev pub start :
      {A P : Type 0} → (decimation taps_len max_input_buffer_length : ℕ) → A → P → Xlating A P
  start decimation taps_len max_input_buffer_length quiet phase = record {
    decimation = decimation;
    taps_len = taps_len;
    working_buffer = replicate (max_input_buffer_length / 2 + (taps_len - 1)) quiet;
    history_offset = taps_len - 1;
    output_len_samples = max_input_buffer_length / 2 / decimation + 1;
    phase = phase;
  }

  abbrev pub assembled : ℕ → ℕ → ℕ → List (List Sample) → List (List ℤ) → Filters c
  assembled decimation taps_len max_input rows rows_cs16 = record {
    cf32 = record {
      taps_cf32 = rows;
      phase_incr = tuning.phase_incr;
      state = start decimation taps_len max_input c.zero tuning.phase_one;
    };
    cs16 = record {
      taps_cs16 = rows_cs16;
      phase_incr = tuning.phase_incr_cs16;
      state = start decimation taps_len max_input cleared (record { re = pos 32767; im = pos 0 });
    };
  }

  -- Both sets of copies, or a write past the end of one.
  abbrev pub copied :
      Option (List (List Sample))
      → Option (List (List ℤ))
      → (List (List Sample) → List (List ℤ) → Filters c)
      → Creation c
  copied none rows_cs16 filters = overrun
  copied (some rows) none filters = overrun
  copied (some rows) (some rows_cs16) filters = created (filters rows rows_cs16)

  unfoldable pub create_frequency_xlating_filter :
      (decimation : ℕ) → List Tap → (max_input_buffer_length : ℕ) → Grants → Creation c
  unfolding bpf map_pairs aligned_taps aligned_cs16
  create_frequency_xlating_filter decimation taps max_input g =
      if length taps == 0 then refused failure [] else elim (memory_refused g) [
        | some (code, freed) ↦ refused code freed
        | none ↦
            copied (aligned_taps c number_of_aligned_cf32 (bpf taps))
              (aligned_cs16 (map_pairs (bpf taps))) (assembled decimation (length taps) max_input)
      ]
