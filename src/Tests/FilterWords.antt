-- ===== src/Tests/FilterWords.antt =====
-- Inputs for the filter on 16-bit words of src/xlating.c, its creation, the low pass of src/lpf.c and
-- the set-up of a worker.
use sdr_server.Prelude.{
  ℕ, ◌+◌, ◌*◌, ◌/◌, ◌<◌, ◌≡◌, refl, true, false, none, some, List, [], ◌∷◌, ◌++◌, if◌then◌else◌,
  All, arith,
}
use sdr_server.Prelude.Int.{ℤ, pos, negsuc}
use sdr_server.Tests.Data.{server_config, request}
use sdr_server.Server.{ClientConfig, configure}
use sdr_server.Xlating.{Xlating}
use sdr_server.Xlating.Stream.{feed_all, joined}
use sdr_server.Xlating.Refine.{IsReady, history}
use sdr_server.Xlating.Cs16.{Pair, FilterCs16, cleared, IsInt16Pair}
use sdr_server.Xlating.Cs16.Stream as Words
use sdr_server.Xlating.Cs16.Stream.{kernel, process_native_cs16-Stream}
use sdr_server.Xlating.Create as Create
use sdr_server.Xlating.Create.{Tuning, Filters, memory_refused, destroy_xlating, bare, bpf}
use sdr_server.Xlating.Create.Memory.{count, acquired, memory_refused-Balanced}
use sdr_server.Lpf.{Floats}
use sdr_server.DspWorker.Setup.Rates.{IsIeee}
use sdr_server.Tests.Filtering.{numbers}

abbrev half_scale : Pair
half_scale = record { re = pos 16384; im = negsuc 16383 }

abbrev one_word : Pair
one_word = record { re = pos 1000; im = negsuc 99 }

abbrev word_filter : FilterCs16
word_filter = record {
  taps_cs16 = (pos 16384 ∷ negsuc 16383 ∷ pos 0 ∷ pos 0 ∷ []) ∷ [];
  phase_incr = half_scale;
  state = record {
    decimation = 1;
    taps_len = 1;
    working_buffer = cleared ∷ cleared ∷ [];
    history_offset = 0;
    output_len_samples = 3;
    phase = record { re = pos 32767; im = pos 0 };
  };
}

word_filter-IsMade : Words.IsMade 2 (half_scale ∷ []) word_filter
word_filter-IsMade = record {
  more = pos 0 ∷ pos 0 ∷ [];
  copy = refl;
  size = refl;
  ready = record {
    forward = omega arith;
    overlapping = omega arith;
    history_short = omega arith;
    buffer_whole = refl;
    output_whole = refl;
  };
}

abbrev word_pieces : List (List Pair)
word_pieces = (one_word ∷ []) ∷ (one_word ∷ cleared ∷ []) ∷ []

process_native_cs16-Stream_example :
    (s : Xlating Pair Pair) × (feed_all (kernel word_filter) word_pieces word_filter.state
      ≡ some (
        (Words.plain_stream
            (half_scale ∷ [])
            word_filter
            (history word_filter.state ++ joined word_pieces)).outputs,
        s,
      ))
    × IsReady 2 s
    × All IsInt16Pair
        (Words.plain_stream
          (half_scale ∷ [])
          word_filter
          (history word_filter.state ++ joined word_pieces)).outputs
process_native_cs16-Stream_example =
    process_native_cs16-Stream 2 (half_scale ∷ []) word_filter word_pieces word_filter-IsMade
      (omega arith)

-- The second working buffer is refused.
abbrev one_refused : Create.Grants
one_refused = record {
  gives_filter = true;
  gives_bpf_taps = true;
  gives_taps_cf32 = true;
  gives_taps_cs16 = true;
  gives_working_cf32 = true;
  gives_working_cs16 = false;
  gives_output_cf32 = true;
  gives_output_cs16 = true;
}

abbrev freed_blocks : List Create.Block
freed_blocks =
    Create.bpf_taps ∷ Create.taps_cf32 ∷ Create.taps_cs16 ∷ Create.original_taps
    ∷ Create.working_cf32 ∷ Create.filter_struct ∷ []

one_refused-memory : memory_refused one_refused ≡ some (Create.enomem, freed_blocks)
unfolding memory_refused
one_refused-memory = refl

memory_refused-Balanced_example :
    count Create.working_cf32 freed_blocks
    ≡ (if true then count Create.working_cf32 (acquired one_refused) else 0)
memory_refused-Balanced_example =
    memory_refused-Balanced one_refused Create.enomem freed_blocks one_refused-memory
      Create.working_cf32

-- Floats that are exact.
abbrev pub exact_floats : Floats
exact_floats = record {
  Float = ℕ;
  to_float = λ n. n;
  quotient = λ s t. 53 * s / (22 * t);
  hamming = λ n m. 1;
  middle_tap = λ c s w. w;
  side_tap = λ c s n w. w;
  add_twice = λ x y. x + 2 * y;
  divide = λ x y. x;
  scale = λ x y. x * y;
}

quotient_bound : (s t : ℕ) → 0 < t → s < (s / t + 1) * t
quotient_bound s t h = grind arith

pub exact_floats-IsIeee : IsIeee exact_floats
exact_floats-IsIeee = record {
  monotone = λ m n h. h;
  doubles = λ n. refl;
  ratio = λ s t h h'. omega (arith, quotient_bound (53 * s) (22 * t) (omega arith));
}

abbrev pub tuning : ℤ → ℕ → ℕ → Tuning ℕ numbers
tuning offset sampling_freq decimation = record {
  moved = λ i tap. tap;
  to_pair = λ x. record { re = pos x; im = pos 0 };
  phase_one = tt;
  phase_incr = tt;
  phase_incr_cs16 = cleared;
}

abbrev pub all_granted : Create.Grants
all_granted = record one_refused { gives_working_cs16 = true }

pub all_granted-memory : memory_refused all_granted ≡ none
unfolding memory_refused
all_granted-memory = refl

abbrev pub requested : ClientConfig
requested = record {
  center_freq = 437000000;
  sampling_rate = 48000;
  band_freq = 437500000;
  destination = 1;
  client_socket = 7;
  id = 0;
  sdr_type = pos 0;
  is_running = false;
}

pub requested-configured : configure 7 server_config request ≡ some requested
unfolding configure
requested-configured = refl
