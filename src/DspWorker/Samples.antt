-- ===== src/DspWorker/Samples.antt =====
-- src/dsp_worker.c with src/xlating.c: the worker's filter on float samples, as its thread calls it
-- on the bytes of the queue's buffers.
pub mod Entries
pub mod Calls
pub mod Received
use sdr_server.Prelude.{ℕ, ◌+◌, ◌*◌, Option, none, some, List, [], ◌∷◌, ◌++◌, if◌then◌else◌}
use sdr_server.Prelude.Int.{ℤ, eqb_ℤ}
use sdr_server.Config.{sdr_type_hackrf, sdr_type_rtl, CpuOptimization, native_cf32, optimized_cf32}
use sdr_server.Xlating.Taps.{Complex}
use sdr_server.Xlating.Input.{pairs, q15_cu8, q15_cs8, q15_cs16}
use sdr_server.Xlating.Cf32.{
  FilterCf32, process_native_cu8_cf32, process_native_cs8_cf32, process_native_cs16_cf32,
}
use sdr_server.Xlating.Optimized.{
  Build, process_optimized_cu8_cf32, process_optimized_cs8_cf32, process_optimized_cs16_cf32,
}
use sdr_server.DspWorker.{Filter}

-- `(const int16_t *) input` and `input_len / sizeof(int16_t)`, the first byte the lower one.
unfoldable pub words : List ℕ → List ℕ
words [] = []
words (x ∷ []) = []
words (x ∷ y ∷ bytes) = (x + 256 * y) ∷ words bytes

-- The function pointers of a `dsp_worker`.
pub record EntryPoints (c : Complex) : Type 0 where
  pub xlating_process_cu8 : List ℕ → FilterCf32 c → Option (List c.Sample × FilterCf32 c)
  pub xlating_process_cs8 : List ℕ → FilterCf32 c → Option (List c.Sample × FilterCf32 c)
  pub xlating_process_cs16 : List ℕ → FilterCf32 c → Option (List c.Sample × FilterCf32 c)

module _ (c : Complex) where
  open c use {Sample}

  -- `switch (server_config->optimization)`. What the optimized ones do is up to the build.
  unfoldable pub entry_points : CpuOptimization → Build → EntryPoints c
  entry_points native_cf32 b = record {
    xlating_process_cu8 = process_native_cu8_cf32 c;
    xlating_process_cs8 = process_native_cs8_cf32 c;
    xlating_process_cs16 = process_native_cs16_cf32 c;
  }
  entry_points optimized_cf32 b = record {
    xlating_process_cu8 = process_optimized_cu8_cf32 c b;
    xlating_process_cs8 = process_optimized_cs8_cf32 c b;
    xlating_process_cs16 = process_optimized_cs16_cf32 c b;
  }

  -- The samples of a buffer, by the kind of the receiver.
  unfoldable pub converted : ℤ → List ℕ → List Sample
  unfolding words
  converted kind input =
      if eqb_ℤ kind sdr_type_hackrf
      then pairs q15_cs8 c.from_q15 input
      else if eqb_ℤ kind sdr_type_rtl
      then pairs q15_cu8 c.from_q15 input
      else pairs q15_cs16 c.from_q15 (words input)

-- The bytes of a `float complex` are a parameter.
module _ (c : Complex) (bytes_of : c.Sample → List ℕ) where
  open c use {Sample}

  unfoldable pub encode : List Sample → List ℕ
  encode [] = []
  encode (x ∷ xs) = bytes_of x ++ encode xs

  -- What a call puts out, as the bytes that follow, with the filter that it leaves. A call that
  -- faults does not return; it is put down as one that does nothing.
  unfoldable pub returned :
      FilterCf32 c → Option (List Sample × FilterCf32 c) → List ℕ × FilterCf32 c
  unfolding encode
  returned s none = ([], s)
  returned s (some (output, s')) = (encode output, s')

  -- The calls that `callback` makes through the pointers.
  abbrev pub worker_filter : EntryPoints c → Filter
  worker_filter p = record {
    State = FilterCf32 c;
    process_cu8 = λ input s. returned s (p.xlating_process_cu8 input s);
    process_cs8 = λ input s. returned s (p.xlating_process_cs8 input s);
    process_cs16 = λ input s. returned s (p.xlating_process_cs16 (words input) s);
  }
