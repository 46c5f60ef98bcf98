-- ===== src/DspWorker/Samples/Entries.antt =====
-- src/dsp_worker.c with src/xlating.c: the native entry points.
use sdr_server.Xlating.Taps.{Complex}
use sdr_server.Xlating.Cf32.{
  process_native_cu8_cf32, process_native_cs8_cf32, process_native_cs16_cf32,
}
use sdr_server.DspWorker.Samples.{EntryPoints}

-- The entry points of a worker that nothing has been optimized for. The build does not matter.
abbrev pub native : (c : Complex) → EntryPoints c
native c = record {
  xlating_process_cu8 = process_native_cu8_cf32 c;
  xlating_process_cs8 = process_native_cs8_cf32 c;
  xlating_process_cs16 = process_native_cs16_cf32 c;
}
