-- ===== src/DspWorker/Setup.antt =====
-- src/dsp_worker.c, dsp_worker_start: the low pass taps and the filter that a client's rate and the
-- server's configuration make. It joins src/lpf.c and src/xlating.c.
pub mod Rates
pub mod Ready
use sdr_server.Prelude.{
  ℕ, zero, suc, ◌+◌, ◌-◌, ◌*◌, ◌/◌, ◌%◌, ◌^◌, ◌≤◌, ◌<◌, ◌≡◌, refl, sym, ap, ◌∙◌, Bool, true, false,
  ◌&&◌, not, Option, none, some, List, ltb, ◌==◌, if◌then◌else◌, length, lt_or_ge, inl, inr, arith,
}
use sdr_server.Prelude.Int.{ℤ, pos, negsuc, sub_ℕ}
use sdr_server.Config.{ServerConfig, to_u32}
use sdr_server.Wire.{Request}
use sdr_server.Server.{ClientConfig, configure}
use sdr_server.Lpf as Lpf
use sdr_server.Lpf.{Floats, create_low_pass_filter, refused, made, overrun, compute_ntaps}
use sdr_server.Lpf.Count.{Sane, create_low_pass_filter-odd}
use sdr_server.Xlating.Taps.{Complex}
use sdr_server.Xlating.Cf32
use sdr_server.Xlating.Cs16.{to_i32}
use sdr_server.Xlating.Create as Create
use sdr_server.Xlating.Create.{
  Tuning, Filters, Creation, memory_refused, bpf, create_frequency_xlating_filter,
}
use sdr_server.Xlating.Create.Ready.{create_frequency_xlating_filter-IsMade}

-- A filter, or the code with which the worker's start fails; a division by zero among the arguments;
-- or an access past an array's end.
pub data Setup (c : Complex) : Type 0 where
  ready : Filters c → Setup c
  failed : ℤ → Setup c
  divides_by_zero : Setup c
  crashed : Setup c

module _ (f : Floats) (c : Complex)
    (tuning : (offset : ℤ) (sampling_freq decimation : ℕ) → Tuning f.Float c) (one : f.Float) where
  abbrev pub after_filter : Creation c → Setup c
  after_filter (Create.refused code freed) = failed code
  after_filter (Create.created filters) = ready filters
  after_filter Create.overrun = crashed

  -- The difference of the frequencies is an `int64_t`, and becomes an `int32_t`.
  abbrev pub tuned : ServerConfig → ClientConfig → Tuning f.Float c
  tuned sc config =
      tuning (to_i32 (sub_ℕ config.center_freq config.band_freq)) sc.band_sampling_rate
        (sc.band_sampling_rate / config.sampling_rate)

  abbrev pub with_taps : ServerConfig → ClientConfig → Create.Grants → Lpf.Made f.Float → Setup c
  with_taps sc config g (refused code freed) = failed code
  with_taps sc config g overrun = crashed
  with_taps sc config g (made taps len) =
      if config.sampling_rate == 0
      then divides_by_zero
      else after_filter (
          create_frequency_xlating_filter c (tuned sc config)
            (sc.band_sampling_rate / config.sampling_rate) taps sc.buffer_size g)

  unfoldable pub setup_for :
      (cutoff_rate : ℕ) → ServerConfig → ClientConfig → Lpf.Grants → Create.Grants → Setup c
  unfolding create_low_pass_filter create_frequency_xlating_filter
  setup_for cutoff_rate sc config lg g =
      if cutoff_rate == 0
      then divides_by_zero
      else with_taps sc config g (
          create_low_pass_filter f one sc.band_sampling_rate (config.sampling_rate / 2)
            (config.sampling_rate / cutoff_rate) lg)

  -- The cutoff rate is an `int` that divides a `uint32_t`.
  unfoldable pub setup_filter : ServerConfig → ClientConfig → Lpf.Grants → Create.Grants → Setup c
  unfolding setup_for
  setup_filter sc config lg g = setup_for (to_u32 sc.lpf_cutoff_rate) sc config lg g
