-- ===== src/DspWorker/Setup/Ready.antt =====
-- src/dsp_worker.c, dsp_worker_start: the filter of an accepted request.
use sdr_server.Prelude.{
  ℕ, ◌+◌, ◌*◌, ◌/◌, ◌%◌, ◌^◌, ◌≤◌, ◌<◌, ◌≡◌, refl, ap, ◌∙◌, subst, true, none, List, length, map,
  replicate, ◌-◌, arith,
}
use sdr_server.Prelude.Int.{ℤ, pos, sub_ℕ}
use sdr_server.Config.{ServerConfig, to_u32}
use sdr_server.Server.{ClientConfig}
use sdr_server.Lpf as Lpf
use sdr_server.Lpf.{Floats, create_low_pass_filter, made}
use sdr_server.Lpf.Shape.{
  indices, length-map-indices, low_pass_tap, compute_ntaps-half, create_low_pass_filter-made,
}
use sdr_server.Xlating.Taps.{Complex}
use sdr_server.Xlating.Cf32 as Cf32
use sdr_server.Xlating.Cf32.{FilterCf32}
use sdr_server.Xlating.Cs16.{to_i32}
use sdr_server.Xlating.Refine.{history}
use sdr_server.Xlating.Create as Create
use sdr_server.Xlating.Create.{
  Tuning, Filters, Creation, memory_refused, create_frequency_xlating_filter,
}
use sdr_server.Xlating.Create.Band.{band_taps, bpf-band}
use sdr_server.Xlating.Create.Ready.{create_frequency_xlating_filter-IsMade}
use sdr_server.DspWorker.Setup.{setup_filter, setup_for, ready, tuned}
use sdr_server.DspWorker.Setup.Rates.{
  IsIeee, rate-Sane, decimation-le, pos→ne_zero, exact_quotient, quotient_pos, quotient_le,
  divisor_le,
}

module _ (f : Floats) (c : Complex)
    (tuning : (offset : ℤ) (sampling_freq decimation : ℕ) → Tuning f.Float c) (one : f.Float) where
  -- The number of taps is odd: so many stand on either side of the one in the middle.
  abbrev pub half_of : (k : ℕ) → ServerConfig → ClientConfig → ℕ
  half_of k sc config = f.quotient sc.band_sampling_rate (config.sampling_rate / k) / 2

  -- The tuning to the client's frequency, whose distance from the device's is an `int32_t`.
  abbrev pub client_tuning : ServerConfig → ClientConfig → Tuning f.Float c
  client_tuning sc config =
      tuning (to_i32 (sub_ℕ config.center_freq config.band_freq)) sc.band_sampling_rate
        (sc.band_sampling_rate / config.sampling_rate)

  -- The taps of the client's filter, one by one: the low pass up to half the client's rate, moved
  -- to the client's frequency.
  abbrev pub client_taps : (k : ℕ) → ServerConfig → ClientConfig → List c.Sample
  client_taps k sc config =
      band_taps c (client_tuning sc config) (half_of k sc config)
        (low_pass_tap f one sc.band_sampling_rate (config.sampling_rate / 2) (half_of k sc config))

  -- A filter that has these taps, fits every buffer of the server, decimates by the exact ratio of
  -- the rates and starts from silence, with the phases of the client's frequency.
  pub record ForClient (k : ℕ) (sc : ServerConfig) (config : ClientConfig) (filter : FilterCf32 c)
      : Type 0 where
    pub made : Cf32.IsMade c (sc.buffer_size / 2) (client_taps k sc config) filter
    pub ratio : filter.state.decimation * config.sampling_rate ≡ sc.band_sampling_rate
    pub decimation : filter.state.decimation ≡ sc.band_sampling_rate / config.sampling_rate
    pub quiet : history filter.state ≡ replicate (2 * half_of k sc config) c.zero
    pub phase : filter.state.phase ≡ (client_tuning sc config).phase_one
    pub phase_incr : filter.phase_incr ≡ (client_tuning sc config).phase_incr

module _ (f : Floats) (ieee : IsIeee f) (c : Complex)
    (tuning : (offset : ℤ) (sampling_freq decimation : ℕ) → Tuning f.Float c) (one : f.Float) where
  set_up_for :
      (sc : ServerConfig) (config : ClientConfig) (lg : Lpf.Grants) (g : Create.Grants)
      (taps : List f.Float) (len : ℕ) (filters : Filters c) (k : ℕ)
      → 0 < k
      → 0 < config.sampling_rate
      → create_low_pass_filter f one sc.band_sampling_rate
          (config.sampling_rate / 2)
          (config.sampling_rate / k)
          lg
        ≡ made taps len
      → create_frequency_xlating_filter c
          (tuned f c tuning one sc config)
          (sc.band_sampling_rate / config.sampling_rate)
          taps
          sc.buffer_size
          g
        ≡ Create.created filters
      → setup_for f c tuning one k sc config lg g ≡ ready filters
  unfolding setup_for
  set_up_for sc config lg g taps len filters k hk hr low_pass filter =
      rw (pos→ne_zero k hk, low_pass, pos→ne_zero config.sampling_rate hr, filter) refl

  set_up :
      (sc : ServerConfig) (config : ClientConfig) (lg : Lpf.Grants) (g : Create.Grants)
      (taps : List f.Float) (len : ℕ) (filters : Filters c) (k : ℕ)
      → to_u32 sc.lpf_cutoff_rate ≡ k
      → 0 < k
      → 0 < config.sampling_rate
      → create_low_pass_filter f one sc.band_sampling_rate
          (config.sampling_rate / 2)
          (config.sampling_rate / k)
          lg
        ≡ made taps len
      → create_frequency_xlating_filter c
          (tuned f c tuning one sc config)
          (sc.band_sampling_rate / config.sampling_rate)
          taps
          sc.buffer_size
          g
        ≡ Create.created filters
      → setup_filter f c tuning one sc config lg g ≡ ready filters
  unfolding setup_filter
  set_up sc config lg g taps len filters k e hk hr low_pass filter =
      ap (λ n. setup_for f c tuning one n sc config lg g) e
      ∙ set_up_for sc config lg g taps len filters k hk hr low_pass filter

  to_u32_pos : (z : ℤ) (k : ℕ) → z ≡ pos k → k < 2 ^ 32 → to_u32 z ≡ k
  to_u32_pos z k e h = rw e (omega arith)

  -- With all memory granted, a client's rate that divides the server's, is at least two and no less
  -- than the cutoff rate of the configuration, rates that are so close that the number of taps is an
  -- `int`, and floats that round as IEEE says, a worker gets the filter for its client.
  pub setup_filter-Ready :
      (k : ℕ) (sc : ServerConfig) (config : ClientConfig) (g : Create.Grants)
      → sc.band_sampling_rate % config.sampling_rate ≡ 0
      → 1 < config.sampling_rate
      → 0 < sc.band_sampling_rate
      → sc.lpf_cutoff_rate ≡ pos k
      → 0 < k
      → k < 2 ^ 32
      → k ≤ config.sampling_rate
      → sc.band_sampling_rate < 2 ^ 29 * (config.sampling_rate / k)
      → memory_refused g ≡ none
      → (filters : Filters c) × (setup_filter f c tuning one sc config
            (record { gives_taps = true; gives_window = true })
            g
          ≡ ready filters)
        × ForClient f c tuning one k sc config filters.cf32
  setup_filter-Ready k sc config g divides rate band cutoff hk hk' le small granted =
      let width : ℕ = config.sampling_rate / k in
      let half : ℕ = half_of f c tuning one k sc config in
      let decimation : ℕ = sc.band_sampling_rate / config.sampling_rate in
      let exact : decimation * config.sampling_rate ≡ sc.band_sampling_rate =
        exact_quotient sc.band_sampling_rate config.sampling_rate (omega arith) divides in
      let (forward, below) =
        divisor_le sc.band_sampling_rate config.sampling_rate decimation exact band in
      let w : 0 < width = quotient_pos config.sampling_rate k hk le in
      let tap : ℕ → f.Float =
        low_pass_tap f one sc.band_sampling_rate (config.sampling_rate / 2) half in
      let taps : List f.Float = map tap (indices 0 (2 * half + 1)) in
      let low_pass =
        create_low_pass_filter-made f one sc.band_sampling_rate (config.sampling_rate / 2) width
          (rate-Sane f ieee sc.band_sampling_rate config.sampling_rate width rate below w) in
      let l : length taps ≡ 2 * half + 1 = length-map-indices tap 0 (2 * half + 1) in
      let (filters, filter, made_cf32, made_cs16, quiet, quiet', d, d', phase, incr) =
        create_frequency_xlating_filter-IsMade c (tuned f c tuning one sc config) decimation taps
          sc.buffer_size g granted forward
          (omega (
            arith,
            l,
            compute_ntaps-half f sc.band_sampling_rate width,
            decimation-le f ieee sc.band_sampling_rate config.sampling_rate width decimation exact
                forward (omega arith) w (quotient_le config.sampling_rate k hk) small,
          )) in
      (
        filters,
        set_up sc config (record { gives_taps = true; gives_window = true }) g taps (2 * half + 1)
            filters k (to_u32_pos sc.lpf_cutoff_rate k cutoff hk') hk (omega arith) low_pass filter,
        record {
          made =
              subst (λ ts. Cf32.IsMade c (sc.buffer_size / 2) ts filters.cf32)
                (bpf-band c (client_tuning f c tuning one sc config) half tap) made_cf32;
          ratio = ap (λ n. n * config.sampling_rate) d ∙ exact;
          decimation = d;
          quiet = quiet ∙ ap (λ n. replicate n c.zero) {x = length taps - 1} (omega (arith, l));
          phase = phase;
          phase_incr = incr;
        },
      )
