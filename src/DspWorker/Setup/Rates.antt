-- ===== src/DspWorker/Setup/Rates.antt =====
-- src/dsp_worker.c, dsp_worker_start: the rates of a client and of the server give the low pass
-- arguments that it accepts, and more taps than samples are skipped.
use sdr_server.Prelude.{
  ℕ, zero, suc, ◌+◌, ◌*◌, ◌/◌, ◌%◌, ◌^◌, ◌≤◌, ◌<◌, ◌≡◌, false, some, ◌==◌, lt_or_ge, inl, inr,
  arith,
}
use sdr_server.Config.{ServerConfig}
use sdr_server.Wire.{Request}
use sdr_server.Server.{ClientConfig, configure}
use sdr_server.Lpf.{Floats, compute_ntaps}
use sdr_server.Lpf.Count.{Sane}

-- What the code relies on of IEEE conversions and products: rounding keeps the order and commutes
-- with doubling, and 53 / 22 of the ratio is not rounded below 12 / 5 of it.
pub record IsIeee (f : Floats) : Type 0 where
  pub monotone : (m n : ℕ) → m ≤ n → f.to_float m ≤ f.to_float n
  pub doubles : (n : ℕ) → f.to_float (2 * n) ≡ 2 * f.to_float n
  pub ratio : (s t : ℕ) → 0 < t → s < 2 ^ 29 * t → 12 * s ≤ 5 * (t * (f.quotient s t + 1))

scaled_le : (a b n : ℕ) → a ≤ b → a * n ≤ b * n
scaled_le a b n h = grind arith

outnumbers :
    (k rate width q : ℕ)
    → 12 * (k * rate) ≤ 5 * (width * (q + 1))
    → width ≤ rate
    → 0 < k
    → 0 < rate
    → k ≤ q
outnumbers k rate width q h le hk hr = elim (lt_or_ge q k) [
  | inr done ↦ done
  | inl less ↦ absurd (
      omega (
        arith,
        scaled_le width rate (q + 1) le,
        scaled_le (q + 1) k rate (omega arith),
        scaled_le 1 k rate hk,
      ))
]

module _ (f : Floats) (ieee : IsIeee f) where
  -- Half the client's rate is a cutoff that the low pass accepts.
  pub rate-Sane :
      (band rate width : ℕ) → 1 < rate → rate ≤ band → 0 < width → Sane f band (rate / 2) width
  rate-Sane band rate width h h' w = (
    omega arith,
    omega arith,
    omega (arith, ieee.doubles (rate / 2), ieee.monotone (2 * (rate / 2)) band (omega arith)),
    w,
  )

  -- The taps outnumber the decimation.
  pub decimation-le :
      (band rate width k : ℕ)
      → k * rate ≡ band
      → 0 < k
      → 0 < rate
      → 0 < width
      → width ≤ rate
      → band < 2 ^ 29 * width
      → k ≤ compute_ntaps f band width
  unfolding compute_ntaps
  decimation-le band rate width k e hk hr w le small = ground (
    arith,
    outnumbers k rate width (f.quotient band width) (rw (e) (ieee.ratio band width w small)) le hk
        hr,
  )

pub pos→ne_zero : (n : ℕ) → 0 < n → (n == 0) ≡ false
pos→ne_zero n h = ground arith

-- The quotient by a divisor.
pub exact_quotient : (band rate : ℕ) → 0 < rate → band % rate ≡ 0 → band / rate * rate ≡ band
exact_quotient band rate h e = grind arith

pub configured_divides :
    (socket : ℕ) (sc : ServerConfig) (r : Request) (config : ClientConfig)
    → configure socket sc r ≡ some config
    → 0 < config.sampling_rate
    → sc.band_sampling_rate % config.sampling_rate ≡ 0
unfolding configure
configured_divides socket sc r config e h = ground arith

pub quotient_pos : (a k : ℕ) → 0 < k → k ≤ a → 0 < a / k
quotient_pos a k h h' = grind arith

pub quotient_le : (a k : ℕ) → 0 < k → a / k ≤ a
quotient_le a k h = grind arith

pub divisor_le : (band rate k : ℕ) → k * rate ≡ band → 0 < band → (0 < k) × (rate ≤ band)
divisor_le band rate zero e h = absurd (omega arith)
divisor_le band rate (suc k) e h = (omega arith, grind arith)
