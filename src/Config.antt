-- ===== src/Config.antt =====
-- src/config.h and src/config.c: the server's configuration, read by libconfig.
-- libconfig, the environment and malloc are parameters: a `Settings` value says what each lookup
-- finds, `Memory` which allocations succeed.
use Prim.Native.String.{String}
use text.Mathlib.Text.{◌==◌ as str_eq}
use sdr_server.Prelude.{
  ℕ, ◌-◌, ◌%◌, ◌≡◌, refl, Bool, true, false, ◌&&◌, ◌||◌, not, Option, none, some, if◌then◌else◌,
  u32_mod, ◌==◌,
}
use sdr_server.Prelude.Int.{ℤ, pos, negsuc, ltb_ℤ, eqb_ℤ}
pub mod Ledger
pub mod Loading
pub mod Ranges

-- `enum sdr_type_t` is kept as the `int` that was read: a `switch` on it has a default.
abbrev pub sdr_type_rtl : ℤ
sdr_type_rtl = pos 0

abbrev pub sdr_type_airspy : ℤ
sdr_type_airspy = pos 1

abbrev pub sdr_type_hackrf : ℤ
sdr_type_hackrf = pos 2

abbrev pub sdr_type_msi : ℤ
sdr_type_msi = pos 3

pub data CpuOptimization : Type 0 where
  native_cf32 optimized_cf32 : CpuOptimization

-- The receiver settings of `struct server_config`, a record for each kind of hardware.
pub record RtlSettings : Type 0 where
  pub bias_t : ℤ
  pub gain_mode : ℤ
  pub gain : ℤ
  pub ppm : ℤ

pub record AirspySettings : Type 0 where
  pub gain_mode : ℤ
  pub vga_gain : ℤ
  pub mixer_gain : ℤ
  pub lna_gain : ℤ
  pub linearity_gain : ℤ
  pub sensitivity_gain : ℤ

pub record HackrfSettings : Type 0 where
  pub bias_t : ℕ
  pub amp : ℤ
  pub lna_gain : ℤ
  pub vga_gain : ℤ

pub record MsisdrSettings : Type 0 where
  pub gain_mode : ℤ
  pub gain : ℤ
  pub if_freq : ℤ
  pub bandwidth : ℕ
  pub hw_flavour : ℤ

pub record ServerConfig : Type 0 where
  pub bind_address : String
  pub port : ℤ
  pub read_timeout_seconds : ℤ
  pub device_serial : Option String
  pub optimization : CpuOptimization
  pub sdr_type : ℤ
  pub device_index : ℤ
  pub rtl : RtlSettings
  pub airspy : AirspySettings
  pub hackrf : HackrfSettings
  pub msisdr : MsisdrSettings
  pub buffer_size : ℕ
  pub band_sampling_rate : ℕ
  pub queue_size : ℤ
  pub lpf_cutoff_rate : ℤ
  pub base_path : String
  pub use_gzip : Bool

-- What libconfig and the environment answer. A string setting that holds no string reads as
-- NULL, an inner `none`. `tenths x` is C's `(int)(x * 10)`.
pub record Settings : Type 1 where
  pub Float : Type 0
  pub float_zero : Float
  pub tenths : Float → ℤ
  pub readable : Bool
  pub find_int : String → Option ℤ
  pub find_float : String → Option Float
  pub find_bool : String → Option Bool
  pub find_string : String → Option (Option String)
  pub tmpdir : Option String

-- Whether each of the four allocations of `create_server_config` succeeds.
pub record Memory : Type 0 where
  pub config : Bool
  pub serial : Bool
  pub address : Bool
  pub path : Bool

-- `fault`: the process dies in strlen or strcmp of NULL.
pub data Error : Type 0 where
  invalid no_memory : Error

pub data Outcome {ℓ} (A : Type ℓ) : Type ℓ where
  ok : A → Outcome A
  err : Error → Outcome A
  fault : Outcome A

infixl 5 ◌>>=◌ ◌>>◌
abbrev pub ◌>>=◌ {ℓ κ} : {A : Type ℓ} {B : Type κ} → Outcome A → (A → Outcome B) → Outcome B
fault >>= next = fault
err why >>= next = err why
ok value >>= next = next value

abbrev pub ◌>>◌ {ℓ} : {B : Type ℓ} → Outcome (Unit {0}) → Outcome B → Outcome B
first >> second = first >>= (λ done. second)

-- `if (bad) { ...; return -1; }`
abbrev pub refuse_if : Bool → Error → Outcome (Unit {0})
refuse_if true e = err e
refuse_if false e = ok tt

-- A chain that succeeds did so at each step.
pub >>=-eq-ok {ℓ κ} :
    {B : Type ℓ} {A : Type κ} (m : Outcome A) (next : A → Outcome B) {result : B}
    → (m >>= next) ≡ ok result
    → (value : A) × (m ≡ ok value) × (next value ≡ ok result)
>>=-eq-ok fault next e = cc
>>=-eq-ok (err why) next e = cc
>>=-eq-ok (ok value) next e = (value, refl, e)

abbrev pub default {ℓ} : {A : Type ℓ} → Option A → A → A
default none d = d
default (some a) d = a

-- C's conversions of an `int` to `uint32_t` and to `uint8_t`.
abbrev pub to_u32 : ℤ → ℕ
to_u32 (pos n) = n % u32_mod
to_u32 (negsuc n) = u32_mod - 1 - n % u32_mod

abbrev pub to_u8 : ℤ → ℕ
to_u8 (pos n) = n % 256
to_u8 (negsuc n) = 255 - n % 256

-- `value > hi || value < lo`
abbrev pub outside : ℤ → ℤ → ℤ → Bool
outside lo hi v = ltb_ℤ hi v || ltb_ℤ v lo
