-- ===== src/Config/Loading.antt =====
-- src/config.c: the functions that read the settings, and `create_server_config`.
use Prim.Native.String.{String}
use text.Mathlib.Text.{◌==◌ as str_eq}
use sdr_server.Prelude.{ℕ, Bool, true, ◌&&◌, ◌||◌, not, Option, none, some, if◌then◌else◌, ◌==◌}
use sdr_server.Prelude.Int.{ℤ, pos, ltb_ℤ, eqb_ℤ}
use sdr_server.Config.{
  sdr_type_airspy, CpuOptimization, native_cf32, optimized_cf32, RtlSettings, AirspySettings,
  HackrfSettings, MsisdrSettings, ServerConfig, Settings, Memory, invalid, no_memory, Outcome, ok,
  err, fault, ◌>>=◌, ◌>>◌, refuse_if, default, to_u32, to_u8, outside,
}

-- The copy of a string setting: NULL for a missing setting without a default, and where malloc
-- fails. The length of NULL is a fault.
unfoldable pub read_and_copy_str :
    Bool → Option (Option String) → Option String → Outcome (Option String)
read_and_copy_str memory none none = ok none
read_and_copy_str memory none (some d) = ok (if memory then some d else none)
read_and_copy_str memory (some none) d = fault
read_and_copy_str memory (some (some v)) d = ok (if memory then some v else none)

unfoldable pub config_parse_cpu_optimization : String → Option CpuOptimization
config_parse_cpu_optimization s =
    if str_eq s "NATIVE_CF32"
    then some native_cf32
    else if str_eq s "OPTIMIZED_CF32"
    then some optimized_cf32
    else none

abbrev pub airspy_buffer_size : ℕ
airspy_buffer_size = 262144

unfoldable pub or_no_memory : Option String → Outcome String
or_no_memory none = err no_memory
or_no_memory (some v) = ok v

module _ (s : Settings) where
  unfoldable pub config_read_int : String → ℤ → ℤ
  config_read_int name d = default (s.find_int name) d

  unfoldable pub config_read_float : String → s.Float → s.Float
  config_read_float name d = default (s.find_float name) d

  unfoldable pub config_read_bool : String → Bool → Bool
  config_read_bool name d = default (s.find_bool name) d

  unfoldable pub config_read_uint32_t : String → ℕ → ℕ
  config_read_uint32_t name d = elim (s.find_int name) [ none ↦ d | some v ↦ to_u32 v ]

  unfoldable pub read_rtl : RtlSettings
  unfolding config_read_int config_read_float
  read_rtl = record {
    bias_t = config_read_int "bias_t" (pos 0);
    gain_mode = config_read_int "gain_mode" (pos 0);
    gain = s.tenths (config_read_float "gain" s.float_zero);
    ppm = config_read_int "ppm" (pos 0);
  }

  unfoldable pub read_airspy : Outcome AirspySettings
  unfolding config_read_int
  read_airspy = do
    let mode = config_read_int "airspy_gain_mode" (pos 3)
    let vga = config_read_int "airspy_vga_gain" (pos 5)
    refuse_if (outside (pos 0) (pos 15) vga) invalid
    let mixer = config_read_int "airspy_mixer_gain" (pos 0)
    refuse_if (outside (pos 0) (pos 15) mixer) invalid
    let lna = config_read_int "airspy_lna_gain" (pos 1)
    refuse_if (outside (pos 0) (pos 14) lna) invalid
    let linearity = config_read_int "airspy_linearity_gain" (pos 0)
    refuse_if (outside (pos 0) (pos 21) linearity) invalid
    let sensitivity = config_read_int "airspy_sensitivity_gain" (pos 0)
    refuse_if (outside (pos 0) (pos 21) sensitivity) invalid
    ok (record {
      gain_mode = mode;
      vga_gain = vga;
      mixer_gain = mixer;
      lna_gain = lna;
      linearity_gain = linearity;
      sensitivity_gain = sensitivity;
    })

  unfoldable pub read_hackrf : Outcome HackrfSettings
  unfolding config_read_int
  read_hackrf = do
    let bias = to_u8 (config_read_int "hackrf_bias_t" (pos 0))
    let amp = config_read_int "hackrf_amp" (pos 0)
    refuse_if (ltb_ℤ (pos 1) amp) invalid
    let lna = config_read_int "hackrf_lna_gain" (pos 16)
    refuse_if (ltb_ℤ lna (pos 0) || ltb_ℤ (pos 40) lna) invalid
    let vga = config_read_int "hackrf_vga_gain" (pos 16)
    refuse_if (ltb_ℤ vga (pos 0) || ltb_ℤ (pos 62) vga) invalid
    ok (record { bias_t = bias; amp = amp; lna_gain = lna; vga_gain = vga })

  unfoldable pub read_msisdr : Outcome MsisdrSettings
  unfolding config_read_int config_read_uint32_t
  read_msisdr = do
    let mode = config_read_int "msisdr_gain_mode" (pos 1)
    let gain = config_read_int "msisdr_gain" (pos 40)
    refuse_if (ltb_ℤ gain (pos 0) || ltb_ℤ (pos 102) gain) invalid
    ok (record {
      gain_mode = mode;
      gain = gain;
      if_freq = config_read_int "msisdr_if_freq" (pos 0);
      bandwidth = config_read_uint32_t "msisdr_bandwidth" 0;
      hw_flavour = config_read_int "msisdr_hw_flavour" (pos 0);
    })

  -- Airspy delivers buffers of one size only.
  unfoldable pub read_buffer_size : ℤ → ℕ
  unfolding config_read_uint32_t
  read_buffer_size kind =
      let size = config_read_uint32_t "buffer_size" 262144 in
      if eqb_ℤ kind sdr_type_airspy && not (size == airspy_buffer_size)
      then airspy_buffer_size
      else size

  unfoldable pub read_band_sampling_rate : Outcome ℕ
  read_band_sampling_rate = elim (s.find_int "band_sampling_rate") [
    | none ↦ err invalid
    | some v ↦ ok (to_u32 v)
  ]

  unfoldable pub read_optimization : Outcome CpuOptimization
  unfolding config_parse_cpu_optimization
  read_optimization = elim (s.find_string "cpu_optimization") [
    | none ↦ ok native_cf32
    | some none ↦ fault
    | some (some v) ↦ elim (config_parse_cpu_optimization v) [ none ↦ err invalid | some o ↦ ok o ]
  ]

  -- The part of `create_server_config` behind the receiver settings.
  unfoldable pub read_service :
      Memory
      → ℤ
      → RtlSettings
      → AirspySettings
      → HackrfSettings
      → MsisdrSettings
      → Outcome ServerConfig
  unfolding config_read_int config_read_bool read_and_copy_str read_buffer_size
      read_band_sampling_rate read_optimization or_no_memory
  read_service m kind rtl airspy hackrf msisdr = do
    let queue = config_read_int "queue_size" (pos 64)
    refuse_if (ltb_ℤ queue (pos 1)) invalid
    rate ← read_band_sampling_rate
    let index = config_read_int "device_index" (pos 0)
    serial ← read_and_copy_str m.serial (s.find_string "device_serial") none
    let size = read_buffer_size kind
    let cutoff = config_read_int "lpf_cutoff_rate" (pos 5)
    copied ← read_and_copy_str m.address (s.find_string "bind_address") (some "127.0.0.1")
    address ← or_no_memory copied
    let port = config_read_int "port" (pos 8090)
    let seconds = config_read_int "read_timeout_seconds" (pos 5)
    refuse_if (ltb_ℤ seconds (pos 1)) invalid
    folder ← read_and_copy_str m.path (s.find_string "base_path") (some (default s.tmpdir "/tmp"))
    path ← or_no_memory folder
    let gzip = config_read_bool "use_gzip" true
    optimization ← read_optimization
    ok (record {
      bind_address = address;
      port = port;
      read_timeout_seconds = seconds;
      device_serial = serial;
      optimization = optimization;
      sdr_type = kind;
      device_index = index;
      rtl = rtl;
      airspy = airspy;
      hackrf = hackrf;
      msisdr = msisdr;
      buffer_size = size;
      band_sampling_rate = rate;
      queue_size = queue;
      lpf_cutoff_rate = cutoff;
      base_path = path;
      use_gzip = gzip;
    })

  unfoldable pub create_server_config : Memory → Outcome ServerConfig
  unfolding config_read_int read_rtl read_airspy read_hackrf read_msisdr read_service
  create_server_config m = do
    refuse_if (not m.config) no_memory
    refuse_if (not s.readable) invalid
    airspy ← read_airspy
    hackrf ← read_hackrf
    msisdr ← read_msisdr
    read_service m (config_read_int "sdr_type" (pos 0)) read_rtl airspy hackrf msisdr
