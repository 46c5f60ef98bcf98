-- ===== src/Driver/Airspy.antt =====
-- src/sdr/airspy_device.c.
use sdr_server.Prelude.{ℕ, Bool, true, false, not, ◌&&◌, List, [], ◌∷◌, ◌++◌, if◌then◌else◌}
use sdr_server.Prelude.Int.{ℤ, pos, eqb_ℤ}
use sdr_server.Config.{ServerConfig}
use sdr_server.Driver.{Startup, started, refused, run_checked}

pub data AirspyCall : Type 0 where
  open_device close stop start : AirspyCall
  set_sample_type set_packing set_lna_agc set_mixer_agc : ℕ → AirspyCall
  set_samplerate set_freq : ℕ → AirspyCall
  set_rf_bias set_sensitivity_gain set_linearity_gain : ℤ → AirspyCall
  set_vga_gain set_mixer_gain set_lna_gain : ℤ → AirspyCall

-- AIRSPY_SAMPLE_INT16_IQ
abbrev int16_iq : ℕ
int16_iq = 2

abbrev not_zero : ℤ → Bool
not_zero code = not (eqb_ℤ code (pos 0))

-- `left_open`: whether the handle is set behind an open that fails. `airspy_device_stop_rx` leaves
-- that of an earlier reception there.
module _ (answer : AirspyCall → ℤ) (left_open : Bool) where
  abbrev checked : AirspyCall → AirspyCall × ℤ
  checked c = (c, answer c)

  pub setup_calls : ServerConfig → List (AirspyCall × ℤ)
  setup_calls sc =
      checked open_device
      ∷ checked (set_sample_type int16_iq)
      ∷ checked (set_samplerate sc.band_sampling_rate)
      ∷ checked (set_packing 1)
      ∷ checked (set_rf_bias sc.rtl.bias_t)
      ∷ []

  -- The switch on the gain mode, but for its default.
  pub gain_calls : ServerConfig → List (AirspyCall × ℤ)
  gain_calls sc =
      if eqb_ℤ sc.airspy.gain_mode (pos 1)
      then checked (set_sensitivity_gain sc.airspy.sensitivity_gain) ∷ []
      else if eqb_ℤ sc.airspy.gain_mode (pos 2)
      then checked (set_linearity_gain sc.airspy.linearity_gain) ∷ []
      else if eqb_ℤ sc.airspy.gain_mode (pos 0)
      then checked (set_lna_agc 1) ∷ checked (set_mixer_agc 1) ∷ []
      else checked (set_vga_gain sc.airspy.vga_gain)
        ∷ checked (set_mixer_gain sc.airspy.mixer_gain)
        ∷ checked (set_lna_gain sc.airspy.lna_gain)
        ∷ []

  -- ERROR_CHECK closes the device if there is a handle.
  abbrev pub closing : AirspyCall → List AirspyCall
  closing open_device = if left_open then close ∷ [] else []
  closing c = close ∷ []

  abbrev pub known_mode : ServerConfig → Bool
  known_mode sc =
      let m = sc.airspy.gain_mode in
      not (
        not (eqb_ℤ m (pos 0))
        && (not (eqb_ℤ m (pos 1)) && (not (eqb_ℤ m (pos 2)) && not (eqb_ℤ m (pos 3)))))

  -- `freed`: an unknown gain mode destroys the plugin, with the device open, and returns 1.
  pub data AirspyStart : Type 0 where
    finished : Startup AirspyCall → AirspyStart
    freed : List AirspyCall → AirspyStart

  start_reception : Startup AirspyCall → Startup AirspyCall
  start_reception (started log) =
      if not_zero (answer start)
      then refused (answer start) (log ++ (start ∷ []))
      else started (log ++ (start ∷ []))
  start_reception (refused code log) = refused code log

  after_setup : ServerConfig → ℕ → Startup AirspyCall → AirspyStart
  after_setup sc band_freq (refused code log) = finished (refused code log)
  after_setup sc band_freq (started log) =
      if known_mode sc
      then finished (
          start_reception (
            run_checked not_zero closing (gain_calls sc ++ (checked (set_freq band_freq) ∷ []))
              log))
      else freed log

  pub airspy_device_start_rx : ServerConfig → ℕ → AirspyStart
  airspy_device_start_rx sc band_freq =
      after_setup sc band_freq (run_checked not_zero closing (setup_calls sc) [])

-- `airspy_device_stop_rx` on an open device: it is closed, but its handle stays.
pub airspy_device_stop_rx : Bool → List AirspyCall
airspy_device_stop_rx true = stop ∷ close ∷ []
airspy_device_stop_rx false = []
