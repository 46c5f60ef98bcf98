-- ===== src/Driver/Hackrf.antt =====
-- src/sdr/hackrf_device.c.
pub mod Closing
use Prim.Native.String.{String}
use sdr_server.Prelude.{ℕ, Bool, true, false, not, none, some, List, [], ◌∷◌}
use sdr_server.Prelude.Int.{ℤ, pos, eqb_ℤ}
use sdr_server.Config.{ServerConfig}
use sdr_server.Driver.{Startup, run_checked}

pub data HackrfCall : Type 0 where
  open_first stop close version usb_version start : HackrfCall
  open_by_serial : String → HackrfCall
  set_freq set_sample_rate set_bandwidth set_antenna_enable : ℕ → HackrfCall
  set_amp_enable set_lna_gain set_vga_gain : ℤ → HackrfCall

-- `hackrf_device_stop_rx`, by whether there is a handle.
unfoldable pub hackrf_device_stop_rx : Bool → List HackrfCall
hackrf_device_stop_rx true = stop ∷ close ∷ []
hackrf_device_stop_rx false = []

-- ERROR_CHECK stops the reception: a call that fails to open has set no handle.
abbrev pub closing : HackrfCall → List HackrfCall
closing open_first = []
closing (open_by_serial s) = []
closing c = stop ∷ close ∷ []

module _ (answer : HackrfCall → ℤ) where
  abbrev checked : HackrfCall → HackrfCall × ℤ
  checked c = (c, answer c)

  pub hackrf_calls : ServerConfig → ℕ → List (HackrfCall × ℤ)
  hackrf_calls sc band_freq =
      elim sc.device_serial [ some s ↦ checked (open_by_serial s) | none ↦ checked open_first ]
      ∷ checked version
      ∷ checked usb_version
      ∷ checked (set_freq band_freq)
      ∷ checked (set_sample_rate sc.band_sampling_rate)
      ∷ checked (set_bandwidth sc.band_sampling_rate)
      ∷ checked (set_amp_enable sc.hackrf.amp)
      ∷ checked (set_lna_gain sc.hackrf.lna_gain)
      ∷ checked (set_vga_gain sc.hackrf.vga_gain)
      ∷ checked (set_antenna_enable sc.hackrf.bias_t)
      ∷ checked start
      ∷ []

  unfoldable pub hackrf_device_start_rx : ServerConfig → ℕ → Startup HackrfCall
  hackrf_device_start_rx sc band_freq =
      run_checked (λ code. not (eqb_ℤ code (pos 0))) closing (hackrf_calls sc band_freq) []
