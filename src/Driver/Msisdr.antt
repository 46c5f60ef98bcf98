-- ===== src/Driver/Msisdr.antt =====
-- src/sdr/msisdr_device.c. The library of third_party/libmsisdr is a parameter.
pub mod Closing
pub mod Reading
use Prim.Native.String.{String}
use sdr_server.Prelude.{ℕ, Bool, true, false, List, [], ◌∷◌, ◌++◌, if◌then◌else◌, ltb}
use sdr_server.Prelude.Int.{ℤ, pos, eqb_ℤ, ltb_ℤ, neg_part, pos_part, sub_ℕ}
use sdr_server.Config.{ServerConfig, to_u32}
use sdr_server.Driver.{Startup, started, refused, run_checked}

pub data MsisdrCall : Type 0 where
  close cancel_async join_thread create_thread reset_buffer rsp1a_gpio_init : MsisdrCall
  open_device set_hw_flavour set_if_freq set_bandwidth set_sample_rate set_center_freq :
      ℕ → MsisdrCall
  set_sample_format : String → MsisdrCall
  set_tuner_gain_mode set_tuner_gain : ℤ → MsisdrCall

abbrev closing : MsisdrCall → List MsisdrCall
closing (open_device i) = []
closing c = close ∷ []

module _ (answer : MsisdrCall → ℤ) where
  abbrev checked : MsisdrCall → MsisdrCall × ℤ
  checked c = (c, answer c)

  -- The answer of `rsp1a_gpio_init` is not looked at, so it counts as good.
  pub msisdr_calls : ServerConfig → ℕ → List (MsisdrCall × ℤ)
  msisdr_calls sc band_freq =
      checked (open_device (to_u32 sc.device_index))
      ∷ checked (set_hw_flavour 0)
      ∷ ((if eqb_ℤ sc.msisdr.hw_flavour (pos 1) then (rsp1a_gpio_init, pos 0) ∷ [] else [])
          ++ (checked (set_sample_format "504_S16")
              ∷ checked (
                  set_if_freq
                    (if ltb_ℤ sc.msisdr.if_freq (pos 0) then 0 else to_u32 sc.msisdr.if_freq))
              ∷ checked (
                  set_bandwidth
                    (if ltb 0 sc.msisdr.bandwidth then sc.msisdr.bandwidth else 8000000))
              ∷ checked (set_sample_rate sc.band_sampling_rate)
              ∷ checked (set_center_freq band_freq)
              ∷ checked (set_tuner_gain_mode sc.msisdr.gain_mode)
              ∷ ((if eqb_ℤ sc.msisdr.gain_mode (pos 1)
                    then checked (set_tuner_gain sc.msisdr.gain) ∷ []
                    else [])
                  ++ (checked reset_buffer ∷ []))))

  -- A thread that cannot be created closes the device.
  start_thread : Startup MsisdrCall → Startup MsisdrCall
  start_thread (refused code log) = refused code log
  start_thread (started log) =
      if eqb_ℤ (answer create_thread) (pos 0)
      then started (log ++ (create_thread ∷ []))
      else refused (sub_ℕ (neg_part (answer create_thread)) (pos_part (answer create_thread)))
          (log ++ (create_thread ∷ close ∷ []))

  -- ERROR_CHECK takes negative codes only.
  pub msisdr_device_start_rx : ServerConfig → ℕ → Startup MsisdrCall
  msisdr_device_start_rx sc band_freq =
      start_thread (run_checked (λ code. ltb_ℤ code (pos 0)) closing (msisdr_calls sc band_freq) [])

-- `msisdr_device_stop_rx`, by whether the device is open.
pub msisdr_device_stop_rx : Bool → List MsisdrCall
msisdr_device_stop_rx false = []
msisdr_device_stop_rx true = cancel_async ∷ join_thread ∷ close ∷ []
