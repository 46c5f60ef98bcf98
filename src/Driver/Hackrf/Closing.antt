-- ===== src/Driver/Hackrf/Closing.antt =====
-- A HackRF of src/sdr/hackrf_device.c that cannot be started is closed.
use sdr_server.Prelude.{ℕ, ◌≡◌, refl, Bool, true, false, not, Option, none, some, arith}
use sdr_server.Prelude.Int.{ℤ, pos, eqb_ℤ}
use sdr_server.Config.{ServerConfig}
use sdr_server.Driver.Handles.{Handled, is_open, run_checked-opening}
use sdr_server.Driver.Hackrf.{
  HackrfCall, open_first, close, open_by_serial, closing, hackrf_calls, hackrf_device_start_rx,
}

abbrev pub opens : HackrfCall → Bool
opens open_first = true
opens (open_by_serial s) = true
opens _ = false

abbrev pub closes : HackrfCall → Bool
closes close = true
closes _ = false

abbrev pub bad : ℤ → Bool
bad code = not (eqb_ℤ code (pos 0))

closing-closed :
    (answer : HackrfCall → ℤ) (c : HackrfCall)
    → opens c ≡ false
    → is_open opens closes answer bad true (closing c) ≡ false
closing-closed answer c e = ground arith

-- Whatever libhackrf answers, a HackRF that has started is open, and one that has been refused has
-- been closed again, or was never opened.
hackrf_device_start_rx-Handled :
    (answer : HackrfCall → ℤ) (sc : ServerConfig) (band_freq : ℕ)
    → Handled opens closes answer bad (hackrf_device_start_rx answer sc band_freq)
unfolding hackrf_device_start_rx hackrf_calls
hackrf_device_start_rx-Handled answer sc band_freq = by_serial sc.device_serial refl
  where
    by_serial :
        (o : Option _)
        → sc.device_serial ≡ o
        → Handled opens closes answer bad (hackrf_device_start_rx answer sc band_freq)
    by_serial none e = rw e (
        run_checked-opening opens closes answer bad closing open_first _ refl refl refl
          (ground arith) (closing-closed answer))
    by_serial (some s) e = rw e (
        run_checked-opening opens closes answer bad closing (open_by_serial s) _ refl refl refl
          (ground arith) (closing-closed answer))
