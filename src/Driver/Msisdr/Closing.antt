-- ===== src/Driver/Msisdr/Closing.antt =====
-- An MSi receiver of src/sdr/msisdr_device.c that cannot be started is closed.
use sdr_server.Prelude.{ℕ, ◌≡◌, refl, ◌∙◌, Bool, true, false, [], ◌∷◌, arith, Bool-cases, inl, inr}
use sdr_server.Prelude.Int.{ℤ, pos, eqb_ℤ, ltb_ℤ}
use sdr_server.Config.{ServerConfig, to_u32}
use sdr_server.Driver.{Startup, started, refused}
use sdr_server.Driver.Handles.{Handled, is_open, is_open-append, run_checked-opening}
use sdr_server.Driver.Msisdr.{
  MsisdrCall, close, create_thread, open_device, closing, msisdr_calls, start_thread,
  msisdr_device_start_rx,
}

abbrev pub opens : MsisdrCall → Bool
opens (open_device i) = true
opens _ = false

abbrev pub closes : MsisdrCall → Bool
closes close = true
closes _ = false

abbrev pub bad : ℤ → Bool
bad code = ltb_ℤ code (pos 0)

closing-closed :
    (answer : MsisdrCall → ℤ) (c : MsisdrCall)
    → opens c ≡ false
    → is_open opens closes answer bad true (closing c) ≡ false
closing-closed answer c e = ground arith

start_thread-Handled :
    (answer : MsisdrCall → ℤ) (r : Startup MsisdrCall)
    → Handled opens closes answer bad r
    → Handled opens closes answer bad (start_thread answer r)
unfolding start_thread
start_thread-Handled answer (refused code log) h = h
start_thread-Handled answer (started log) h =
    elim (Bool-cases (eqb_ℤ (answer create_thread) (pos 0))) [
      | inl e ↦ rw e (is_open-append opens closes answer bad false log (create_thread ∷ []) ∙ h)
      | inr e ↦ rw e (is_open-append opens closes answer bad false log (create_thread ∷ close ∷ []))
    ]

-- Whatever libmsisdr and pthread_create answer, an MSi receiver that has started is open, and one
-- that has been refused has been closed again, or was never opened.
msisdr_device_start_rx-Handled :
    (answer : MsisdrCall → ℤ) (sc : ServerConfig) (band_freq : ℕ)
    → Handled opens closes answer bad (msisdr_device_start_rx answer sc band_freq)
unfolding msisdr_device_start_rx msisdr_calls start_thread
msisdr_device_start_rx-Handled answer sc band_freq = start_thread-Handled answer _ (
    run_checked-opening opens closes answer bad closing (open_device (to_u32 sc.device_index)) _
      refl refl refl (ground arith) (closing-closed answer))
