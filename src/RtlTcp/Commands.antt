-- ===== src/RtlTcp/Commands.antt =====
-- The commands of src/rtltcp_server.c and the device that they tune.
use sdr_server.Prelude.{ℕ, ◌≤◌, ◌≡◌, refl, Bool, true, List, [], ◌∷◌, ◌++◌, arith, ◌/◌}
use sdr_server.Prelude.Int.{ℤ, pos}
use sdr_server.RtlTcp.{
  DeviceState, DeviceCall, rsp1a_gpio_init, reset_buffer, set_center_freq, set_sample_rate,
  set_hw_flavour, set_if_freq, set_bandwidth, set_tuner_gain_mode, set_tuner_gain,
  set_sample_format, min_rate, max_rate, clamp_rate, apply_command, run_commands, configure_calls,
  open_attempts, device_open_and_configure,
}

-- What a device has been told last.
pub record Tuning : Type 0 where
  pub freq : ℕ
  pub rate : ℕ
  pub mode : ℤ
  pub gain : ℤ

abbrev pub obey : DeviceCall → Tuning → Tuning
obey rsp1a_gpio_init t = t
obey reset_buffer t = t
obey (set_center_freq f) t = record t { freq = f }
obey (set_sample_rate r) t = record t { rate = r }
obey (set_hw_flavour n) t = t
obey (set_if_freq n) t = t
obey (set_bandwidth n) t = t
obey (set_tuner_gain_mode m) t = record t { mode = m }
obey (set_tuner_gain g) t = record t { gain = g }
obey (set_sample_format f) t = t

abbrev pub obey_all : List DeviceCall → Tuning → Tuning
obey_all [] t = t
obey_all (c ∷ cs) t = obey_all cs (obey c t)

obey_all-append :
    (cs ds : List DeviceCall) (t : Tuning) → obey_all (cs ++ ds) t ≡ obey_all ds (obey_all cs t)
obey_all-append [] ds t = refl
obey_all-append (c ∷ cs) ds t = obey_all-append cs ds (obey c t)

-- The server's record of an open device agrees with the device.
pub record Follows (s : DeviceState) (t : Tuning) : Type 0 where
  pub opened : s.opened ≡ true
  pub freq : t.freq ≡ s.center_freq
  pub rate : t.rate ≡ s.sample_rate
  pub mode : t.mode ≡ s.gain_mode

apply_command-Follows :
    (cmd param : ℕ) (s : DeviceState) (t : Tuning)
    → Follows s t
    → Follows (apply_command cmd param s).0 (obey_all (apply_command cmd param s).1 t)
unfolding apply_command
apply_command-Follows cmd param s t f = ground arith

run_commands-Follows :
    (cs : List (ℕ × ℕ)) (s : DeviceState) (t : Tuning)
    → Follows s t
    → Follows (run_commands cs s).0 (obey_all (run_commands cs s).1 t)
unfolding run_commands
run_commands-Follows [] s t f = f
run_commands-Follows ((cmd, param) ∷ cs) s t f =
    rw
      (obey_all-append (apply_command cmd param s).1
        (run_commands cs (apply_command cmd param s).0).1 t)
      (run_commands-Follows cs (apply_command cmd param s).0
        (obey_all (apply_command cmd param s).1 t) (apply_command-Follows cmd param s t f))

configured-Follows :
    (s : DeviceState) (t : Tuning)
    → Follows (record s { opened = true }) (obey_all (configure_calls s) t)
unfolding configure_calls
configured-Follows s t = record { opened = refl; freq = refl; rate = refl; mode = refl }

-- A device that one of the attempts opens, and that is configured and then tuned by any commands of
-- a single client, whose thread carries them out one after the other, was told last the frequency,
-- the rate and the gain mode that the server has on record.
pub device_open_and_configure-Follows :
    (stopping opens : ℕ → Bool) (s : DeviceState) (t : Tuning) (cs : List (ℕ × ℕ))
    → open_attempts 5 0 stopping opens ≡ true
    → let (s', calls) = device_open_and_configure stopping opens s in
      let (s₂, more) = run_commands cs s' in Follows s₂ (obey_all more (obey_all calls t))
unfolding device_open_and_configure
device_open_and_configure-Follows stopping opens s t cs e = rw e (
    run_commands-Follows cs (record s { opened = true }) (obey_all (configure_calls s) t)
      (configured-Follows s t))

abbrev pub InLimits : DeviceState → Type 0
InLimits s = (min_rate ≤ s.sample_rate) × (s.sample_rate ≤ max_rate)

apply_command-InLimits :
    (cmd param : ℕ) (s : DeviceState) → InLimits s → InLimits (apply_command cmd param s).0
unfolding apply_command clamp_rate
apply_command-InLimits cmd param s l = ground (arith, l)

-- Commands keep a rate on record that is within the limits of the device within them, whatever
-- rates they request.
pub run_commands-InLimits :
    (cs : List (ℕ × ℕ)) (s : DeviceState) → InLimits s → InLimits (run_commands cs s).0
unfolding run_commands
run_commands-InLimits [] s l = l
run_commands-InLimits ((cmd, param) ∷ cs) s l =
    run_commands-InLimits cs (apply_command cmd param s).0 (apply_command-InLimits cmd param s l)

-- A gain that is set in automatic mode does not reach the device when manual mode is switched on:
-- the server has it on record, and the device has the gain that it had.
pub run_commands_gain :
    (s : DeviceState) (t : Tuning) (param : ℕ)
    → s.gain_mode ≡ pos 0
    → ((run_commands ((4, param) ∷ (3, 1) ∷ []) s).0.gain ≡ pos (param / 10))
      × ((run_commands ((4, param) ∷ (3, 1) ∷ []) s).0.gain_mode ≡ pos 1)
      × ((obey_all (run_commands ((4, param) ∷ (3, 1) ∷ []) s).1 t).gain ≡ t.gain)
unfolding run_commands apply_command
run_commands_gain s t param e = (refl, refl, ground arith)
