-- ===== src/RtlTcp.antt =====
-- src/rtltcp_server.c: the rtl_tcp server for MSi receivers. Its commands, the conversion of
-- its samples and its table of clients; the correction of the samples' mean works on floats.
pub mod Commands
pub mod Samples
pub mod Slots
pub mod Streaming
pub mod Program
pub mod Joining
pub mod Startup
use Prim.Native.String.{String}
use sdr_server.Prelude.{
  ℕ, zero, suc, ◌+◌, ◌-◌, ◌/◌, ◌^◌, Bool, true, false, not, ◌&&◌, List, [], ◌∷◌, ◌++◌, ltb, ◌==◌,
  if◌then◌else◌, u32_mod,
}
use sdr_server.Prelude.Int.{ℤ, pos, negsuc, eqb_ℤ}

-- `device_state_t`, with whether there is a device in place of its handle.
pub record DeviceState : Type 0 where
  pub opened : Bool
  pub center_freq : ℕ
  pub sample_rate : ℕ
  pub gain_mode : ℤ
  pub gain : ℤ

pub data DeviceCall : Type 0 where
  rsp1a_gpio_init reset_buffer : DeviceCall
  set_center_freq set_sample_rate set_hw_flavour set_if_freq set_bandwidth : ℕ → DeviceCall
  set_tuner_gain_mode set_tuner_gain : ℤ → DeviceCall
  set_sample_format : String → DeviceCall

-- C's conversion of a `uint32_t` to an `int`.
abbrev pub to_int : ℕ → ℤ
to_int n = if ltb n (2 ^ 31) then pos n else negsuc (u32_mod - n - 1)

abbrev pub min_rate : ℕ
min_rate = 1300000

abbrev pub max_rate : ℕ
max_rate = 15000000

-- The rate that is applied for a requested one.
unfoldable pub clamp_rate : ℕ → ℕ
clamp_rate param =
    let applied = if ltb param min_rate then min_rate else param in
    if ltb max_rate applied then max_rate else applied

abbrev pub with_device : DeviceState → DeviceCall → List DeviceCall
with_device s c = if s.opened then c ∷ [] else []

-- The switch of `client_cmd_thread`: the state after a command, and the calls of the library.
unfoldable pub apply_command : (cmd param : ℕ) → DeviceState → DeviceState × List DeviceCall
apply_command cmd param s =
    if cmd == 1
    then (record s { center_freq = param }, with_device s (set_center_freq param))
    else if cmd == 2
    then (if not (param == s.sample_rate) && s.opened
        then (record s { sample_rate = clamp_rate param }, set_sample_rate (clamp_rate param) ∷ [])
        else (s, []))
    else if cmd == 3
    then (record s { gain_mode = to_int param }, with_device s (set_tuner_gain_mode (to_int param)))
    else if cmd == 4
    then (
      record s { gain = pos (param / 10) },
      if s.opened && eqb_ℤ s.gain_mode (pos 1) then set_tuner_gain (pos (param / 10)) ∷ [] else [],
    )
    else if cmd == 8
    then (
      record s { gain_mode = if param == 0 then pos 1 else pos 0 },
      with_device s (set_tuner_gain_mode (if param == 0 then pos 1 else pos 0)),
    )
    else (s, [])

-- The commands that one client's thread carries out, in their order. Those of several clients, whose
-- threads take no lock, are this as long as no two of them overlap.
unfoldable pub run_commands : List (ℕ × ℕ) → DeviceState → DeviceState × List DeviceCall
run_commands [] s = (s, [])
run_commands ((cmd, param) ∷ cs) s =
    let (s', calls) = apply_command cmd param s in
    let (s₂, more) = run_commands cs s' in (s₂, calls ++ more)

-- The attempts of `device_open_and_configure`, at most `left` of them: whether one succeeds.
unfoldable pub open_attempts : (left attempt : ℕ) → (stopping opens : ℕ → Bool) → Bool
open_attempts zero att stopping opens = false
open_attempts (suc l) att stopping opens =
    let later = open_attempts l (suc att) stopping opens in
    if stopping att then false else if opens att then true else later

-- The calls that configure a device that has just been opened; their answers are ignored.
unfoldable pub configure_calls : DeviceState → List DeviceCall
configure_calls s =
    rsp1a_gpio_init
    ∷ set_hw_flavour 0
    ∷ set_sample_format "AUTO"
    ∷ set_if_freq 0
    ∷ set_bandwidth 8000000
    ∷ set_sample_rate s.sample_rate
    ∷ set_center_freq s.center_freq
    ∷ set_tuner_gain_mode s.gain_mode
    ∷ set_tuner_gain s.gain
    ∷ reset_buffer
    ∷ []

unfoldable pub device_open_and_configure :
    (stopping opens : ℕ → Bool) → DeviceState → DeviceState × List DeviceCall
device_open_and_configure stopping opens s =
    if open_attempts 5 0 stopping opens
    then (record s { opened = true }, configure_calls s)
    else (record s { opened = false }, [])
