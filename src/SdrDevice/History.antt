-- ===== src/SdrDevice/History.antt =====
-- The life of a device of src/sdr_device.c over any number of starts and stops.
use sdr_server.Prelude.{
  ℕ, suc, ◌+◌, ◌≤◌, ◌≡◌, Bool, true, false, ◌||◌, List, [], ◌∷◌, ◌++◌, if◌then◌else◌,
}
use sdr_server.Prelude.Int.{ℤ, pos, eqb_ℤ}
use sdr_server.Config.{sdr_type_rtl}
use sdr_server.SdrDevice.{
  absent, live, Rx, stopped, receiving, failed, is_receiving, SdrDevice, DeviceEvent, loads_library,
  unloads_library, creates_plugin, destroys_plugin, starts_rx, stops_rx, Result, ok, error, fault,
  DriverAnswer, sdr_device_start, sdr_device_stop, sdr_device_destroy,
}

pub data DeviceCall : Type 0 where
  start : DriverAnswer → DeviceCall
  stop : DeviceCall

abbrev pub prepend : List DeviceEvent → Result SdrDevice → Result SdrDevice
prepend log (ok d rest) = ok d (log ++ rest)
prepend log (error code d rest) = error code d (log ++ rest)
prepend log fault = fault

-- Whatever code a call returns, its caller goes on.
abbrev pub then_do : Result SdrDevice → (SdrDevice → Result SdrDevice) → Result SdrDevice
then_do (ok d log) f = prepend log (f d)
then_do (error code d log) f = prepend log (f d)
then_do fault f = fault

-- The calls in turn, then the destruction.
pub run : SdrDevice → List DeviceCall → Result SdrDevice
run d [] = sdr_device_destroy d
run d (start a ∷ cs) = then_do (sdr_device_start a d) (λ d'. run d' cs)
run d (stop ∷ cs) = then_do (sdr_device_stop d) (λ d'. run d' cs)

abbrev pub tally : (DeviceEvent → Bool) → List DeviceEvent → ℕ
tally f [] = 0
tally f (e ∷ es) = if f e then suc (tally f es) else tally f es

abbrev pub is_creation : DeviceEvent → Bool
is_creation creates_plugin = true
is_creation loads_library = false
is_creation unloads_library = false
is_creation destroys_plugin = false
is_creation starts_rx = false
is_creation stops_rx = false

abbrev pub is_destruction : DeviceEvent → Bool
is_destruction destroys_plugin = true
is_destruction loads_library = false
is_destruction unloads_library = false
is_destruction creates_plugin = false
is_destruction starts_rx = false
is_destruction stops_rx = false

abbrev pub is_unloading : DeviceEvent → Bool
is_unloading unloads_library = true
is_unloading loads_library = false
is_unloading destroys_plugin = false
is_unloading creates_plugin = false
is_unloading starts_rx = false
is_unloading stops_rx = false

-- A device as the server holds it, with a plugin or without one.
abbrev pub device : ℤ → Bool → Rx → SdrDevice
device kind alive rx = record {
  sdr_type = kind;
  library = true;
  plugin = if alive then live else absent;
  rx = rx;
}

-- What a driver does behind a start that it answers so.
abbrev pub started : DriverAnswer → Rx
started a = if eqb_ℤ a.start_code (pos 0) then receiving else failed

-- No driver frees its plugin. A device is started only while it does not receive, and stopped only
-- while it does, or, if it is an RTL device, before it has a plugin; it does not receive in the end.
abbrev pub Proper : ℤ → Bool → Rx → List DeviceCall → Type 0
Proper kind alive rx [] = is_receiving rx ≡ false
Proper kind alive rx (start a ∷ cs) =
    (a.frees_plugin ≡ false)
    × (is_receiving rx ≡ false)
    × Proper kind (alive || eqb_ℤ a.created (pos 0))
        (if alive || eqb_ℤ a.created (pos 0) then started a else rx) cs
Proper kind alive rx (stop ∷ cs) =
    ((if alive then is_receiving rx else eqb_ℤ kind sdr_type_rtl) ≡ true)
    × Proper kind alive (if alive then stopped else rx) cs

-- The destruction has succeeded, and the log is balanced, one plugin at most having existed.
pub record Ends (alive : Bool) (r : Result SdrDevice) : Type 0 where
  pub left : SdrDevice
  pub log : List DeviceEvent
  pub succeeded : r ≡ ok left log
  pub no_plugin : left.plugin ≡ absent
  pub no_library : left.library ≡ false
  pub balanced : (if alive then 1 else 0) + tally is_creation log ≡ tally is_destruction log
  pub once : tally is_destruction log ≤ 1
  pub unloaded : tally is_unloading log ≡ 1
