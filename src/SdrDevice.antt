-- ===== src/SdrDevice.antt =====
-- src/sdr_device.c: one receiver behind four drivers. The drivers' own functions are those of
-- Driver; here only their codes matter, and whether a plugin is there.
pub mod History
pub mod Freed
use sdr_server.Prelude.{ℕ, Bool, true, false, not, List, [], ◌∷◌, ◌++◌, ◌||◌, if◌then◌else◌}
use sdr_server.Prelude.Int.{ℤ, pos, negsuc, eqb_ℤ}
use sdr_server.Config.{sdr_type_rtl, sdr_type_airspy, sdr_type_hackrf, sdr_type_msi}

-- `device->plugin`: NULL, a driver's device, or the address of one that has been freed.
pub data Plugin : Type 0 where
  absent live dangling : Plugin

-- What a driver's device does: it has not been started since its last stop, it receives, or its last
-- start has failed.
pub data Rx : Type 0 where
  stopped receiving failed : Rx

abbrev pub is_receiving : Rx → Bool
is_receiving stopped = false
is_receiving receiving = true
is_receiving failed = false

-- `struct sdr_device_t`: the kind of receiver, whether its library is loaded, the plugin, and what
-- the plugin's driver does.
pub record SdrDevice : Type 0 where
  pub sdr_type : ℤ
  pub library : Bool
  pub plugin : Plugin
  pub rx : Rx

-- The calls of drivers and libraries, in order.
pub data DeviceEvent : Type 0 where
  loads_library unloads_library creates_plugin destroys_plugin starts_rx stops_rx : DeviceEvent

pub data Result (A : Type 0) : Type 0 where
  ok : A → List DeviceEvent → Result A
  error : ℤ → A → List DeviceEvent → Result A
  fault : Result A

abbrev pub supported : ℤ → Bool
supported kind =
    eqb_ℤ kind sdr_type_rtl
    || (eqb_ℤ kind sdr_type_airspy || (eqb_ℤ kind sdr_type_hackrf || eqb_ℤ kind sdr_type_msi))

-- `sdr_device_destroy`. The plugin of a device that receives would be freed under its thread.
unfoldable pub sdr_device_destroy : SdrDevice → Result SdrDevice
sdr_device_destroy d =
    let unload = if d.library then unloads_library ∷ [] else [] in
    elim d.plugin [
      | absent ↦ ok (record d { library = false }) unload
      | live ↦
          if is_receiving d.rx
          then fault
          else ok (record d { library = false; plugin = absent }) (destroys_plugin ∷ unload)
      | dangling ↦ fault
    ]

-- `sdr_device_create`, by the code of the library's loader. A loader that fails leaves no library,
-- and the half-made device is destroyed, which then only frees it.
unfoldable pub sdr_device_create : ℤ → ℤ → Result SdrDevice
sdr_device_create kind loader =
    let bare : SdrDevice = record {
      sdr_type = kind;
      library = false;
      plugin = absent;
      rx = stopped;
    } in
    if supported kind
    then (if eqb_ℤ loader (pos 0)
        then ok (record bare { library = true }) (loads_library ∷ [])
        else error loader bare [])
    else error (negsuc 0) bare []

-- What a driver answers: the code of its constructor, and the code of `start_rx` with what it
-- leaves of the plugin (the Airspy driver frees it on an unknown gain mode).
pub record DriverAnswer : Type 0 where
  pub created : ℤ
  pub start_code : ℤ
  pub frees_plugin : Bool

start_rx : DriverAnswer → SdrDevice → List DeviceEvent → Result SdrDevice
start_rx a d log =
    let d' = if a.frees_plugin then record d { plugin = dangling } else d in
    if eqb_ℤ a.start_code (pos 0)
    then ok (record d' { rx = receiving }) (log ++ (starts_rx ∷ []))
    else error (pos 4) (record d' { rx = failed }) (log ++ (starts_rx ∷ []))

-- `sdr_device_start`: the plugin is created by the first client, and kept.
unfoldable pub sdr_device_start : DriverAnswer → SdrDevice → Result SdrDevice
unfolding start_rx
sdr_device_start a d = elim d.plugin [
  | live ↦ start_rx a d []
  | dangling ↦ fault
  | absent ↦
      if supported d.sdr_type
      then (if eqb_ℤ a.created (pos 0)
          then start_rx a (record d { plugin = live }) (creates_plugin ∷ [])
          else error (pos 4) d [])
      else error (pos 4) d []
]

-- Where a driver's stop goes wrong on its own device. The RTL one joins its thread, which must be
-- there; the MSi one does so if the device is open, as a failed start leaves it; the Airspy one uses
-- a handle that an earlier stop has closed. Only the HackRF one needs neither.
abbrev pub stop_faults : ℤ → Rx → Bool
stop_faults kind receiving = false
stop_faults kind stopped = eqb_ℤ kind sdr_type_rtl || eqb_ℤ kind sdr_type_airspy
stop_faults kind failed = not (eqb_ℤ kind sdr_type_hackrf)

-- `sdr_device_stop`: of the four drivers only the RTL one takes a NULL plugin.
unfoldable pub sdr_device_stop : SdrDevice → Result SdrDevice
sdr_device_stop d = elim d.plugin [
  | live ↦
      if stop_faults d.sdr_type d.rx then fault else ok (record d { rx = stopped }) (stops_rx ∷ [])
  | dangling ↦ fault
  | absent ↦ if eqb_ℤ d.sdr_type sdr_type_rtl then ok d (stops_rx ∷ []) else fault
]
