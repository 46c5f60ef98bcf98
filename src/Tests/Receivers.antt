-- ===== src/Tests/Receivers.antt =====
-- Workers, drivers and devices.
use sdr_server.Prelude.{◌≡◌, refl, List, [], ◌∷◌, some, true, false, Bool, arith}
use sdr_server.Prelude.Int.{pos, negsuc}
use sdr_server.Server.{ClientConfig}
use sdr_server.DspWorker.{Grants, dsp_worker_start}
use sdr_server.DspWorker.Lifetime.{Accounted, dsp_worker_start-Accounted}
use sdr_server.Driver.Rtlsdr.{
  find_nearest_gain, nearest_loop, distance, OneOf, Nearest, find_nearest_gain-Nearest,
}
use sdr_server.SdrDevice.{
  SdrDevice, live, dangling, stopped, failed, error, starts_rx, DriverAnswer, sdr_device_start,
}
use sdr_server.SdrDevice.History.{DeviceCall, start, stop}
use sdr_server.Driver.Rtlsdr.Reading as RtlReading
use sdr_server.Driver.Msisdr.Reading as MsiReading
use sdr_server.Driver.Loader.{
  Linker, RtlFunction, AirspyFunction, HackrfFunction, airspy_set_lna_agc, rtlsdr_functions,
  airspy_functions, hackrf_functions, rtlsdr_lib_create, airspy_lib_create, hackrf_lib_create,
}
use sdr_server.Driver.Loader.Replay.{Settled, lib_create-Loads}
use sdr_server.Tests.Data.{client, server_config}

abbrev msi_client : ClientConfig
msi_client = record client { sdr_type = pos 3 }

abbrev no_queue : Grants
no_queue = record {
  taps_created = true;
  filter_created = true;
  file_opened = true;
  queue_created = false;
  thread_memory = true;
  thread_created = true;
}

dsp_worker_start-Accounted_example :
    Accounted server_config no_queue (dsp_worker_start server_config client no_queue)
dsp_worker_start-Accounted_example = dsp_worker_start-Accounted server_config client no_queue

gain_found : find_nearest_gain (pos 42) (pos 0 ∷ pos 40 ∷ pos 50 ∷ []) ≡ some (pos 40)
unfolding find_nearest_gain nearest_loop distance
gain_found = refl

find_nearest_gain-Nearest_example :
    OneOf (pos 40) (pos 0 ∷ pos 40 ∷ pos 50 ∷ [])
    × Nearest (pos 42) (pos 40) (pos 0 ∷ pos 40 ∷ pos 50 ∷ [])
find_nearest_gain-Nearest_example =
    find_nearest_gain-Nearest (pos 42) (pos 40) (pos 0 ∷ pos 40 ∷ pos 50 ∷ []) (omega arith)
      (omega arith) gain_found

abbrev airspy_device : SdrDevice
airspy_device = record { sdr_type = pos 1; library = true; plugin = live; rx = stopped }

abbrev unknown_mode : DriverAnswer
unknown_mode = record { created = pos 0; start_code = negsuc 0; frees_plugin = true }

start_refused :
    sdr_device_start unknown_mode airspy_device
    ≡ error (pos 4) (record airspy_device { plugin = dangling; rx = failed }) (starts_rx ∷ [])
unfolding sdr_device_start
start_refused = refl

-- An RTL receiver that refuses its first start, is stopped without a plugin, and is then started
-- twice.
abbrev starts : List DeviceCall
starts =
    start (record { created = negsuc 11; start_code = pos 0; frees_plugin = false })
    ∷ stop
    ∷ start (record { created = pos 0; start_code = pos 0; frees_plugin = false })
    ∷ stop
    ∷ start (record { created = pos 0; start_code = pos 4; frees_plugin = false })
    ∷ []

-- A library without the function that sets the gain of the LNA.
abbrev old_airspy : AirspyFunction → Bool
old_airspy airspy_set_lna_agc = false
old_airspy f = true

abbrev rtl_linker : Linker RtlFunction
rtl_linker = record { gives_struct = true; opens = true; dlsym = λ f. true }

abbrev airspy_linker : Linker AirspyFunction
airspy_linker = record { gives_struct = true; opens = true; dlsym = old_airspy }

abbrev hackrf_linker : Linker HackrfFunction
hackrf_linker = record { gives_struct = true; opens = false; dlsym = λ f. true }

lib_create-Loads_example :
    Settled rtlsdr_functions rtl_linker (rtlsdr_lib_create rtl_linker)
    × Settled airspy_functions airspy_linker (airspy_lib_create airspy_linker)
    × Settled hackrf_functions hackrf_linker (hackrf_lib_create hackrf_linker)
lib_create-Loads_example = lib_create-Loads rtl_linker airspy_linker hackrf_linker

-- The thread makes its test, and the stop closes the device.
abbrev reading : RtlReading.Receiver
reading = record (RtlReading.begun false) { running = true; reader = RtlReading.entering }

reading-Reach : RtlReading.Reach (RtlReading.begun false) reading
reading-Reach =
    RtlReading.next (RtlReading.next RtlReading.here (RtlReading.sets_running refl refl))
      (RtlReading.goes_on refl refl refl)

rtlsdr_device_stop_rx-Over_example :
    (RtlReading.clears_running ≡ RtlReading.returned → RtlReading.Over reading)
    × (RtlReading.clears_running ≡ RtlReading.clears_running
        → RtlReading.entering ≡ RtlReading.entering
        → RtlReading.ReadsClosed reading)
rtlsdr_device_stop_rx-Over_example =
    RtlReading.rtlsdr_device_stop_rx-Over false reading reading-Reach

-- The stop's first store falls between the test of a buffer and its hand-on.
abbrev stopping : MsiReading.Receiver
stopping = record MsiReading.begun {
  running = false;
  reader = MsiReading.passed;
  stopper = MsiReading.cancels;
}

stopping-Reach : MsiReading.Reach MsiReading.begun stopping
unfolding MsiReading.tests_running
stopping-Reach =
    MsiReading.next
      (MsiReading.next (MsiReading.next MsiReading.here (MsiReading.enters refl refl))
        (MsiReading.calls_back refl refl))
      (MsiReading.clearing refl refl)

msisdr_device_stop_rx-Guarded_example : MsiReading.Guarded stopping
msisdr_device_stop_rx-Guarded_example =
    MsiReading.msisdr_device_stop_rx-Guarded stopping stopping-Reach
