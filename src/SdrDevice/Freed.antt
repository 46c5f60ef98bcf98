-- ===== src/SdrDevice/Freed.antt =====
-- A driver that frees its own plugin, and src/sdr_device.c.
use sdr_server.Prelude.{◌≡◌, ◌≢◌, true, List, arith}
use sdr_server.Prelude.Int.{ℤ, pos}
use sdr_server.SdrDevice.{
  live, SdrDevice, DeviceEvent, error, fault, DriverAnswer, sdr_device_start, sdr_device_stop,
  sdr_device_destroy, start_rx,
}

-- After a start in which the driver has freed its plugin, the next start, stop or destruction uses
-- the freed memory.
pub start_frees :
    (d : SdrDevice) (a b : DriverAnswer) (code : ℤ) (d' : SdrDevice) (log : List DeviceEvent)
    → a.frees_plugin ≡ true
    → a.start_code ≢ pos 0
    → d.plugin ≡ live
    → sdr_device_start a d ≡ error code d' log
    → (code ≡ pos 4)
      × (sdr_device_start b d' ≡ fault)
      × (sdr_device_stop d' ≡ fault)
      × (sdr_device_destroy d' ≡ fault)
unfolding sdr_device_start start_rx sdr_device_stop sdr_device_destroy
start_frees d a b code d' log f n l e = ground arith
