-- ===== src/DspWorker/Launch.antt =====
-- src/dsp_worker.c, dsp_worker_start: what the thread of a new worker starts with. It joins the
-- filter's creation, the choice of the entry points and the creation of the queue.
pub mod Launched
pub mod Served
use sdr_server.Prelude.{ℕ, Bool, not, if◌then◌else◌}
use sdr_server.Prelude.Int.{ℤ, negsuc, pos_part}
use sdr_server.Config.{ServerConfig}
use sdr_server.Server.{ClientConfig}
use sdr_server.Queue.{Queue, Run, fault, ok}
use sdr_server.Queue.Memory.{NodeMemory, Creation, created, no_memory, create_queue}
use sdr_server.Lpf as Lpf
use sdr_server.Lpf.{Floats}
use sdr_server.Xlating.Taps.{Complex}
use sdr_server.Xlating.Cf32.{FilterCf32}
use sdr_server.Xlating.Create as Create
use sdr_server.Xlating.Create.{Tuning}
use sdr_server.Xlating.Optimized.{Build}
use sdr_server.DspWorker.Samples.{EntryPoints, entry_points}
use sdr_server.DspWorker.Setup as Setup
use sdr_server.DspWorker.Setup.{Setup, setup_filter}

-- What the system answers to the calls of `dsp_worker_start`, whose own structure it grants.
pub record System : Type 0 where
  pub low_pass : Lpf.Grants
  pub filter : Create.Grants
  pub opens_output : Bool
  pub queue_memory : Bool
  pub node_memory : ℕ → NodeMemory
  pub thread_memory : Bool
  pub thread_created : Bool

-- The thread's start, or the code that the start of the worker fails with.
pub data Launch (c : Complex) : Type 0 where
  launched : EntryPoints c → FilterCf32 c → Queue → Launch c
  refused : ℤ → Launch c
  divides_by_zero : Launch c
  crashed : Launch c

abbrev pub failure : ℤ
failure = negsuc 0

abbrev pub enomem : ℤ
enomem = negsuc 11

module _ (c : Complex) where
  abbrev pub with_thread : System → EntryPoints c → FilterCf32 c → Queue → Launch c
  with_thread sys points filter q =
      if not sys.thread_memory
      then refused enomem
      else if not sys.thread_created
      then refused failure
      else launched points filter q

  abbrev pub with_queue : System → EntryPoints c → FilterCf32 c → Run Creation → Launch c
  with_queue sys points filter fault = crashed
  with_queue sys points filter (ok (no_memory has_struct h)) = refused failure
  with_queue sys points filter (ok (created q)) = with_thread sys points filter q

  -- The loop of `create_queue` makes no node for a negative size.
  unfoldable pub with_filter : Build → ServerConfig → System → Setup c → Launch c
  unfolding entry_points create_queue
  with_filter b sc sys (Setup.failed code) = refused code
  with_filter b sc sys Setup.divides_by_zero = divides_by_zero
  with_filter b sc sys Setup.crashed = crashed
  with_filter b sc sys (Setup.ready filters) =
      if not sys.opens_output
      then refused failure
      else with_queue sys (entry_points c sc.optimization b) filters.cf32
          (create_queue sys.node_memory sc.buffer_size sys.queue_memory (pos_part sc.queue_size))

  unfoldable pub launch :
      (f : Floats)
      → ((offset : ℤ) (sampling_freq decimation : ℕ) → Tuning f.Float c)
      → f.Float
      → Build
      → ServerConfig
      → ClientConfig
      → System
      → Launch c
  unfolding setup_filter with_filter
  launch f tuning one b sc config sys =
      with_filter b sc sys (setup_filter f c tuning one sc config sys.low_pass sys.filter)
