-- ===== src/DspWorker/Launch/Launched.antt =====
-- src/dsp_worker.c, dsp_worker_start: the worker of an accepted request.
use sdr_server.Prelude.{
  ℕ, ◌*◌, ◌/◌, ◌%◌, ◌^◌, ◌≤◌, ◌<◌, ◌≡◌, refl, sym, ap, subst, ◌∙◌, true, ◌&&◌, none, some, arith,
}
use sdr_server.Prelude.Int.{ℤ, pos, pos_part}
use sdr_server.Wire.{Request}
use sdr_server.Config.{ServerConfig}
use sdr_server.Server.{ClientConfig, configure}
use sdr_server.Queue.{Queue, Run, ok}
use sdr_server.Queue.View.{Represents}
use sdr_server.Queue.Memory.{created, create_queue, Creation}
use sdr_server.Queue.Memory.Create.{all_free, Built, built, out_of_memory, create_queue-Built}
use sdr_server.Lpf.{Floats}
use sdr_server.Xlating.Taps.{Complex}
use sdr_server.Xlating.Cf32.{FilterCf32}
use sdr_server.Xlating.Create.{Tuning, Filters, memory_refused}
use sdr_server.Xlating.Optimized.{Build}
use sdr_server.DspWorker.Samples.{entry_points}
use sdr_server.DspWorker.Setup.{setup_filter, ready}
use sdr_server.DspWorker.Setup.Rates.{IsIeee, configured_divides}
use sdr_server.DspWorker.Setup.Ready.{ForClient, setup_filter-Ready}
use sdr_server.DspWorker.Launch.{System, launched, with_filter, launch}

-- A system that refuses nothing.
pub record IsGenerous (sys : System) : Type 0 where
  pub low_pass : sys.low_pass ≡ record { gives_taps = true; gives_window = true }
  pub filter : memory_refused sys.filter ≡ none
  pub opens : sys.opens_output ≡ true
  pub queue : sys.queue_memory ≡ true
  pub nodes : (i : ℕ) → ((sys.node_memory i).node && (sys.node_memory i).buffer) ≡ true
  pub memory : sys.thread_memory ≡ true
  pub thread : sys.thread_created ≡ true

-- A client of the server, as `handle_new_client` sets it up, whose rates make a filter: its rate
-- divides the server's, is at least two and no less than the cutoff rate `k` of the configuration,
-- which is not 0, and the rates are so close that the number of taps is an `int`.
pub record IsFilterable (socket k counter : ℕ) (sc : ServerConfig) (r : Request)
    (config : ClientConfig) : Type 0 where
  pub asked : ClientConfig
  pub configured : configure socket sc r ≡ some asked
  pub admitted : config ≡ record asked { is_running = true; id = counter; sdr_type = sc.sdr_type }
  pub rate : 1 < config.sampling_rate
  pub band : 0 < sc.band_sampling_rate
  pub cutoff : sc.lpf_cutoff_rate ≡ pos k
  pub cutoff_pos : 0 < k
  pub cutoff_small : k < 2 ^ 32
  pub cutoff_le : k ≤ config.sampling_rate
  pub short : sc.band_sampling_rate < 2 ^ 29 * (config.sampling_rate / k)

IsFilterable-divides :
    (socket k counter : ℕ) (sc : ServerConfig) (r : Request) (config : ClientConfig)
    → IsFilterable socket k counter sc r config
    → sc.band_sampling_rate % config.sampling_rate ≡ 0
IsFilterable-divides socket k counter sc r config a =
    let same : config.sampling_rate ≡ a.asked.sampling_rate =
      ap (λ x. x.sampling_rate) a.admitted in
    subst (λ n. sc.band_sampling_rate % n ≡ 0) (sym same)
      (configured_divides socket sc r a.asked a.configured (omega (arith, same, a.rate)))

module _ (f : Floats) (c : Complex)
    (tuning : (offset : ℤ) (sampling_freq decimation : ℕ) → Tuning f.Float c) (one : f.Float) where
  -- The thread starts with the entry points of the configured optimization, the filter for the
  -- client, and a queue of free buffers.
  pub record Launched (k : ℕ) (b : Build) (sc : ServerConfig) (config : ClientConfig) (sys : System)
      : Type 0 where
    pub filter : FilterCf32 c
    pub queue : Queue
    pub runs :
        launch c f tuning one b sc config sys
        ≡ launched (entry_points c sc.optimization b) filter queue
    pub fitting : ForClient f c tuning one k sc config filter
    pub free :
        Represents sc.buffer_size (pos_part sc.queue_size) queue (all_free (pos_part sc.queue_size))

  queue_created :
      (sc : ServerConfig) (sys : System)
      → IsGenerous sys
      → (q : Queue) × (create_queue sys.node_memory sc.buffer_size true (pos_part sc.queue_size)
          ≡ ok (created q))
        × Represents sc.buffer_size (pos_part sc.queue_size) q (all_free (pos_part sc.queue_size))
  queue_created sc sys g =
      got (create_queue-Built sys.node_memory sc.buffer_size (pos_part sc.queue_size))
    where
      got :
          {r : Run Creation}
          → Built sys.node_memory sc.buffer_size (pos_part sc.queue_size) r
          → (q : Queue) × (r ≡ ok (created q))
            × Represents sc.buffer_size
                (pos_part sc.queue_size)
                q
                (all_free (pos_part sc.queue_size))
      got (built q e r) = (q, e, r)
      got (out_of_memory h i e left l refused) = absurd (ground (arith, g.nodes i, refused))

  with_filter-launched :
      (b : Build) (sc : ServerConfig) (sys : System) (filters : Filters c) (q : Queue)
      → IsGenerous sys
      → create_queue sys.node_memory sc.buffer_size true (pos_part sc.queue_size) ≡ ok (created q)
      → with_filter c b sc sys (ready filters)
        ≡ launched (entry_points c sc.optimization b) filters.cf32 q
  unfolding with_filter
  with_filter-launched b sc sys filters q g e = rw (g.opens, g.queue, e, g.memory, g.thread) refl

  launch-with :
      (b : Build) (sc : ServerConfig) (config : ClientConfig) (sys : System) (filters : Filters c)
      → IsGenerous sys
      → setup_filter f c tuning one sc config
          (record { gives_taps = true; gives_window = true })
          sys.filter
        ≡ ready filters
      → launch c f tuning one b sc config sys ≡ with_filter c b sc sys (ready filters)
  unfolding launch
  launch-with b sc config sys filters g e =
      ap (λ lg. with_filter c b sc sys (setup_filter f c tuning one sc config lg sys.filter))
        g.low_pass
      ∙ ap (with_filter c b sc sys) e

  -- The worker of a client starts, if the client's rate divides the server's, is at least two and no
  -- less than the cutoff rate of the configuration, which is not 0, the number of taps is an int, the
  -- system refuses nothing and floats round as IEEE says: with the entry points of the configured
  -- optimization; with a filter that is made for the server's buffers, whose taps are the
  -- normalized windowed sinc, each moved to the client's frequency by its index, in reverse, that
  -- decimates by the exact ratio of the rates and starts from silence with the phases of the
  -- client's frequency; and with a queue of as many free buffers as are configured.
  pub launch-Launched :
      (ieee : IsIeee f) (b : Build) (socket k counter : ℕ) (sc : ServerConfig) (r : Request)
      (config : ClientConfig) (sys : System)
      → IsFilterable socket k counter sc r config
      → IsGenerous sys
      → Launched k b sc config sys
  launch-Launched ieee b socket k counter sc r config sys a g =
      let (filters, runs, fitting) =
        setup_filter-Ready f ieee c tuning one k sc config sys.filter
          (IsFilterable-divides socket k counter sc r config a) a.rate a.band a.cutoff a.cutoff_pos
          a.cutoff_small a.cutoff_le a.short g.filter in
      let (q, creation, free) = queue_created sc sys g in
      record {
        filter = filters.cf32;
        queue = q;
        runs =
            launch-with b sc config sys filters g runs
            ∙ with_filter-launched b sc sys filters q g creation;
        fitting = fitting;
        free = free;
      }
