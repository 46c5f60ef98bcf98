-- ===== src/DspWorker/Launch/Served.antt =====
-- From an accepted request to the bytes that its client receives: src/dsp_worker.c, src/lpf.c,
-- src/xlating.c and src/queue.c together.
use sdr_server.Prelude.{
  ℕ, ◌*◌, ◌≤◌, ◌≡◌, ap, sym, refl, ◌∙◌, ◌⊎◌, inl, inr, ◌/◌, false, List, [], map, replicate, All,
  subst,
}
use sdr_server.Prelude.Int.{ℤ, pos_part}
use sdr_server.Wire.{Request, destination_socket}
use sdr_server.Config as Config
use sdr_server.Config.{ServerConfig, CpuOptimization, optimized_cf32}
use sdr_server.Server.{ClientConfig}
use sdr_server.Queue.{Queue, ok}
use sdr_server.Lpf.{Floats}
use sdr_server.Xlating.Taps.{Complex}
use sdr_server.Xlating.Cf32.{
  FilterCf32, process_native_cu8_cf32, process_native_cs8_cf32, process_native_cs16_cf32,
}
use sdr_server.Xlating.Create.{Tuning}
use sdr_server.Xlating.Optimized.{
  Build, plain, process_optimized_cf32, process_optimized_cu8_cf32, process_optimized_cs8_cf32,
  process_optimized_cs16_cf32,
}
use sdr_server.DspWorker.Stream.{received, Drains}
use sdr_server.DspWorker.Thread.{Event, Thread, begun, run_thread}
use sdr_server.DspWorker.Thread.Promise.{promise, starting}
use sdr_server.DspWorker.Thread.Refines.{Fits}
use sdr_server.DspWorker.Thread.Losses.{arrivals}
use sdr_server.DspWorker.Samples.{EntryPoints, entry_points, encode, worker_filter, converted}
use sdr_server.DspWorker.Samples.Entries.{native}
use sdr_server.DspWorker.Samples.Calls.{Known, plain_calls}
use sdr_server.DspWorker.Samples.Received.{Delivers, run_native-Received}
use sdr_server.DspWorker.Setup.Ready.{ForClient, client_tuning, client_taps, half_of}
use sdr_server.DspWorker.Setup.Rates.{IsIeee}
use sdr_server.DspWorker.Launch.{System, launched, Launch, launch}
use sdr_server.DspWorker.Launch.Launched.{IsGenerous, IsFilterable, launch-Launched}

module _ (f : Floats) (c : Complex)
    (tuning : (offset : ℤ) (sampling_freq decimation : ℕ) → Tuning f.Float c) (one : f.Float)
    (bytes_of : c.Sample → List ℕ) where
  -- What a client gets: the bytes of the plain filter's outputs on the device's buffers, one after
  -- the other. Its taps are those of the client, it decimates by the ratio of the rates, starts
  -- from silence, and turns its phase from the first one by the client's step.
  abbrev pub plain_stream : (k : ℕ) → ServerConfig → ClientConfig → List (List ℕ) → List ℕ
  plain_stream k sc config buffers =
      let t = client_tuning f c tuning one sc config in
      encode c bytes_of (
        plain_calls c bytes_of (client_taps f c tuning one k sc config) t.phase_incr
          (sc.band_sampling_rate / config.sampling_rate)
          (replicate (2 * half_of f c tuning one k sc config) c.zero) t.phase_one
          (map (converted c config.sdr_type) buffers))

  pub record Served (k : ℕ) (sc : ServerConfig) (config : ClientConfig) (points : EntryPoints c)
      (filter : FilterCf32 c) (q : Queue) (es : List Event) : Type 0 where
    pub thread : Thread (worker_filter c bytes_of points)
    pub ratio :
        sc.band_sampling_rate / config.sampling_rate * config.sampling_rate ≡ sc.band_sampling_rate
    pub ran :
        run_thread
          (worker_filter c bytes_of points)
          config
          es
          (begun (worker_filter c bytes_of points) q filter)
        ≡ ok thread
    pub bytes :
        received (worker_filter c bytes_of points) thread.rounds
        ≡ plain_stream k sc config (arrivals es)
    pub kept_open : All (λ r. r.closes_socket ≡ false) thread.rounds

  same_launch :
      {points points' : EntryPoints c} {filter filter' : FilterCf32 c} {q q' : Queue} {l : Launch c}
      → l ≡ launched points filter q
      → l ≡ launched points' filter' q'
      → ◌≡◌ {A = EntryPoints c × FilterCf32 c × Queue} (points, filter, q) (points', filter', q')
  same_launch e e' = cc

  served :
      (k : ℕ) (sc : ServerConfig) (config : ClientConfig) (es : List Event) (q : Queue)
      (filter : FilterCf32 c)
      → ForClient f c tuning one k sc config filter
      → Delivers c bytes_of (native c) config q (client_taps f c tuning one k sc config) filter es
      → Served k sc config (native c) filter q es
  served k sc config es q filter l (w, ran, bytes, kept_open) = record {
    thread = w;
    ratio = ap (λ n. n * config.sampling_rate) (sym l.decimation) ∙ l.ratio;
    ran = ran;
    bytes = bytes ∙ (λ i. encode c bytes_of (
        plain_calls c bytes_of (client_taps f c tuning one k sc config) (l.phase_incr i)
          (l.decimation i) (l.quiet i) (l.phase i)
          (map (converted c config.sdr_type) (arrivals es))));
    kept_open = kept_open;
  }

  -- The native entry points: they are configured, or the build has no others.
  abbrev pub UsesNative : Build → ServerConfig → Type 0
  UsesNative b sc = (sc.optimization ≡ Config.native_cf32) ⊎ (b ≡ plain)

  plain_entries : (o : CpuOptimization) → entry_points c o plain ≡ native c
  unfolding entry_points process_optimized_cu8_cf32 process_optimized_cs8_cf32
      process_optimized_cs16_cf32 process_optimized_cf32 process_native_cu8_cf32
      process_native_cs8_cf32 process_native_cs16_cf32
  plain_entries Config.native_cf32 = refl
  plain_entries optimized_cf32 = refl

  uses_native :
      (b : Build) (sc : ServerConfig)
      → UsesNative b sc
      → entry_points c sc.optimization b ≡ native c
  unfolding entry_points
  uses_native b sc (inl e) = rw e refl
  uses_native b sc (inr e) = rw e (plain_entries sc.optimization)

  -- The client whose worker started with everything granted gets what the plain filter makes of the
  -- device's buffers, one after the other: whatever the interleaving of the buffers with its
  -- thread, if its rates make a filter, the native entry points are used, the receiver is of a kind
  -- that `callback` knows, the queue has two buffers or more, every buffer fits, none was
  -- overwritten and all were dealt with, the client wants its socket, whose writes make progress,
  -- floats round as IEEE says and a zero tap adds nothing to zero. The plain filter takes a window
  -- of all taps every so many samples as the ratio of the rates is, from silence; its taps are an
  -- odd number of a normalized windowed sinc's, each moved to the client's frequency by its index,
  -- in reverse; its phase starts as the client's frequency says, is turned by one step for each
  -- output, and is normalised after every buffer that brought an output. Nothing faults and the
  -- socket stays open.
  pub launch-Served :
      IsIeee f
      → ((x : c.Sample) → c.add c.zero (c.mul x c.zero) ≡ c.zero)
      → (b : Build) (socket k counter : ℕ) (sc : ServerConfig) (r : Request) (config : ClientConfig)
        (sys : System) (points : EntryPoints c) (filter : FilterCf32 c) (q : Queue)
        (es : List Event)
      → UsesNative b sc
      → IsFilterable socket k counter sc r config
      → IsGenerous sys
      → launch c f tuning one b sc config sys ≡ launched points filter q
      → config.destination ≡ destination_socket
      → Known config.sdr_type
      → 2 ≤ pos_part sc.queue_size
      → All (Fits sc.buffer_size) es
      → let p = promise es (starting (pos_part sc.queue_size)) in
        p.lost ≡ 0
        → p.view.filled ≡ []
        → Drains (worker_filter c bytes_of points) config.sdr_type p.done filter
        → Served k sc config points filter q es
  launch-Served ieee zero_tap b socket k counter sc r config sys points filter q es uses a g e d
        known two fits kept drained writes =
      let l = launch-Launched f c tuning one ieee b socket k counter sc r config sys a g in
      let p = promise es (starting (pos_part sc.queue_size)) in
      subst {A = EntryPoints c × FilterCf32 c × Queue}
        (λ t.
          Drains (worker_filter c bytes_of t.0) config.sdr_type p.done t.1
          → Served k sc config t.0 t.1 t.2 es)
        (same_launch l.runs e)
        (subst
          (λ points.
            Drains (worker_filter c bytes_of points) config.sdr_type p.done l.filter
            → Served k sc config points l.filter l.queue es)
          (sym (uses_native b sc uses))
          (λ writes. served k sc config es l.queue l.filter l.fitting (
            run_native-Received c bytes_of zero_tap sc.buffer_size (pos_part sc.queue_size) config
              l.queue (client_taps f c tuning one k sc config) l.filter es d known l.free two
              l.fitting.made fits kept drained writes)))
        writes
