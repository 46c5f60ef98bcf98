-- ===== src/Tests/Launches.antt =====
-- Inputs for a worker of src/dsp_worker.c from its request to its client.
use sdr_server.Prelude.{◌≡◌, refl, inr, [], ◌∷◌, arith, true, none}
use sdr_server.Prelude.Int.{pos}
use sdr_server.Config.{ServerConfig, optimized_cf32}
use sdr_server.Server.{ClientConfig, configure}
use sdr_server.Queue.{Queue, Run, ok, null, link_last, set_next, load}
use sdr_server.Queue.Memory.{create_nodes, create_queue, Creation, created, free_queue}
use sdr_server.Xlating.{loop, preserve_history, positions, process, feed}
use sdr_server.Xlating.Taps.{dot, aligned_taps, aligned_from}
use sdr_server.Xlating.Input.{pairs, q15_cs8}
use sdr_server.Xlating.Cf32.{FilterCf32, run_filter, native_cf32, process_native_cf32, align_index}
use sdr_server.Xlating.Create.{aligned_cs16, memory_refused, bpf, moved_from, map_pairs}
use sdr_server.Xlating.Reverse.{reverse_taps}
use sdr_server.Xlating.Optimized.{process_optimized_cf32, plain, avx, process_optimized_cs8_cf32}
use sdr_server.DspWorker.{filtered}
use sdr_server.DspWorker.Stream.{Drains}
use sdr_server.DspWorker.Thread.Promise.{starting, promise}
use sdr_server.DspWorker.Samples.{EntryPoints, entry_points, encode, returned, worker_filter}
use sdr_server.DspWorker.Launch.{System, launched, launch}
use sdr_server.DspWorker.Launch.Launched.{IsGenerous, IsFilterable, Launched, launch-Launched}
use sdr_server.DspWorker.Launch.Served.{Served, launch-Served}
use sdr_server.Tests.Data.{server_config, request}
use sdr_server.Tests.Filtering.{numbers, silent}
use sdr_server.Tests.FilterWords.{
  exact_floats, exact_floats-IsIeee, tuning, all_granted, all_granted-memory, requested,
}
use sdr_server.Tests.Deliveries.{one_byte, calm}

-- Two buffers of four bytes, and five taps of which every second sample is kept.
abbrev narrow : ServerConfig
narrow = record server_config {
  optimization = optimized_cf32;
  buffer_size = 4;
  band_sampling_rate = 96000;
  queue_size = pos 2;
  sdr_type = pos 2;
  lpf_cutoff_rate = pos 1;
}

abbrev generous : System
generous = record {
  low_pass = record { gives_taps = true; gives_window = true };
  filter = all_granted;
  opens_output = true;
  queue_memory = true;
  node_memory = λ i. record { node = true; buffer = true };
  thread_memory = true;
  thread_created = true;
}

generous-IsGenerous : IsGenerous generous
generous-IsGenerous = record {
  low_pass = refl;
  filter = all_granted-memory;
  opens = refl;
  queue = refl;
  nodes = λ i. refl;
  memory = refl;
  thread = refl;
}

-- The third client of a server with a HackRF.
abbrev pub third : ClientConfig
third = record requested { is_running = true; id = 3; sdr_type = pos 2 }

narrow-IsFilterable : IsFilterable 7 1 3 narrow request third
unfolding configure
narrow-IsFilterable = record {
  asked = requested;
  configured = refl;
  admitted = refl;
  rate = omega arith;
  band = omega arith;
  cutoff = refl;
  cutoff_pos = omega arith;
  cutoff_small = omega arith;
  cutoff_le = omega arith;
  short = omega arith;
}

launch-Launched_example : Launched exact_floats numbers tuning 1 1 avx narrow third generous
launch-Launched_example =
    launch-Launched exact_floats numbers tuning 1 exact_floats-IsIeee avx 7 1 3 narrow request third
      generous narrow-IsFilterable generous-IsGenerous

abbrev one_filter : FilterCf32 numbers
one_filter = record {
  taps_cf32 =
      (1 ∷ 1 ∷ 1 ∷ 1 ∷ 1 ∷ 0 ∷ 0 ∷ 0 ∷ [])
      ∷ (0 ∷ 1 ∷ 1 ∷ 1 ∷ 1 ∷ 1 ∷ 0 ∷ 0 ∷ [])
      ∷ (0 ∷ 0 ∷ 1 ∷ 1 ∷ 1 ∷ 1 ∷ 1 ∷ 0 ∷ [])
      ∷ (0 ∷ 0 ∷ 0 ∷ 1 ∷ 1 ∷ 1 ∷ 1 ∷ 1 ∷ [])
      ∷ [];
  phase_incr = tt;
  state = record {
    decimation = 2;
    taps_len = 5;
    working_buffer = 0 ∷ 0 ∷ 0 ∷ 0 ∷ 0 ∷ 0 ∷ [];
    history_offset = 4;
    output_len_samples = 2;
    phase = tt;
  };
}

abbrev queue_of : Run Creation → Queue
queue_of (ok (created q)) = q
queue_of r = free_queue (λ _. none) null null

abbrev one_queue : Queue
one_queue = queue_of (create_queue generous.node_memory 4 true 2)

abbrev plain_points : EntryPoints numbers
plain_points = entry_points numbers optimized_cf32 plain

one_launch :
    launch numbers exact_floats tuning 1 plain narrow third generous
    ≡ launched plain_points one_filter one_queue
unfolding launch memory_refused bpf moved_from map_pairs reverse_taps aligned_taps aligned_cs16
    aligned_from create_nodes link_last set_next load
one_launch = refl

calm-dealt : (promise calm (starting 2)).view.filled ≡ []
unfolding promise
calm-dealt = refl

calm-kept : (promise calm (starting 2)).lost ≡ 0
unfolding promise
calm-kept = refl

calm-Drains :
    Drains
      (worker_filter numbers one_byte plain_points)
      (pos 2)
      (promise calm (starting 2)).done
      one_filter
unfolding promise filtered process_optimized_cs8_cf32 run_filter pairs q15_cs8 returned encode feed
    process native_cf32 align_index preserve_history positions loop entry_points
    process_optimized_cf32 process_native_cf32 dot
calm-Drains = (
  (omega arith, (omega arith, (omega arith, tt))),
  omega arith,
  ((omega arith, (omega arith, (omega arith, tt))), omega arith, tt),
)

launch-Served_example :
    Served exact_floats numbers tuning 1 one_byte 1 narrow third plain_points one_filter one_queue
      calm
launch-Served_example =
    launch-Served exact_floats numbers tuning 1 one_byte exact_floats-IsIeee silent plain 7 1 3
      narrow request third generous plain_points one_filter one_queue calm (inr refl)
      narrow-IsFilterable generous-IsGenerous one_launch refl (inr (inr refl)) (omega arith)
      (omega arith) calm-kept calm-dealt calm-Drains
