-- ===== src/DspWorker.antt =====
-- src/dsp_worker.c: a client's DSP thread, from the buffers of its queue to its file or socket, and
-- what the worker acquires and releases. The filter of src/xlating.c works on floats and is a
-- parameter; so are the outcomes of the system's calls.
pub mod Stream
pub mod Thread
pub mod Clients
pub mod Samples
pub mod Setup
pub mod Launch
pub mod Lifetime
use sdr_server.Prelude.{
  ℕ, ◌+◌, ◌*◌, ◌/◌, Bool, true, false, not, Option, none, some, List, [], ◌∷◌, ◌++◌, ltb, ◌==◌,
  if◌then◌else◌, length,
}
use sdr_server.Prelude.Int.{ℤ, pos, negsuc, eqb_ℤ}
use sdr_server.Wire.{destination_file, destination_socket}
use sdr_server.Socket.{Write, Sent, sent, write_failed, blocked, write_all}
use sdr_server.Config.{
  ServerConfig, sdr_type_rtl, sdr_type_airspy, sdr_type_hackrf, CpuOptimization, native_cf32,
  optimized_cf32, to_u32,
}
use sdr_server.Server.{ClientConfig}

-- The three entry points of the filter. A sample of its output is eight bytes.
pub record Filter : Type 1 where
  pub State : Type 0
  pub process_cu8 : List ℕ → State → List ℕ × State
  pub process_cs8 : List ℕ → State → List ℕ × State
  pub process_cs16 : List ℕ → State → List ℕ × State

abbrev pub sample_size : ℕ
sample_size = 8

-- Where `write_to_file` writes, with what the call returned: a count of samples from fwrite, of
-- bytes from gzwrite.
pub data Sink : Type 0 where
  file gz : ℕ → Sink
  no_sink : Sink

unfoldable pub write_to_file : Sink → ℕ → Bool
write_to_file (file n_written) filter_output_len = not (ltb n_written filter_output_len)
write_to_file (gz n_written) filter_output_len = not (ltb n_written filter_output_len)
write_to_file no_sink filter_output_len = false

-- The bytes that reach the client, and whether the loop returned 0.
unfoldable pub write_to_socket : List ℕ → List Write → List ℕ × Sent
write_to_socket = write_all

-- What the system does with one output: the file's answer and the socket's.
pub record Answers : Type 0 where
  pub sink : Sink
  pub writes : List Write

-- One round of `callback`: the output that goes to the file or the socket, whether it went well,
-- and whether the client's socket is closed.
pub record Round : Type 0 where
  pub to_client : List ℕ
  pub to_disk : List ℕ
  pub closes_socket : Bool

module _ (f : Filter) where
  -- The switch on the kind of receiver. Another kind leaves the output pointer and length alone;
  -- they are NULL and 0 for such a worker, since its kind never changes.
  unfoldable pub filtered : ℤ → List ℕ → f.State → List ℕ × f.State
  filtered kind input s =
      if eqb_ℤ kind sdr_type_hackrf
      then f.process_cs8 input s
      else if eqb_ℤ kind sdr_type_rtl
      then f.process_cu8 input s
      else if eqb_ℤ kind sdr_type_airspy
      then f.process_cs16 input s
      else ([], s)

  unfoldable pub deliver : ClientConfig → Answers → List ℕ → Round
  deliver c a output =
      if c.destination == destination_file
      then record {
        to_client = [];
        to_disk = output;
        closes_socket = not (write_to_file a.sink (length output / sample_size));
      }
      else if c.destination == destination_socket
      then (let (out, end) = write_to_socket output a.writes in
          record {
            to_client = out;
            to_disk = [];
            closes_socket = elim end [ write_failed ↦ true | _ ↦ false ];
          })
      else record { to_client = []; to_disk = []; closes_socket = true }

  -- `callback`: buffer after buffer, until the queue answers NULL.
  unfoldable pub callback : ClientConfig → List (List ℕ × Answers) → f.State → List Round
  callback c [] s = []
  callback c ((input, a) ∷ rest) s =
      let (output, s') = filtered c.sdr_type input s in deliver c a output ∷ callback c rest s'

-- What a worker holds.
pub record Held : Type 0 where
  pub filter : Bool
  pub file : Bool
  pub gz : Bool
  pub queue : Bool
  pub thread : Bool

pub data Release : Type 0 where
  interrupts_queue joins_thread frees_thread destroys_queue closes_file closes_gz destroys_filter
        frees_worker :
      Release

abbrev pub when : Bool → Release → List Release
when true r = r ∷ []
when false r = []

-- `dsp_worker_destroy`
unfoldable pub dsp_worker_destroy : Held → List Release
dsp_worker_destroy w =
    when w.queue interrupts_queue
    ++ (when w.thread joins_thread
        ++ (when w.thread frees_thread
            ++ (when w.queue destroys_queue
                ++ (when w.file closes_file
                    ++ (when w.gz closes_gz
                        ++ (when w.filter destroys_filter ++ (frees_worker ∷ [])))))))

-- What the calls of `dsp_worker_start` answer.
pub record Grants : Type 0 where
  pub taps_created : Bool
  pub filter_created : Bool
  pub file_opened : Bool
  pub queue_created : Bool
  pub thread_memory : Bool
  pub thread_created : Bool

-- `divides_by_zero`: the quotients that are arguments of the filter's constructors.
pub data Start : Type 0 where
  running : Held → Start
  failed : List Release → Start
  divides_by_zero : Start

abbrev pub nothing : Held
nothing = record { filter = false; file = false; gz = false; queue = false; thread = false }

unfoldable pub start_thread : Grants → Held → Start
start_thread g w =
    if not g.queue_created
    then failed (dsp_worker_destroy w)
    else let w' = record w { queue = true } in
      if not g.thread_memory
      then failed (dsp_worker_destroy w')
      else if not g.thread_created
      then failed (frees_thread ∷ dsp_worker_destroy w')
      else running (record w' { thread = true })

unfoldable pub open_output : Bool → Grants → Held → Start
open_output use_gzip g w =
    if not g.file_opened
    then failed (dsp_worker_destroy w)
    else start_thread g (if use_gzip then record w { gz = true } else record w { file = true })

-- The optimization is one of two values, so the switch's default is never taken.
unfoldable pub dsp_worker_start : ServerConfig → ClientConfig → Grants → Start
dsp_worker_start sc c g =
    if to_u32 sc.lpf_cutoff_rate == 0
    then divides_by_zero
    else if not g.taps_created
    then failed (dsp_worker_destroy nothing)
    else if c.sampling_rate == 0
    then divides_by_zero
    else if not g.filter_created
    then failed (dsp_worker_destroy nothing)
    else open_output sc.use_gzip g (record nothing { filter = true })
