-- ===== src/DspWorker/Lifetime.antt =====
-- What a worker of src/dsp_worker.c acquires, it releases.
use sdr_server.Prelude.{
  ℕ, ◌≡◌, refl, Bool, true, false, not, ◌&&◌, List, arith, ◌==◌, ◌+◌, [], ◌∷◌, if◌then◌else◌,
  Bool-cases, inl, inr,
}
use sdr_server.Config.{ServerConfig, to_u32}
use sdr_server.Server.{ClientConfig}
use sdr_server.DspWorker.{
  Held, Release, interrupts_queue, joins_thread, frees_thread, destroys_queue, closes_file,
  closes_gz, destroys_filter, frees_worker, dsp_worker_destroy, Grants, Start, running, failed,
  divides_by_zero, nothing, start_thread, open_output, dsp_worker_start,
}

abbrev pub number : Release → ℕ
number interrupts_queue = 0
number joins_thread = 1
number frees_thread = 2
number destroys_queue = 3
number closes_file = 4
number closes_gz = 5
number destroys_filter = 6
number frees_worker = 7

-- How often something is released.
abbrev pub times : Release → List Release → ℕ
times r [] = 0
times r (s ∷ rs) = (if number s == number r then 1 else 0) + times r rs

abbrev pub once_if : Bool → ℕ
once_if b = if b then 1 else 0

-- The releases of a failed start: once each of the filter, the output, the queue and the memory of
-- the thread as far as it was acquired before the failure, of the worker's structure, and no join.
pub record Balanced (sc : ServerConfig) (g : Grants) (rs : List Release) : Type 0 where
  pub worker : times frees_worker rs ≡ 1
  pub filter : times destroys_filter rs ≡ once_if (g.taps_created && g.filter_created)
  pub file :
      times closes_file rs
      ≡ once_if (g.taps_created && (g.filter_created && (g.file_opened && not sc.use_gzip)))
  pub gz :
      times closes_gz rs
      ≡ once_if (g.taps_created && (g.filter_created && (g.file_opened && sc.use_gzip)))
  pub queue :
      times destroys_queue rs
      ≡ once_if (g.taps_created && (g.filter_created && (g.file_opened && g.queue_created)))
  pub memory :
      times frees_thread rs
      ≡ once_if (
          g.taps_created
          && (g.filter_created && (g.file_opened && (g.queue_created && g.thread_memory))))
  pub thread : times joins_thread rs ≡ 0

-- A worker that runs holds its filter, queue and thread, and one of the two outputs.
pub record Complete (sc : ServerConfig) (w : Held) : Type 0 where
  pub filter : w.filter ≡ true
  pub queue : w.queue ≡ true
  pub thread : w.thread ≡ true
  pub file : w.file ≡ not sc.use_gzip
  pub gz : w.gz ≡ sc.use_gzip

abbrev pub Accounted : ServerConfig → Grants → Start → Type 0
Accounted sc g (running w) = Complete sc w
Accounted sc g (failed rs) = Balanced sc g rs
Accounted sc g divides_by_zero = Unit {0}

module _ (sc : ServerConfig) where
  with_output :
      (gzip taps filter opened created memory thread : Bool)
      → sc.use_gzip ≡ gzip
      → taps ≡ true
      → filter ≡ true
      → Accounted sc
          (record {
            taps_created = taps;
            filter_created = filter;
            file_opened = opened;
            queue_created = created;
            thread_memory = memory;
            thread_created = thread;
          })
          (open_output gzip
            (record {
              taps_created = taps;
              filter_created = filter;
              file_opened = opened;
              queue_created = created;
              thread_memory = memory;
              thread_created = thread;
            })
            (record nothing { filter = true }))
  unfolding open_output start_thread dsp_worker_destroy
  with_output true taps filter false created memory thread e t f = ground arith
  with_output false taps filter false created memory thread e t f = ground arith
  with_output true taps filter true false memory thread e t f = ground arith
  with_output false taps filter true false memory thread e t f = ground arith
  with_output true taps filter true true false thread e t f = ground arith
  with_output false taps filter true true false thread e t f = ground arith
  with_output true taps filter true true true false e t f = ground arith
  with_output false taps filter true true true false e t f = ground arith
  with_output true taps filter true true true true e t f = ground arith
  with_output false taps filter true true true true e t f = ground arith

-- A worker that starts holds everything it needs; one that is refused has released once each its
-- structure, and of its filter, output, queue and thread's memory what it had acquired, and joins no
-- thread. What the filter's creation does with the taps is not part of this.
pub dsp_worker_start-Accounted :
    (sc : ServerConfig) (c : ClientConfig) (g : Grants) → Accounted sc g (dsp_worker_start sc c g)
unfolding dsp_worker_start dsp_worker_destroy
dsp_worker_start-Accounted sc c g = elim (Bool-cases (to_u32 sc.lpf_cutoff_rate == 0)) [
  | inl z ↦ simp z tt
  | inr z ↦ elim (Bool-cases g.taps_created) [
    | inr t ↦
        simp (z, t)
          (record {
            worker = refl;
            filter = simp t;
            file = simp t;
            gz = simp t;
            queue = simp t;
            memory = simp t;
            thread = refl;
          })
    | inl t ↦ elim (Bool-cases (c.sampling_rate == 0)) [
      | inl s ↦ simp (z, t, s) tt
      | inr s ↦ elim (Bool-cases g.filter_created) [
        | inr f ↦
            simp (z, t, s, f)
              (record {
                worker = refl;
                memory = simp (t, f);
                filter = simp (t, f);
                file = simp (t, f);
                gz = simp (t, f);
                queue = simp (t, f);
                thread = refl;
              })
        | inl f ↦
            simp (z, t, s, f)
              (with_output sc sc.use_gzip g.taps_created g.filter_created g.file_opened
                g.queue_created g.thread_memory g.thread_created refl t f)
      ]
    ]
  ]
]
