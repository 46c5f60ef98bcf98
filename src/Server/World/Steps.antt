-- ===== src/Server/World/Steps.antt =====
-- The interleavings of the acceptor, the client threads and the shutdown thread of
-- src/tcp_server.c.
use sdr_server.Prelude.{ℕ, ◌≡◌, ◌≢◌, Bool, true, false, any, ◌==◌, ◌||◌, ◌&&◌}
use sdr_server.Server.Admission.{Node}
use sdr_server.Server.World.{
  World, Phase, idle, enlisting, waiting, joining, dismissing, is_running, tcp_worker_end,
  stop_device, shutdown_callback, enlist, start_device,
}

-- Only the wait for the end of the shutdown thread keeps the mutex.
abbrev pub mutex_free : Phase → Bool
mutex_free (joining n) = false
mutex_free idle = true
mutex_free (enlisting n) = true
mutex_free (waiting n) = true
mutex_free (dismissing n) = true

abbrev pub has_id : ℕ → Node → Bool
has_id id n = n.config.id == id && n.config.is_running

-- The acceptor's node, and whether it has this id and its thread has not ended.
abbrev pub admitting : ℕ → Phase → Bool
admitting id idle = false
admitting id (enlisting n) = has_id id n
admitting id (waiting n) = has_id id n
admitting id (joining n) = has_id id n
admitting id (dismissing n) = has_id id n

pub data Step (w u : World) : Type 0 where
  -- A client thread ends: its client is in the list, or is being admitted.
  exits :
      (id : ℕ)
      → mutex_free w.phase ≡ true
      → (any (has_id id) w.tcp_nodes || admitting id w.phase) ≡ true
      → u ≡ tcp_worker_end id w
      → Step w u
  -- The shutdown thread stops the device, whoever has the mutex.
  halts : w.stopping ≡ true → w.receiving ≡ true → u ≡ stop_device w → Step w u
  -- It takes the mutex and flags the device as stopped.
  stops : mutex_free w.phase ≡ true → w.stopping ≡ true → u ≡ shutdown_callback w → Step w u
  admits :
      (n : Node)
      → w.phase ≡ idle
      → is_running n ≡ true
      → n.config.band_freq ≢ 0
      → u ≡ record w { phase = enlisting n }
      → Step w u
  enlists : (n : Node) → w.phase ≡ enlisting n → u ≡ (enlist n w).0 → Step w u
  wakes :
      (n : Node) (device_started : Bool)
      → w.phase ≡ waiting n
      → w.sdr_stopped ≡ true
      → w.shutdown_thread_created ≡ false
      → u ≡ (start_device device_started n w).0
      → Step w u
  joins :
      (n : Node)
      → w.phase ≡ waiting n
      → w.sdr_stopped ≡ true
      → w.shutdown_thread_created ≡ true
      → u ≡ record w { phase = joining n }
      → Step w u
  joined :
      (n : Node) (device_started : Bool)
      → w.phase ≡ joining n
      → w.stopping ≡ false
      → u ≡ (start_device device_started n w).0
      → Step w u
  -- The join of a refused node's thread that had ended before.
  dismissed :
      (n : Node)
      → w.phase ≡ dismissing n
      → is_running n ≡ false
      → u ≡ record w { phase = idle }
      → Step w u

pub data Reach (w : World) : World → Type 0 where
  here : Reach w w
  next : {u v : World} → Reach w u → Step u v → Reach w v
