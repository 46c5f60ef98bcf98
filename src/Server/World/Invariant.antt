-- ===== src/Server/World/Invariant.antt =====
-- What every interleaving of src/tcp_server.c keeps true of the client list and the device.
use sdr_server.Prelude.{
  ℕ, ◌≡◌, ◌≢◌, refl, sym, subst, Bool, true, false, not, ◌&&◌, List, [], ◌∷◌, arith, All,
  All-append, All-keep, map, keep, ◌==◌, Bool-cases, inl, inr,
}
use sdr_server.Server.Admission.{Node}
use sdr_server.Server.World.{
  World, Phase, idle, enlisting, waiting, joining, dismissing, is_running, initial, tcp_worker_end,
  end_if, end_phase, stop_device, shutdown_callback, enlist, enlist_among,
  cleanup_terminated_threads, start_device,
}
use sdr_server.Server.World.Steps.{
  Step, exits, halts, stops, admits, enlists, wakes, joins, joined, dismissed, Reach, here, next,
}

-- A client wants the frequency that the device is tuned to, and it wants one.
abbrev pub Tuned : ℕ → Node → Type 0
Tuned f n = (n.config.band_freq ≡ f) × (n.config.band_freq ≢ 0)

abbrev pub Wants : Phase → Type 0
Wants idle = Unit {0}
Wants (enlisting n) = n.config.band_freq ≢ 0
Wants (waiting n) = n.config.band_freq ≢ 0
Wants (joining n) = n.config.band_freq ≢ 0
Wants (dismissing n) = n.config.band_freq ≢ 0

-- While the acceptor waits for the device the list is empty, and the frequency is the new client's.
abbrev pub Retunes : List Node → ℕ → Phase → Type 0
Retunes ns f (waiting n) = (ns ≡ []) × (f ≡ n.config.band_freq)
Retunes ns f (joining n) = (ns ≡ []) × (f ≡ n.config.band_freq)
Retunes ns f idle = Unit {0}
Retunes ns f (enlisting n) = Unit {0}
Retunes ns f (dismissing n) = Unit {0}

pub record Inv (w : World) : Type 0 where
  pub tuned : All (Tuned w.current_band_freq) w.tcp_nodes
  pub wants : Wants w.phase
  pub retunes : Retunes w.tcp_nodes w.current_band_freq w.phase
  pub flagged : w.sdr_stopped ≡ true → w.receiving ≡ false
  pub receives : w.sdr_stopped ≡ false → w.stopping ≡ false → w.receiving ≡ true
  pub created : w.stopping ≡ true → w.shutdown_thread_created ≡ true

Tuned-ended : (f id : ℕ) (ns : List Node) → All (Tuned f) ns → All (Tuned f) (map (end_if id) ns)
Tuned-ended f id [] h = tt
Tuned-ended f id (n ∷ ns) h = (ground arith, Tuned-ended f id ns h.1)

Wants-ended : (id : ℕ) (p : Phase) → Wants p → Wants (end_phase id p)
Wants-ended id idle h = tt
Wants-ended id (enlisting n) h = ground arith
Wants-ended id (waiting n) h = ground arith
Wants-ended id (joining n) h = ground arith
Wants-ended id (dismissing n) h = elim (Bool-cases (n.config.id == id)) [
  | inl e ↦ rw e tt
  | inr e ↦ rw e h
]

Retunes-ended :
    (id f : ℕ) (ns : List Node) (p : Phase)
    → Retunes ns f p
    → Retunes (map (end_if id) ns) f (end_phase id p)
Retunes-ended id f ns idle h = tt
Retunes-ended id f ns (enlisting n) h = tt
Retunes-ended id f ns (waiting n) h = (rw h.0, ground arith)
Retunes-ended id f ns (joining n) h = (rw h.0, ground arith)
Retunes-ended id f ns (dismissing n) h = elim (Bool-cases (n.config.id == id)) [
  | inl e ↦ rw e tt
  | inr e ↦ rw e tt
]

tcp_worker_end-Inv : (id : ℕ) (w : World) → Inv w → Inv (tcp_worker_end id w)
unfolding tcp_worker_end
tcp_worker_end-Inv id w v = record {
  tuned = Tuned-ended w.current_band_freq id w.tcp_nodes v.tuned;
  wants = Wants-ended id w.phase v.wants;
  retunes = Retunes-ended id w.current_band_freq w.tcp_nodes w.phase v.retunes;
  flagged = v.flagged;
  receives = λ s t. ground (arith, v.receives);
  created = ground (arith, v.created);
}

enlist_among-Inv :
    (n : Node) (ns : List Node) (w : World)
    → Inv w
    → n.config.band_freq ≢ 0
    → All (Tuned w.current_band_freq) ns
    → Inv (enlist_among n ns w).0
unfolding enlist_among
enlist_among-Inv n [] w v b h = record {
  tuned = tt;
  wants = b;
  retunes = (refl, refl);
  flagged = v.flagged;
  receives = v.receives;
  created = v.created;
}
enlist_among-Inv n (m ∷ ms) w v b h =
    elim (Bool-cases
      (not (w.current_band_freq == 0) && not (w.current_band_freq == n.config.band_freq))) [
        | inl e ↦ rw e (record {
          tuned = h;
          wants = b;
          retunes = tt;
          flagged = v.flagged;
          receives = v.receives;
          created = v.created;
        })
        | inr e ↦ rw e (record {
          tuned = (
            h.0,
            All-append (Tuned w.current_band_freq) ms (n ∷ []) h.1 (ground (arith, h.0), tt),
          );
          wants = tt;
          retunes = tt;
          flagged = v.flagged;
          receives = v.receives;
          created = v.created;
        })
      ]

start_device-Inv :
    (started : Bool) (n : Node) (w : World)
    → Inv w
    → n.config.band_freq ≢ 0
    → w.tcp_nodes ≡ []
    → w.current_band_freq ≡ n.config.band_freq
    → (w.stopping ≡ false)
    → Inv (start_device started n w).0
unfolding start_device
start_device-Inv true n w v b e f s = record {
  tuned = ((sym f, b), tt);
  wants = tt;
  retunes = tt;
  flagged = λ e. cc;
  receives = λ e t. refl;
  created = λ h. cc;
}
start_device-Inv false n w v b e f s = record {
  tuned = v.tuned;
  wants = b;
  retunes = tt;
  flagged = v.flagged;
  receives = v.receives;
  created = λ h. cc;
}

not_stopping : (w : World) → Inv w → w.shutdown_thread_created ≡ false → w.stopping ≡ false
not_stopping w v c = ground (arith, v.created)

-- Every step of every thread keeps the invariant: all listed clients want the one frequency that
-- the device is tuned to, the list is empty while the acceptor retunes the device, the device
-- never receives while it is flagged as stopped, it receives while it is neither flagged nor being
-- stopped, and a running shutdown thread is recorded.
pub Step-Inv : (w u : World) → Step w u → Inv w → Inv u
unfolding enlist cleanup_terminated_threads stop_device shutdown_callback
Step-Inv w u (exits id free live e) v = rw e (tcp_worker_end-Inv id w v)
Step-Inv w u (halts s r e) v = rw e (record {
  tuned = v.tuned;
  wants = v.wants;
  retunes = v.retunes;
  flagged = λ k. refl;
  receives = λ k t. cc;
  created = v.created;
})
Step-Inv w u (stops free s e) v = rw e (record {
  tuned = v.tuned;
  wants = v.wants;
  retunes = v.retunes;
  flagged = λ e. refl;
  receives = λ e t. cc;
  created = λ h. cc;
})
Step-Inv w u (dismissed n p r e) v = rw e (record {
  tuned = v.tuned;
  wants = tt;
  retunes = tt;
  flagged = v.flagged;
  receives = v.receives;
  created = v.created;
})
Step-Inv w u (admits n i r b e) v = rw e (record {
  tuned = v.tuned;
  wants = b;
  retunes = tt;
  flagged = v.flagged;
  receives = v.receives;
  created = v.created;
})
Step-Inv w u (enlists n p e) v = rw e (
    enlist_among-Inv n (keep is_running w.tcp_nodes) w v (subst Wants p v.wants)
      (All-keep (Tuned w.current_band_freq) is_running w.tcp_nodes v.tuned))
Step-Inv w u (wakes n b p s c e) v =
    let r = subst (Retunes w.tcp_nodes w.current_band_freq) p v.retunes in
    rw e (start_device-Inv b n w v (subst Wants p v.wants) r.0 r.1 (not_stopping w v c))
Step-Inv w u (joins n p s c e) v = rw e (record {
  tuned = v.tuned;
  wants = subst Wants p v.wants;
  retunes = subst (Retunes w.tcp_nodes w.current_band_freq) p v.retunes;
  flagged = v.flagged;
  receives = v.receives;
  created = v.created;
})
Step-Inv w u (joined n b p s e) v =
    let r = subst (Retunes w.tcp_nodes w.current_band_freq) p v.retunes in
    rw e (start_device-Inv b n w v (subst Wants p v.wants) r.0 r.1 s)

initial-Inv : Inv initial
unfolding initial
initial-Inv = record {
  tuned = tt;
  wants = tt;
  retunes = tt;
  flagged = λ e. refl;
  receives = λ e t. cc;
  created = λ h. cc;
}

-- After any interleaving of the threads from the start of the server, all listed clients want the
-- one frequency that the device is tuned to, the list is empty while the acceptor retunes the
-- device, the device never receives while it is flagged as stopped, it receives while it is neither
-- flagged nor being stopped, and a running shutdown thread is recorded.
pub Reach-Inv : (w : World) → Reach initial w → Inv w
Reach-Inv w here = initial-Inv
Reach-Inv w (next {u} r s) = Step-Inv u w s (Reach-Inv u r)
