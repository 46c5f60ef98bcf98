-- ===== src/Server/World/Deadlock.antt =====
-- A client that leaves while it is being admitted can stop the server of src/tcp_server.c.
use sdr_server.Prelude.{
  ℕ, ◌≡◌, ◌≢◌, refl, ap, subst, ◌∙◌, Bool, true, false, List, [], ◌∷◌, arith, any, map, keep,
  eqb_refl, ◌||◌,
}
use sdr_server.Server.Admission.{Node}
use sdr_server.Server.World.{
  World, idle, enlisting, waiting, joining, is_running, tcp_worker_end, stop_device, enlist, end_if,
  ended, enlist_among, cleanup_terminated_threads,
}
use sdr_server.Server.World.Steps.{
  Step, exits, halts, stops, admits, enlists, wakes, joins, joined, dismissed, Reach, here, next,
  has_id,
}

-- The acceptor holds the mutex and waits for a thread that needs it.
pub record Deadlocked (w : World) (n : Node) : Type 0 where
  pub held : w.phase ≡ joining n
  pub running : w.stopping ≡ true
  pub halted : w.receiving ≡ false

Deadlocked-no_step : (w u : World) (n : Node) → Deadlocked w n → ¬ Step w u
Deadlocked-no_step w u n d (exits id free live e) = ground arith
Deadlocked-no_step w u n d (halts s r e) = ground arith
Deadlocked-no_step w u n d (stops free s e) = ground arith
Deadlocked-no_step w u n d (admits m i r b e) = ground arith
Deadlocked-no_step w u n d (dismissed m p r e) = ground arith
Deadlocked-no_step w u n d (enlists m p e) = ground arith
Deadlocked-no_step w u n d (wakes m b p s c e) = ground arith
Deadlocked-no_step w u n d (joins m p s c e) = ground arith
Deadlocked-no_step w u n d (joined m b p s e) = ground arith

none_left :
    (id : ℕ) (ns : List Node)
    → any is_running ns ≡ false
    → any is_running (map (end_if id) ns) ≡ false
none_left id [] h = refl
none_left id (n ∷ ns) h = ground (arith, none_left id ns)

keep_none : (ns : List Node) → any is_running ns ≡ false → keep is_running ns ≡ []
keep_none [] h = refl
keep_none (n ∷ ns) h = ground (arith, keep_none ns)

-- The exit of the client that is being admitted, with nobody else running.
record LastExit (n : Node) (u : World) : Type 0 where
  phase : u.phase ≡ enlisting (ended n)
  nobody : any is_running u.tcp_nodes ≡ false
  stopped : u.sdr_stopped ≡ true
  created : u.shutdown_thread_created ≡ true
  stopping : u.stopping ≡ true

exit-LastExit :
    (w : World) (n : Node)
    → any is_running w.tcp_nodes ≡ false
    → w.sdr_stopped ≡ true
    → w.shutdown_thread_created ≡ false
    → LastExit n (tcp_worker_end n.config.id (record w { phase = enlisting n }))
unfolding tcp_worker_end
exit-LastExit w n h s c = record {
  phase = rw (eqb_refl n.config.id);
  nobody = none_left n.config.id w.tcp_nodes h;
  stopped = s;
  created = rw (none_left n.config.id w.tcp_nodes h, c);
  stopping = rw (none_left n.config.id w.tcp_nodes h, c);
}

record Waits (n : Node) (w u : World) : Type 0 where
  phase : u.phase ≡ waiting n
  stopped : u.sdr_stopped ≡ w.sdr_stopped
  created : u.shutdown_thread_created ≡ w.shutdown_thread_created
  stopping : u.stopping ≡ w.stopping
  receiving : u.receiving ≡ w.receiving

enlist-Waits :
    (n : Node) (w : World) → any is_running w.tcp_nodes ≡ false → Waits n w (enlist n w).0
unfolding enlist enlist_among cleanup_terminated_threads
enlist-Waits n w h = record {
  phase = rw (keep_none w.tcp_nodes h, enlist_among);
  stopped = rw (keep_none w.tcp_nodes h, enlist_among);
  created = rw (keep_none w.tcp_nodes h, enlist_among);
  stopping = rw (keep_none w.tcp_nodes h, enlist_among);
  receiving = rw (keep_none w.tcp_nodes h, enlist_among);
}

-- The shutdown thread stops the device if it has not been stopped.
halted : (w u : World) → Reach w u → u.stopping ≡ true → Reach w (record u { receiving = false })
unfolding stop_device
halted w u reached s = by_device u.receiving refl
  where
    by_device : (b : Bool) → u.receiving ≡ b → Reach w (record u { receiving = false })
    by_device true r = next reached (halts s r refl)
    by_device false r = subst (Reach w) (ap (λ b. record u { receiving = b }) r) reached

-- With no running client and the device stopped, a client whose thread ends before the acceptor
-- has listed it can lead to a deadlock: the thread creates a shutdown thread, for which the
-- acceptor waits with the mutex in hand, and none of the threads can take another step.
pub exits-Deadlocked :
    (w : World) (n : Node)
    → w.phase ≡ idle
    → any is_running w.tcp_nodes ≡ false
    → w.sdr_stopped ≡ true
    → w.shutdown_thread_created ≡ false
    → is_running n ≡ true
    → n.config.band_freq ≢ 0
    → (u : World) × Reach w u × Deadlocked u (ended n) × ((v : World) → ¬ Step u v)
exits-Deadlocked w n i none_running s c r b =
    let entered : World = record w { phase = enlisting n } in
    let left : World = tcp_worker_end n.config.id entered in
    let a = exit-LastExit w n none_running s c in
    let idle_device : World = record left { receiving = false } in
    let v : World = (enlist (ended n) idle_device).0 in
    let b₂ = enlist-Waits (ended n) idle_device a.nobody in
    let live : (any (has_id n.config.id) w.tcp_nodes || has_id n.config.id n) ≡ true =
      ground (arith, eqb_refl n.config.id) in
    let run₁ = next (next here (admits n i r b refl)) (exits n.config.id refl live refl) in
    let run₂ = next (halted w left run₁ a.stopping) (enlists (ended n) a.phase refl) in
    let held : Deadlocked (record v { phase = joining (ended n) }) (ended n) = record {
      held = refl;
      running = b₂.stopping ∙ a.stopping;
      halted = b₂.receiving;
    } in
    (
      record v { phase = joining (ended n) },
      next run₂ (joins (ended n) b₂.phase (b₂.stopped ∙ a.stopped) (b₂.created ∙ a.created) refl),
      held,
      λ x. Deadlocked-no_step (record v { phase = joining (ended n) }) x (ended n) held,
    )
