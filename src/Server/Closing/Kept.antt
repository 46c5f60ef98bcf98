-- ===== src/Server/Closing/Kept.antt =====
-- src/tcp_server.c, the end of acceptor_worker: what its steps keep true.
use sdr_server.Prelude.{ℕ, ◌≡◌, refl, sym, subst, ap, true, false, List, [], ◌∷◌, any, arith}
use sdr_server.Server.Admission.{Node}
use sdr_server.Server.World.{
  World, idle, is_running, end_phase, tcp_worker_end, stop_device, shutdown_callback,
}
use sdr_server.Server.World.Steps.{has_id}
use sdr_server.Server.World.Calm.{Live, Ready}
use sdr_server.Server.World.Liveness.{exits-Live, stops-Live}
use sdr_server.Server.Closing.{
  Ending, draining, stopping_device, joining_shutdown, destroyed, Closing, mutex_released,
  CloseStep, exits, halts, stops, frees, drained, device_stopped, never_started, shutdown_joined,
  CloseReach, here, next,
}

-- What the acceptor has seen on its way.
abbrev pub At : Ending → World → Type 0
At draining w = Unit {0}
At stopping_device w = w.tcp_nodes ≡ []
At joining_shutdown w = (w.tcp_nodes ≡ []) × (w.sdr_stopped ≡ true)
At destroyed w = (w.tcp_nodes ≡ []) × (w.sdr_stopped ≡ true) × (w.shutdown_thread_created ≡ false)

pub record Sound (c : Closing) : Type 0 where
  pub live : Live c.world
  pub no_admission : c.world.phase ≡ idle
  pub device : c.world.sdr_stopped ≡ true → c.world.receiving ≡ false
  pub seen : At c.ending c.world

exits_seen :
    (id : ℕ) (e : Ending) (w : World)
    → mutex_released e w ≡ true
    → any (has_id id) w.tcp_nodes ≡ true
    → At e w
    → At e (tcp_worker_end id w)
exits_seen id draining w m h a = tt
exits_seen id stopping_device w m h a = cc
exits_seen id joining_shutdown w m h a = cc
exits_seen id destroyed w m h a = cc

stops_seen : (e : Ending) (w : World) → At e w → At e (shutdown_callback w)
unfolding shutdown_callback
stops_seen draining w a = tt
stops_seen stopping_device w a = a
stops_seen joining_shutdown w a = (a.0, refl)
stops_seen destroyed w a = (a.0, refl, a.2)

frees-Live :
    (n : Node) (ns : List Node) (w : World)
    → w.phase ≡ idle
    → w.tcp_nodes ≡ n ∷ ns
    → is_running n ≡ false
    → Live w
    → Live (record w { tcp_nodes = ns })
frees-Live n ns w i p r v = record {
  served = λ s. ground (arith, same, v.served s);
  unserved = λ s. ground (arith, same, v.unserved s);
  quiet = λ s. (ground (arith, same, v.quiet s), (v.quiet s).1);
  created = v.created;
  done = v.done;
  ready = subst (Ready ns w.sdr_stopped w.shutdown_thread_created) (sym i) tt;
}
  where
    same : any is_running w.tcp_nodes ≡ any is_running ns
    same = rw (p, r) refl

halted-Live : (w : World) → Live w → Live (stop_device w)
unfolding stop_device
halted-Live w v = record {
  served = v.served;
  unserved = v.unserved;
  quiet = v.quiet;
  created = v.created;
  done = v.done;
  ready = v.ready;
}

halted-At : (e : Ending) (w : World) → At e w → At e (stop_device w)
unfolding stop_device
halted-At draining w a = tt
halted-At stopping_device w a = a
halted-At joining_shutdown w a = a
halted-At destroyed w a = a

joined-Live :
    (w : World)
    → w.phase ≡ idle
    → w.stopping ≡ false
    → Live w
    → Live (record w { shutdown_thread_created = false })
joined-Live w i s v = record {
  served = v.served;
  unserved = v.unserved;
  quiet = v.quiet;
  created = λ h. cc;
  done = λ c h. cc;
  ready = subst (Ready w.tcp_nodes w.sdr_stopped false) (sym i) tt;
}

pub CloseStep-Sound : (c d : Closing) → CloseStep c d → Sound c → Sound d
unfolding stop_device shutdown_callback tcp_worker_end
CloseStep-Sound c d (exits id m h e) v = rw e (record {
  live = exits-Live id c.world (rw h refl) (rw v.no_admission refl) v.live;
  no_admission = ap (end_phase id) v.no_admission;
  device = v.device;
  seen = exits_seen id c.ending c.world m h v.seen;
})
CloseStep-Sound c d (halts s r e) v = rw e (record {
  live = halted-Live c.world v.live;
  no_admission = v.no_admission;
  device = λ k. refl;
  seen = halted-At c.ending c.world v.seen;
})
CloseStep-Sound c d (stops m s e) v = rw e (record {
  live = stops-Live c.world s (rw v.no_admission refl) v.live;
  no_admission = v.no_admission;
  device = λ s. refl;
  seen = stops_seen c.ending c.world v.seen;
})
CloseStep-Sound c d (frees n ns g p r e) v = rw e (record {
  live = frees-Live n ns c.world v.no_admission p r v.live;
  no_admission = v.no_admission;
  device = v.device;
  seen = subst (λ x. At x (record c.world { tcp_nodes = ns })) (sym g) tt;
})
CloseStep-Sound c d (drained g p e) v =
    rw e (record { live = v.live; no_admission = v.no_admission; device = v.device; seen = p })
CloseStep-Sound c d (device_stopped g s t e) v = rw e (record {
  live = v.live;
  no_admission = v.no_admission;
  device = v.device;
  seen = ((subst (λ x. At x c.world) g v.seen), s);
})
CloseStep-Sound c d (never_started g s t e) v = rw e (record {
  live = v.live;
  no_admission = v.no_admission;
  device = v.device;
  seen = (subst (λ x. At x c.world) g v.seen, s, t);
})
CloseStep-Sound c d (shutdown_joined g s e) v = rw e (record {
  live = joined-Live c.world v.no_admission s v.live;
  no_admission = v.no_admission;
  device = v.device;
  seen = let a = subst (λ x. At x c.world) g v.seen in (a.0, a.1, refl);
})

pub CloseReach-Sound : (c d : Closing) → CloseReach c d → Sound c → Sound d
CloseReach-Sound c d here v = v
CloseReach-Sound c d (next {d = u} r s) v = CloseStep-Sound u d s (CloseReach-Sound c u r v)
