-- ===== src/Server/World/Liveness.antt =====
-- What a run without early departures and device failures of src/tcp_server.c keeps.
use sdr_server.Prelude.{
  ℕ, ◌≡◌, refl, subst, Bool, true, false, not, ◌&&◌, ◌||◌, List, [], ◌∷◌, arith, map, keep, any,
  ◌==◌, Bool-cases, inl, inr,
}
use sdr_server.Server.Admission.{Node}
use sdr_server.Server.World.{
  World, Phase, idle, enlisting, waiting, joining, dismissing, is_running, initial, tcp_worker_end,
  end_if, stop_device, shutdown_callback, enlist, enlist_among, cleanup_terminated_threads,
  start_device,
}
use sdr_server.Server.World.Steps.{
  Step, exits, halts, stops, admits, enlists, wakes, joins, joined, dismissed, mutex_free, has_id,
  admitting,
}
use sdr_server.Server.World.Calm.{
  being_admitted, IsCalm, CalmReach, here, next, Ready, Live, any_ended, any-has_id, any-keep,
  any-append, keep-cons, Ready-ended, late_exit,
}

pub exits-Live :
    (id : ℕ) (w : World)
    → (any (has_id id) w.tcp_nodes || admitting id w.phase) ≡ true
    → being_admitted id w.phase ≡ false
    → Live w
    → Live (tcp_worker_end id w)
unfolding tcp_worker_end
exits-Live id w live b v = record {
  served = λ s. ground (arith, v.served s, v.done);
  unserved = λ s. ground (arith, v.unserved, none);
  quiet = λ s. (none (v.quiet s).0, ground (arith, v.quiet s, none, created_late s));
  created = λ s. ground (arith, v.created);
  done = λ c s. ground (arith, v.done);
  ready =
      Ready-ended id w.tcp_nodes w.sdr_stopped w.shutdown_thread_created _ w.phase b
        (λ c. ground arith) v.ready;
}
  where
    none : any is_running w.tcp_nodes ≡ false → any is_running (map (end_if id) w.tcp_nodes) ≡ false
    none = any_ended id w.tcp_nodes

    created_late : w.sdr_stopped ≡ true → w.shutdown_thread_created ≡ true
    created_late s =
        late_exit id w.tcp_nodes w.sdr_stopped w.shutdown_thread_created w.phase
          (ground (arith, any-has_id id w.tcp_nodes (v.quiet s).0)) b v.ready s

pub stops-Live :
    (w : World)
    → w.stopping ≡ true
    → mutex_free w.phase ≡ true
    → Live w
    → Live (shutdown_callback w)
unfolding shutdown_callback
stops-Live w s f v = record {
  served = λ e. cc;
  unserved = λ e. cc;
  quiet = λ e. (v.unserved s, refl);
  created = λ e. cc;
  done = λ c e. refl;
  ready =
      ready_stopped w.tcp_nodes w.sdr_stopped w.shutdown_thread_created w.phase f (v.created s)
        v.ready;
}
  where
    ready_stopped :
        (ns : List Node) (stopped created : Bool) (p : Phase)
        → mutex_free p ≡ true
        → created ≡ true
        → Ready ns stopped created p
        → Ready ns true created p
    ready_stopped ns stopped created idle f c r = tt
    ready_stopped ns stopped created (enlisting n) f c r = r
    ready_stopped ns stopped created (waiting n) f c r = r
    ready_stopped ns stopped created (joining n) f c r = cc
    ready_stopped ns stopped created (dismissing n) f c r = λ s. c

-- The cleaned list has a running client exactly if the list had.
enlist_among-Live :
    (n : Node) (ns : List Node) (w : World)
    → any is_running ns ≡ any is_running w.tcp_nodes
    → ((m : Node) (ms : List Node) → ns ≡ m ∷ ms → is_running m ≡ true)
    → is_running n ≡ true
    → Live w
    → Live (enlist_among n ns w).0
unfolding enlist_among
enlist_among-Live n [] w same run r v = record {
  served = λ s. ground (arith, v.served s);
  unserved = λ s. refl;
  quiet = λ s. (refl, (v.quiet s).1);
  created = v.created;
  done = v.done;
  ready = (r, refl);
}
enlist_among-Live n (m ∷ ms) w same run r v =
    let busy : w.sdr_stopped ≡ false = ground (arith, run m ms refl, v.quiet) in
    elim (Bool-cases
      (not (w.current_band_freq == 0) && not (w.current_band_freq == n.config.band_freq))) [
        | inl e ↦ rw e (record {
          served = λ s. ground (arith, v.served s);
          unserved = λ s. ground (arith, v.unserved s);
          quiet = λ s. cc;
          created = v.created;
          done = v.done;
          ready = λ s. cc;
        })
        | inr e ↦ rw e (record {
          served = λ s. inl (any-append (m ∷ ms) n r);
          unserved = λ s. ground (arith, v.unserved s, run m ms refl);
          quiet = λ s. cc;
          created = v.created;
          done = v.done;
          ready = tt;
        })
      ]

start_device-Live :
    (n : Node) (w : World)
    → is_running n ≡ true
    → w.stopping ≡ false
    → Live (start_device true n w).0
unfolding start_device
start_device-Live n w r s = record {
  served = λ e. inl (rw r);
  unserved = λ e. cc;
  quiet = λ e. cc;
  created = λ e. cc;
  done = λ c e. cc;
  ready = tt;
}

Step-Live : (w u : World) (s : Step w u) → IsCalm s → Live w → Live u
unfolding enlist cleanup_terminated_threads stop_device
Step-Live w u (exits id free live e) c v = rw e (exits-Live id w live c v)
Step-Live w u (halts s r e) c v = rw e (record {
  served = v.served;
  unserved = v.unserved;
  quiet = v.quiet;
  created = v.created;
  done = v.done;
  ready = v.ready;
})
Step-Live w u (stops free s e) c v = rw e (stops-Live w s free v)
Step-Live w u (dismissed n p r e) c v = rw e (record {
  served = v.served;
  unserved = v.unserved;
  quiet = v.quiet;
  created = v.created;
  done = v.done;
  ready = tt;
})
Step-Live w u (admits n i r b e) c v = rw e (record {
  served = v.served;
  unserved = v.unserved;
  quiet = v.quiet;
  created = v.created;
  done = v.done;
  ready = r;
})
Step-Live w u (enlists n p e) c v = rw e (
    enlist_among-Live n (keep is_running w.tcp_nodes) w (any-keep w.tcp_nodes)
      (λ m ms. keep-cons w.tcp_nodes ms m)
      (subst (Ready w.tcp_nodes w.sdr_stopped w.shutdown_thread_created) p v.ready) v)
Step-Live w u (wakes n b p s k e) c v =
    let r = subst (Ready w.tcp_nodes w.sdr_stopped w.shutdown_thread_created) p v.ready in
    rw (e, c) (start_device-Live n w r.0 (v.quiet s).1)
Step-Live w u (joins n p s k e) c v =
    let r = subst (Ready w.tcp_nodes w.sdr_stopped w.shutdown_thread_created) p v.ready in
    rw e (record {
      served = v.served;
      unserved = v.unserved;
      quiet = v.quiet;
      created = v.created;
      done = v.done;
      ready = (r.0, r.1, s);
    })
Step-Live w u (joined n b p s e) c v =
    let r = subst (Ready w.tcp_nodes w.sdr_stopped w.shutdown_thread_created) p v.ready in
    rw (e, c) (start_device-Live n w r.0 s)

pub CalmReach-Live : (w : World) → CalmReach initial w → Live w
unfolding initial
CalmReach-Live w here = record {
  served = λ e. cc;
  unserved = λ e. cc;
  quiet = λ e. (refl, refl);
  created = λ e. cc;
  done = λ c e. refl;
  ready = tt;
}
CalmReach-Live w (next {u} r s c) = Step-Live u w s c (CalmReach-Live u r)
