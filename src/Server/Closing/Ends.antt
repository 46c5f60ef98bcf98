-- ===== src/Server/Closing/Ends.antt =====
-- src/tcp_server.c, the end of acceptor_worker: it is never stuck, and nothing runs behind it.
use sdr_server.Prelude.{
  ℕ, zero, suc, ◌≡◌, refl, ap, true, false, List, [], ◌∷◌, any, map, length, length-map, arith, ◌∙◌,
  Bool-cases, inl, inr,
}
use sdr_server.Server.Admission.{Node}
use sdr_server.Server.World.{
  World, idle, is_running, end_if, initial, tcp_worker_end, shutdown_callback,
}
use sdr_server.Server.World.Steps as Steps
use sdr_server.Server.World.Steps.{has_id, Reach}
use sdr_server.Server.World.Invariant.{Reach-Inv}
use sdr_server.Server.World.Calm as Calm
use sdr_server.Server.World.Calm.{CalmReach, Live, Ready}
use sdr_server.Server.World.Liveness.{CalmReach-Live}
use sdr_server.Server.Closing.{
  Ending, draining, stopping_device, joining_shutdown, destroyed, Closing, exits, stops, frees,
  drained, device_stopped, never_started, shutdown_joined, CloseReach, here, next,
}
use sdr_server.Server.Closing.Kept.{Sound, CloseStep-Sound, CloseReach-Sound}

CloseReach-trans : {c d e : Closing} → CloseReach c d → CloseReach d e → CloseReach c e
CloseReach-trans r here = r
CloseReach-trans r (next s t) = next (CloseReach-trans r s) t

abbrev pub Finishes : Closing → Type 0
Finishes c = (u : Closing) × CloseReach c u × (u.ending ≡ destroyed)

by_way : {c d : Closing} → CloseReach c d → Finishes d → Finishes c
by_way r (u, s, e) = (u, CloseReach-trans r s, e)

-- The acceptor's wait for the device.
from_stopped :
    (w : World)
    → Live w
    → w.sdr_stopped ≡ true
    → Finishes (record { world = w; ending = stopping_device })
from_stopped w v s = elim (Bool-cases w.shutdown_thread_created) [
  | inl t ↦ (
    _,
    next (next here (device_stopped refl s t refl)) (shutdown_joined refl (v.quiet s).1 refl),
    refl,
  )
  | inr t ↦ (_, next here (never_started refl s t refl), refl)
]

from_drained :
    (w : World)
    → Sound (record { world = w; ending = stopping_device })
    → Finishes (record { world = w; ending = stopping_device })
unfolding shutdown_callback
from_drained w v = elim (Bool-cases w.sdr_stopped) [
  | inl s ↦ from_stopped w v.live s
  | inr s ↦
      let stopping : w.stopping ≡ true =
        ground (arith, v.live.served s, ap (any is_running) v.seen) in
      let step = stops (rw s refl) stopping refl in
      by_way (next here step)
        (from_stopped (shutdown_callback w) (CloseStep-Sound _ _ step v).live refl)
]

stopped_if : (n : Node) → is_running n ≡ true → is_running (end_if n.config.id n) ≡ false
stopped_if n r = ground arith

-- Each round ends the first node, if it runs, and frees it.
from_draining :
    (k : ℕ) (ms : List Node) (w : World)
    → w.tcp_nodes ≡ ms
    → length ms ≡ k
    → Sound (record { world = w; ending = draining })
    → Finishes (record { world = w; ending = draining })
unfolding tcp_worker_end
from_draining k [] w p l v =
    let step = drained refl p refl in
    by_way (next here step) (from_drained w (CloseStep-Sound _ _ step v))
from_draining zero (n ∷ ns) w p l v = absurd (omega arith)
from_draining (suc k) (n ∷ ns) w p l v = elim (Bool-cases (is_running n)) [
  | inr r ↦
      let step = frees n ns refl p r refl in
      by_way (next here step)
        (from_draining k ns _ refl (omega (arith, l)) (CloseStep-Sound _ _ step v))
  | inl r ↦
      let id = n.config.id in
      let leaves = exits id (rw (p, r) refl) (rw p (ground arith)) refl in
      let freed =
        frees (end_if id n) (map (end_if id) ns) refl (ap (map (end_if id)) p) (stopped_if n r)
          refl in
      by_way (next (next here leaves) freed) (
        from_draining k (map (end_if id) ns) _ refl (length-map ns (end_if id) ∙ shorter l)
          (CloseStep-Sound _ _ freed (CloseStep-Sound _ _ leaves v)))
]
  where
    shorter : length (n ∷ ns) ≡ suc k → length ns ≡ k
    shorter h = omega arith

finishes :
    (e : Ending) (w : World)
    → Sound (record { world = w; ending = e })
    → Finishes (record { world = w; ending = e })
finishes draining w v = from_draining (length w.tcp_nodes) w.tcp_nodes w refl refl v
finishes stopping_device w v = from_drained w v
finishes joining_shutdown w v =
    (_, next here (shutdown_joined refl (v.live.quiet v.seen.1).1 refl), refl)
finishes destroyed w v = (_, here, refl)

-- No client and no thread is left, and the device does not receive.
abbrev pub Over : World → Type 0
Over w =
    (w.tcp_nodes ≡ [])
    × (w.receiving ≡ false)
    × (w.stopping ≡ false)
    × (w.shutdown_thread_created ≡ false)

over : (e : Ending) (w : World) → Sound (record { world = w; ending = e }) → e ≡ destroyed → Over w
over draining w v e = cc
over stopping_device w v e = cc
over joining_shutdown w v e = cc
over destroyed w v e = (v.seen.0, v.device v.seen.1, (v.live.quiet v.seen.1).1, v.seen.2)

abbrev pub closing : World → Closing
closing w = record { world = w; ending = draining }

calm_reach : {w u : World} → CalmReach w u → Reach w u
calm_reach Calm.here = Steps.here
calm_reach (Calm.next r s c) = Steps.next (calm_reach r) s

-- The server closes in a run without early departures and device failures, with no client being
-- admitted. However the ends of the threads interleave with what the acceptor does: from wherever it is, the
-- acceptor can get to the device's destruction; and whenever it has, every node has been freed, the
-- device does not receive, and the shutdown thread has been joined if there was one.
pub closing-Over :
    (w : World)
    → CalmReach initial w
    → w.phase ≡ idle
    → (d : Closing) → CloseReach (closing w) d
    → (d.ending ≡ destroyed → Over d.world) × Finishes d
closing-Over w r p d s =
    let v = CloseReach-Sound (closing w) d s (record {
      live = CalmReach-Live w r;
      no_admission = p;
      device = (Reach-Inv w (calm_reach r)).flagged;
      seen = tt;
    }) in
    (over d.ending d.world v, finishes d.ending d.world v)
