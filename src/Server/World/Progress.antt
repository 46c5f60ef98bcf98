-- ===== src/Server/World/Progress.antt =====
-- Without early departures and device failures the acceptor of src/tcp_server.c is never stuck.
use sdr_server.Prelude.{
  ◌≡◌, refl, subst, true, false, [], ◌∷◌, arith, any, Bool-cases, inl, inr, ap,
}
use sdr_server.Server.Admission.{Node}
use sdr_server.Server.World.{
  World, idle, waiting, joining, is_running, initial, shutdown_callback, start_device,
}
use sdr_server.Server.World.Steps.{stops, wakes, joins, joined}
use sdr_server.Server.World.Calm.{CalmReach, here, next, Ready}
use sdr_server.Server.World.Liveness.{CalmReach-Live}

-- The client that is being admitted has this id.

-- The client is served: it is listed, the device receives, and the acceptor is free.
pub record Served (n : Node) (u : World) : Type 0 where
  pub free : u.phase ≡ idle
  pub listed : u.tcp_nodes ≡ n ∷ []
  pub receiving : u.receiving ≡ true

abbrev pub Serves : World → Node → Type 0
Serves w n = (u : World) × CalmReach w u × Served n u

start_device-Served : (n : Node) (w : World) → Served n (start_device true n w).0
unfolding start_device
start_device-Served n w = record { free = refl; listed = refl; receiving = refl }

joins_then :
    (w v : World) (n : Node)
    → CalmReach w v
    → v.phase ≡ waiting n
    → v.sdr_stopped ≡ true
    → v.stopping ≡ false
    → Serves w n
joins_then w v n r p s t = elim (Bool-cases v.shutdown_thread_created) [
  | inl c ↦
      let j : World = record v { phase = joining n } in
      (
        (start_device true n j).0,
        next (next r (joins n p s c refl) tt) (joined n true refl t refl) refl,
        start_device-Served n j,
      )
  | inr c ↦
      ((start_device true n v).0, next r (wakes n true p s c refl) refl, start_device-Served n v)
]

-- In a run without early departures and device failures, a client for which the acceptor waits
-- can always be served: such a run goes on to a world in which it is the listed client, the device
-- receives and the acceptor is free.
pub waiting-Serves : (w : World) (n : Node) → CalmReach initial w → w.phase ≡ waiting n → Serves w n
unfolding shutdown_callback
waiting-Serves w n r p =
    let v = CalmReach-Live w r in
    elim (Bool-cases w.sdr_stopped) [
      | inl s ↦ joins_then w w n here p s (v.quiet s).1
      | inr s ↦
          let ready = subst (Ready w.tcp_nodes w.sdr_stopped w.shutdown_thread_created) p v.ready in
          joins_then w (shutdown_callback w) n
            (next here (stops (rw p) (ground (arith, v.served s, ap (any is_running) ready.1)) refl)
              tt)
            p refl refl
    ]

-- So can a client for which the acceptor waits with the mutex in hand.
pub joining-Serves : (w : World) (n : Node) → CalmReach initial w → w.phase ≡ joining n → Serves w n
joining-Serves w n r p =
    let v = CalmReach-Live w r in
    let ready = subst (Ready w.tcp_nodes w.sdr_stopped w.shutdown_thread_created) p v.ready in
    (
      (start_device true n w).0,
      next here (joined n true p (v.quiet ready.2).1 refl) refl,
      start_device-Served n w,
    )
