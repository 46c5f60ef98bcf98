-- ===== src/Server/World/Calm.antt =====
-- Runs of src/tcp_server.c without early departures and device failures.
use sdr_server.Prelude.{
  ℕ, ◌≡◌, refl, Bool, true, false, List, [], ◌∷◌, ◌++◌, arith, map, keep, any, ◌==◌, Bool-cases,
  inl, inr, ◌⊎◌,
}
use sdr_server.Server.Admission.{Node}
use sdr_server.Server.World.{
  World, Phase, idle, enlisting, waiting, joining, dismissing, is_running, end_if, end_phase,
}
use sdr_server.Server.World.Steps.{
  Step, exits, halts, stops, admits, enlists, wakes, joins, joined, dismissed, has_id, admitting,
}

abbrev pub being_admitted : ℕ → Phase → Bool
being_admitted id idle = false
being_admitted id (enlisting n) = n.config.id == id
being_admitted id (waiting n) = n.config.id == id
being_admitted id (joining n) = n.config.id == id
being_admitted id (dismissing n) = false

-- No client leaves while it is being admitted, and the device starts.
abbrev pub IsCalm : {w u : World} → Step w u → Type 0
IsCalm {w} (exits id free live e) = being_admitted id w.phase ≡ false
IsCalm (halts s r e) = Unit {0}
IsCalm (stops free s e) = Unit {0}
IsCalm (admits n i r b e) = Unit {0}
IsCalm (dismissed n p r e) = Unit {0}
IsCalm (enlists n p e) = Unit {0}
IsCalm (wakes n b p s c e) = b ≡ true
IsCalm (joins n p s c e) = Unit {0}
IsCalm (joined n b p s e) = b ≡ true

pub data CalmReach (w : World) : World → Type 0 where
  here : CalmReach w w
  next : {u v : World} → CalmReach w u → (s : Step u v) → IsCalm s → CalmReach w v

-- What the acceptor relies on, by its phase: the list's clients, whether the device is stopped and
-- whether a shutdown thread has been created.
abbrev pub Ready : List Node → Bool → Bool → Phase → Type 0
Ready ns stopped created idle = Unit {0}
Ready ns stopped created (enlisting n) = is_running n ≡ true
Ready ns stopped created (waiting n) = (is_running n ≡ true) × (ns ≡ [])
Ready ns stopped created (joining n) = (is_running n ≡ true) × (ns ≡ []) × (stopped ≡ true)
Ready ns stopped created (dismissing n) = stopped ≡ true → created ≡ true

pub record Live (w : World) : Type 0 where
  pub served : w.sdr_stopped ≡ false → (any is_running w.tcp_nodes ≡ true) ⊎ (w.stopping ≡ true)
  pub unserved : w.stopping ≡ true → any is_running w.tcp_nodes ≡ false
  pub quiet : w.sdr_stopped ≡ true → (any is_running w.tcp_nodes ≡ false) × (w.stopping ≡ false)
  pub created : w.stopping ≡ true → w.shutdown_thread_created ≡ true
  pub done : w.shutdown_thread_created ≡ true → w.stopping ≡ false → w.sdr_stopped ≡ true
  pub ready : Ready w.tcp_nodes w.sdr_stopped w.shutdown_thread_created w.phase

pub any_ended :
    (id : ℕ) (ns : List Node)
    → any is_running ns ≡ false
    → any is_running (map (end_if id) ns) ≡ false
any_ended id [] h = refl
any_ended id (n ∷ ns) h = ground (arith, any_ended id ns)

pub any-has_id : (id : ℕ) (ns : List Node) → any is_running ns ≡ false → any (has_id id) ns ≡ false
any-has_id id [] h = refl
any-has_id id (n ∷ ns) h = ground (arith, any-has_id id ns)

pub any-keep : (ns : List Node) → any is_running (keep is_running ns) ≡ any is_running ns
any-keep [] = refl
any-keep (n ∷ ns) = ground (arith, any-keep ns)

pub any-append :
    (ns : List Node) (n : Node) → is_running n ≡ true → any is_running (ns ++ n ∷ []) ≡ true
any-append [] n h = rw h
any-append (m ∷ ns) n h = ground (arith, any-append ns n h)

pub keep-cons : (ns ms : List Node) (m : Node) → keep is_running ns ≡ m ∷ ms → is_running m ≡ true
keep-cons [] ms m e = cc
keep-cons (n ∷ ns) ms m e = ground (arith, keep-cons ns ms m)

pub Ready-ended :
    (id : ℕ) (ns : List Node) (stopped created created' : Bool) (p : Phase)
    → being_admitted id p ≡ false
    → (created ≡ true → created' ≡ true)
    → Ready ns stopped created p
    → Ready (map (end_if id) ns) stopped created' (end_phase id p)
Ready-ended id ns stopped created created' idle b c h = tt
Ready-ended id ns stopped created created' (enlisting n) b c h = rw b h
Ready-ended id ns stopped created created' (waiting n) b c h = (rw b h.0, rw h.1)
Ready-ended id ns stopped created created' (joining n) b c h = (rw b h.0, rw h.1, h.2)
Ready-ended id ns stopped created created' (dismissing n) b c h =
    elim (Bool-cases (n.config.id == id)) [ inl e ↦ rw e tt | inr e ↦ rw e (λ s. c (h s)) ]

pub late_exit :
    (id : ℕ) (ns : List Node) (stopped created : Bool) (p : Phase)
    → admitting id p ≡ true
    → being_admitted id p ≡ false
    → Ready ns stopped created p
    → stopped ≡ true
    → created ≡ true
late_exit id ns stopped created idle a b r s = cc
late_exit id ns stopped created (enlisting n) a b r s = ground arith
late_exit id ns stopped created (waiting n) a b r s = ground arith
late_exit id ns stopped created (joining n) a b r s = ground arith
late_exit id ns stopped created (dismissing n) a b r s = r s
