-- ===== src/Driver/Handles.antt =====
-- Whether a driver has its device open, by the calls that it has made.
use sdr_server.Prelude.{
  ◌≡◌, refl, ◌∙◌, Bool, true, false, List, [], ◌∷◌, ◌++◌, All, if◌then◌else◌, Bool-cases, inl, inr,
}
use sdr_server.Prelude.Int.{ℤ}
use sdr_server.Driver.{Startup, started, refused, run_checked}

module _ {C : Type 0} (opens closes : C → Bool) (answer : C → ℤ) (bad : ℤ → Bool) where
  -- From whether it was open before; an opening call that is answered badly changes nothing.
  abbrev pub is_open : Bool → List C → Bool
  is_open b [] = b
  is_open b (c ∷ cs) =
      is_open
        (if closes c then false else if opens c then (if bad (answer c) then b else true) else b) cs

  -- A driver that has started has its device open, and one that has been refused has not.
  abbrev pub Handled : Startup C → Type 0
  Handled (started log) = is_open false log ≡ true
  Handled (refused code log) = is_open false log ≡ false

  abbrev pub Plain : C × ℤ → Type 0
  Plain c = (opens c.0 ≡ false) × (closes c.0 ≡ false)

  pub is_open-append :
      (b : Bool) (cs ds : List C) → is_open b (cs ++ ds) ≡ is_open (is_open b cs) ds
  is_open-append b [] ds = refl
  is_open-append b (c ∷ cs) ds =
      is_open-append
        (if closes c then false else if opens c then (if bad (answer c) then b else true) else b) cs
        ds

  -- Checked calls on an open device that neither open nor close it, each with a cleanup that
  -- closes it.
  pub run_checked-Handled :
      (closing : C → List C) (cs : List (C × ℤ)) (log : List C)
      → is_open false log ≡ true
      → All Plain cs
      → ((c : C) → opens c ≡ false → is_open true (closing c) ≡ false)
      → Handled (run_checked bad closing cs log)
  unfolding run_checked
  run_checked-Handled closing [] log o p k = o
  run_checked-Handled closing ((c, code) ∷ cs) log o (p, ps) k = elim (Bool-cases (bad code)) [
    | inl b ↦ rw b (is_open-append false log (c ∷ closing c) ∙ rw (o, p.1, p.0) (k c p.0))
    | inr b ↦ rw b (
        run_checked-Handled closing cs (log ++ (c ∷ []))
          (is_open-append false log (c ∷ []) ∙ rw (o, p.1, p.0)) ps k)
  ]

  -- The same behind the call that opens the device.
  pub run_checked-opening :
      (closing : C → List C) (o : C) (cs : List (C × ℤ))
      → opens o ≡ true
      → closes o ≡ false
      → closing o ≡ []
      → All Plain cs
      → ((c : C) → opens c ≡ false → is_open true (closing c) ≡ false)
      → Handled (run_checked bad closing ((o, answer o) ∷ cs) [])
  unfolding run_checked
  run_checked-opening closing o cs y n e p k = elim (Bool-cases (bad (answer o))) [
    | inl b ↦ rw (b, e, n, y, b)
    | inr b ↦ rw b (run_checked-Handled closing cs (o ∷ []) (rw (n, y, b)) p k)
  ]
