-- ===== src/Xlating/Reference.antt =====
-- What the filter of src/xlating.c computes, without its buffers: a window of `taps_len` samples
-- every `decimation` samples of the stream, each with the phase turned once more.
use sdr_server.Prelude.{
  ℕ, zero, suc, ◌+◌, ◌≤◌, ◌<◌, ◌≡◌, refl, sym, ap, ◌∙◌, inl, inr, List, [], ◌∷◌, ◌++◌, ltb,
  if◌then◌else◌, length, take, drop, length-append, length-drop, take-append_le, drop-append_le,
  lt→ltb, ge→ltb, lt_or_ge, arith,
}

-- The outputs, the samples that are left, and the phase.
pub record Outcome (A B P : Type 0) : Type 0 where
  pub outputs : List B
  pub rest : List A
  pub phase : P

abbrev pub prepend : {A B P : Type 0} → List B → Outcome A B P → Outcome A B P
prepend ys r = record r { outputs = ys ++ r.outputs }

module _ {A B P : Type 0} (window : List A → P → B) (turn : P → P) (taps_len decimation : ℕ) where
  unfoldable pub run : ℕ → List A → P → Outcome A B P
  run zero xs phase = record { outputs = []; rest = xs; phase = phase }
  run (suc fuel) xs phase =
      let more =
        prepend (window (take taps_len xs) phase ∷ [])
          (run fuel (drop decimation xs) (turn phase)) in
      if ltb (length xs) taps_len then record { outputs = []; rest = xs; phase = phase } else more

  unfoldable pub reference : List A → P → Outcome A B P
  reference xs phase = run (suc (length xs)) xs phase

  pub run_stop :
      (f : ℕ) (xs : List A) (phase : P)
      → length xs < taps_len
      → run (suc f) xs phase ≡ record { outputs = []; rest = xs; phase = phase }
  unfolding run
  run_stop f xs phase h = rw (lt→ltb _ _ h)

  pub run_step :
      (f : ℕ) (xs : List A) (phase : P)
      → taps_len ≤ length xs
      → run (suc f) xs phase
        ≡ prepend (window (take taps_len xs) phase ∷ []) (run f (drop decimation xs) (turn phase))
  unfolding run
  run_step f xs phase h = rw (ge→ltb _ _ h)

  module _ (h : 0 < decimation) (h' : decimation ≤ taps_len) where
    -- More fuel than samples changes nothing.
    pub run_enough :
        (f g : ℕ) (xs : List A) (phase : P)
        → length xs < f
        → length xs < g
        → run f xs phase ≡ run g xs phase
    run_enough zero g xs phase p q = elim p [ ]
    run_enough (suc f) zero xs phase p q = elim q [ ]
    run_enough (suc f) (suc g) xs phase p q = elim (lt_or_ge (length xs) taps_len) [
      | inl e ↦ run_stop f xs phase e ∙ sym (run_stop g xs phase e)
      | inr e ↦
          run_step f xs phase e
          ∙ (ap (prepend (window (take taps_len xs) phase ∷ [])) (
                run_enough f g (drop decimation xs) (turn phase)
                  (omega (arith, length-drop decimation xs))
                  (omega (arith, length-drop decimation xs)))
              ∙ sym (run_step g xs phase e))
    ]

    pub length-rest : (f : ℕ) (xs : List A) (phase : P) → length (run f xs phase).rest ≤ length xs
    length-rest zero xs phase = unfold run in omega arith
    length-rest (suc f) xs phase = elim (lt_or_ge (length xs) taps_len) [
      | inl e ↦ rw (run_stop f xs phase e) (omega arith)
      | inr e ↦ rw (run_step f xs phase e) (
          omega (arith, length-rest f (drop decimation xs) (turn phase), length-drop decimation xs))
    ]

    -- A stream that goes on: what was left over is the start of what follows.
    pub run-append :
        (f g : ℕ) (xs ys : List A) (phase : P)
        → length xs < f
        → length xs + length ys < g
        → run g (xs ++ ys) phase
          ≡ prepend
              (run f xs phase).outputs
              (run g ((run f xs phase).rest ++ ys) (run f xs phase).phase)
    run-append zero g xs ys phase p q = elim p [ ]
    run-append (suc f) zero xs ys phase p q = elim q [ ]
    run-append (suc f) (suc g) xs ys phase p q = elim (lt_or_ge (length xs) taps_len) [
      | inl e ↦ rw (run_stop f xs phase e) refl
      | inr e ↦
          let past : List A = drop decimation xs in
          let r : Outcome A B P = run f past (turn phase) in
          let within : length (r.rest ++ ys) < g = omega (
            arith,
            length-append r.rest ys,
            length-rest f past (turn phase),
            length-drop decimation xs,
          ) in
          rw
            (
              run_step f xs phase e,
              run_step g (xs ++ ys) phase (omega (arith, length-append xs ys)),
              take-append_le taps_len xs ys e,
              drop-append_le decimation xs ys (omega arith),
            )
            (ap (prepend (window (take taps_len xs) phase ∷ [])) (
              run-append f g past ys (turn phase) (omega (arith, length-drop decimation xs))
                (omega (arith, length-drop decimation xs))
              ∙ ap (prepend r.outputs)
                  (run_enough g (suc g) (r.rest ++ ys) r.phase within (omega (arith, within)))))
    ]

    -- The same of the reference, which brings its own fuel.
    pub reference-append :
        (xs ys : List A) (phase : P)
        → reference (xs ++ ys) phase
          ≡ prepend
              (reference xs phase).outputs
              (reference ((reference xs phase).rest ++ ys) (reference xs phase).phase)
    unfolding reference
    reference-append xs ys phase =
        let r : Outcome A B P = run (suc (length xs)) xs phase in
        run-append (suc (length xs)) (suc (length (xs ++ ys))) xs ys phase (omega arith)
          (omega (arith, length-append xs ys))
        ∙ ap (prepend r.outputs) (
            run_enough (suc (length (xs ++ ys))) (suc (length (r.rest ++ ys))) (r.rest ++ ys)
              r.phase
              (omega (
                arith,
                length-append xs ys,
                length-append r.rest ys,
                length-rest (suc (length xs)) xs phase,
              ))
              (omega arith))
