-- ===== src/Xlating/Loop.antt =====
-- The loop of src/xlating.c over the positions of the working buffer, against the reference: every
-- index stays inside the working buffer and the output buffer.
use sdr_server.Prelude.{
  ℕ, zero, suc, ◌+◌, ◌-◌, ◌*◌, ◌≤◌, ◌<◌, ◌≡◌, refl, inl, inr, some, List, [], ◌∷◌, length, take,
  drop, length-drop, length-take, drop-drop, take-drop-take, lt→ltb, ge→ltb, lt_or_ge, arith,
}
use sdr_server.Xlating.{Kernel, loop}
use sdr_server.Xlating.Reference.{Outcome, run, run_stop, run_step}

-- A kernel reads a window, of the filter's length, of the samples at its position.
abbrev pub Reads : {A B P : Type 0} → Kernel A B P → ℕ → (List A → P → B) → Type 0
Reads {A} {P = P} k taps_len window =
    (buf : List A) (i : ℕ) (phase : P)
    → i + taps_len ≤ length buf
    → k.output_at buf i phase ≡ some (window (take taps_len (drop i buf)) phase)

module _ {A B P : Type 0} (k : Kernel A B P) (buf : List A) (decimation room max_index : ℕ) where
  loop_stop :
      (fuel i produced : ℕ) (phase : P)
      → max_index ≤ i
      → loop k buf decimation room max_index (suc fuel) i produced phase ≡ some ([], i, phase)
  unfolding loop
  loop_stop fuel i produced phase h = rw (ge→ltb _ _ h)

  loop_step :
      (fuel i produced : ℕ) (phase : P) {y : B} {ys : List B} {last : ℕ} {phase' : P}
      → i < max_index
      → produced < room
      → k.output_at buf i phase ≡ some y
      → loop k buf decimation room max_index fuel (i + decimation) (produced + 1) (k.turn phase)
        ≡ some (ys, last, phase')
      → loop k buf decimation room max_index (suc fuel) i produced phase
        ≡ some (y ∷ ys, last, phase')
  unfolding loop
  loop_step fuel i produced phase h h' e e' = rw (lt→ltb _ _ h, lt→ltb _ _ h', e, e')

module _ {A B P : Type 0} (k : Kernel A B P) (window : List A → P → B) where
  -- The reference on the samples of the buffer up to `working_len`.
  module _ (buf : List A) (taps_len decimation room working_len : ℕ)
      (reads : Reads k taps_len window) (forward : 0 < decimation)
      (overlapping : decimation ≤ taps_len) (whole : working_len ≤ length buf)
      (enough : working_len - (taps_len - 1) ≤ room * decimation) where
    abbrev live : List A
    live = take working_len buf

    abbrev goes : ℕ → ℕ → P → Outcome A B P
    goes fuel i phase = run window k.turn taps_len decimation fuel (drop i live) phase

    length-live : (i : ℕ) → length (drop i live) ≡ working_len - i
    length-live i = omega (arith, length-drop i live, length-take working_len buf)

    take-drop-live :
        (i : ℕ)
        → i + taps_len ≤ working_len
        → take taps_len (drop i live) ≡ take taps_len (drop i buf)
    take-drop-live i h = take-drop-take taps_len i working_len buf h

    room_left :
        (i produced : ℕ)
        → produced * decimation ≤ i
        → i < working_len - (taps_len - 1)
        → produced < room
    room_left i produced h h' = grind arith

    pub loop-run :
        (fuel i produced : ℕ) (phase : P)
        → i ≤ working_len
        → working_len - i < fuel
        → produced * decimation ≤ i
        → (last : ℕ) × (loop k buf decimation room
              (working_len - (taps_len - 1))
              fuel
              i
              produced
              phase
            ≡ some ((goes fuel i phase).outputs, last, (goes fuel i phase).phase))
          × (drop last live ≡ (goes fuel i phase).rest)
          × (last ≤ working_len)
          × (working_len - last ≤ taps_len - 1)
    loop-run zero i produced phase p q r = elim q [ ]
    loop-run (suc fuel) i produced phase p q r = elim (lt_or_ge i (working_len - (taps_len - 1))) [
      | inr e ↦
          rw
            (run_stop window k.turn taps_len decimation fuel (drop i live) phase
              (omega (arith, length-live i)))
            (i, loop_stop k buf decimation room _ fuel i produced phase e, refl, p, omega arith)
      | inl e ↦
          let (last, runs, left, inside, short) =
            loop-run fuel (i + decimation) (produced + 1) (k.turn phase) (omega arith) (omega arith)
              (omega arith) in
          rw
            (
              run_step window k.turn taps_len decimation fuel (drop i live) phase
                  (omega (arith, length-live i)),
              drop-drop decimation i live,
              take-drop-live i (omega arith),
            )
            (
              last,
              loop_step k buf decimation room _ fuel i produced phase e (room_left i produced r e)
                  (reads buf i phase (omega arith)) runs,
              left,
              inside,
              short,
            )
    ]
