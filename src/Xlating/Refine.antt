-- ===== src/Xlating/Refine.antt =====
-- A call of the filter of src/xlating.c against the reference: it finishes without a fault, puts
-- out the reference's samples and keeps the samples that the reference leaves.
use sdr_server.Prelude.{
  ℕ, suc, ◌+◌, ◌-◌, ◌/◌, ◌≤◌, ◌<◌, ◌≡◌, refl, ap, ◌∙◌, inl, inr, some, List, ◌++◌, ltb,
  if◌then◌else◌, length, take, drop, length-take, lt→ltb, ge→ltb, lt_or_ge, arith,
}
use sdr_server.Xlating.{Kernel, Xlating, positions, process, feed}
use sdr_server.Xlating.Reference.{Outcome, run, reference, run_stop}
use sdr_server.Xlating.Loop.{Reads, loop-run}
use sdr_server.Xlating.Buffer.{stored, preserved, room_enough}

-- The samples that the last call left.
abbrev pub history : {A P : Type 0} → Xlating A P → List A
history f = take f.history_offset f.working_buffer

-- A filter made for inputs of up to `max_input` samples.
pub record IsReady {A P : Type 0} (max_input : ℕ) (f : Xlating A P) : Type 0 where
  pub forward : 0 < f.decimation
  pub overlapping : f.decimation ≤ f.taps_len
  pub history_short : f.history_offset ≤ f.taps_len - 1
  pub buffer_whole : length f.working_buffer ≡ max_input + (f.taps_len - 1)
  pub output_whole : f.output_len_samples ≡ max_input / f.decimation + 1

-- The phase is renormalised after a call that had enough input.
abbrev pub settled : {A B P : Type 0} → Kernel A B P → Xlating A P → ℕ → P → P
settled k f input_len phase =
    if ltb (f.taps_len - 1) (f.history_offset + input_len) then k.renormalise phase else phase

module _ {A B P : Type 0} (k : Kernel A B P) (window : List A → P → B) where
  abbrev pub expected : Xlating A P → List A → Outcome A B P
  expected f xs = reference window k.turn f.taps_len f.decimation xs f.phase

  abbrev present : Xlating A P → ℕ → List A
  present f input_len = take (f.history_offset + input_len) f.working_buffer

  expected-run :
      (f : Xlating A P) (input_len : ℕ)
      → f.history_offset + input_len ≤ length f.working_buffer
      → run window k.turn f.taps_len f.decimation
          (suc (f.history_offset + input_len))
          (present f input_len)
          f.phase
        ≡ expected f (present f input_len)
  unfolding reference
  expected-run f input_len h =
      ap (λ n. run window k.turn f.taps_len f.decimation (suc n) (present f input_len) f.phase)
        {x = f.history_offset + input_len}
        (omega (arith, length-take (f.history_offset + input_len) f.working_buffer))

  -- The guard and the loop.
  positions-run :
      (f : Xlating A P) (input_len max_input : ℕ)
      → Reads k f.taps_len window
      → IsReady max_input f
      → input_len ≤ max_input
      → (last : ℕ) × (positions k f (f.history_offset + input_len)
          ≡ some (
            (expected f (present f input_len)).outputs,
            last,
            settled k f input_len (expected f (present f input_len)).phase,
          ))
        × (drop last (present f input_len) ≡ (expected f (present f input_len)).rest)
        × (last ≤ f.history_offset + input_len)
        × (f.history_offset + input_len - last ≤ f.taps_len - 1)
  unfolding positions
  positions-run f input_len max_input reads ready fits =
      elim (lt_or_ge (f.taps_len - 1) (f.history_offset + input_len)) [
        | inl e ↦
            let (last, runs, left, inside, short) =
              loop-run k window f.working_buffer f.taps_len f.decimation f.output_len_samples
                (f.history_offset + input_len) reads ready.forward ready.overlapping (omega arith)
                (room_enough _ max_input _ _ ready.output_whole ready.forward (omega arith))
                (suc (f.history_offset + input_len)) 0 0 f.phase (omega arith) (omega arith)
                (omega arith) in
            rw (← expected-run f input_len (omega arith), lt→ltb _ _ e)
              (last, rw runs refl, left, inside, short)
        | inr e ↦
            rw
              (
                ← expected-run f input_len (omega arith),
                run_stop window k.turn f.taps_len f.decimation (f.history_offset + input_len)
                    (present f input_len) f.phase
                    (omega (arith, length-take (f.history_offset + input_len) f.working_buffer)),
                ge→ltb _ _ e,
              )
              (0, refl, refl, omega arith, omega arith)
      ]

  -- A call that has its input in the buffer.
  process-run :
      (f : Xlating A P) (input_len max_input : ℕ)
      → Reads k f.taps_len window
      → IsReady max_input f
      → input_len ≤ max_input
      → (f' : Xlating A P) × (process k input_len f
          ≡ some ((expected f (present f input_len)).outputs, f'))
        × (history f' ≡ (expected f (present f input_len)).rest)
        × (f'.phase ≡ settled k f input_len (expected f (present f input_len)).phase)
        × IsReady max_input f'
        × (f'.decimation ≡ f.decimation)
        × (f'.taps_len ≡ f.taps_len)
  unfolding process
  process-run f input_len max_input reads ready fits =
      let (last, runs, left, inside, short) =
        positions-run f input_len max_input reads ready fits in
      let (buf, moves, whole, prefix) =
        preserved (f.history_offset + input_len) last f.working_buffer inside (omega arith) in
      (
        record f {
          working_buffer = buf;
          history_offset = f.history_offset + input_len - last;
          phase = settled k f input_len (expected f (present f input_len)).phase;
        },
        rw (runs, moves) refl,
        prefix ∙ left,
        refl,
        record {
          forward = ready.forward;
          overlapping = ready.overlapping;
          history_short = short;
          buffer_whole = whole ∙ ready.buffer_whole;
          output_whole = ready.output_whole;
        },
        refl,
        refl,
      )

  pub feed-run :
      (f : Xlating A P) (xs : List A) (max_input : ℕ)
      → Reads k f.taps_len window
      → IsReady max_input f
      → length xs ≤ max_input
      → (f' : Xlating A P) × (feed k xs f ≡ some ((expected f (history f ++ xs)).outputs, f'))
        × (history f' ≡ (expected f (history f ++ xs)).rest)
        × (f'.phase ≡ settled k f (length xs) (expected f (history f ++ xs)).phase)
        × IsReady max_input f'
        × (f'.decimation ≡ f.decimation)
        × (f'.taps_len ≡ f.taps_len)
  unfolding feed
  feed-run f xs max_input reads ready fits =
      let (buf, stores, whole, prefix) =
        stored f.history_offset xs f.working_buffer (omega arith) in
      let g : Xlating A P = record f { working_buffer = buf } in
      rw (stores, ← prefix)
        (process-run g (length xs) max_input reads
          (record {
            forward = ready.forward;
            overlapping = ready.overlapping;
            history_short = ready.history_short;
            buffer_whole = whole ∙ ready.buffer_whole;
            output_whole = ready.output_whole;
          })
          fits)
