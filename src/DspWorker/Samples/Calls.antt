-- ===== src/DspWorker/Samples/Calls.antt =====
-- src/dsp_worker.c with src/xlating.c: the calls of the filter, buffer after buffer.
use sdr_server.Prelude.{
  ℕ, ◌/◌, ◌≤◌, ◌≡◌, refl, sym, ap, ◌∙◌, ◌⊎◌, inl, inr, some, List, [], ◌∷◌, ◌++◌, map, append_assoc,
  length, All, arith, ltb, ◌+◌, ◌-◌, if◌then◌else◌, length-take, Bool-cases,
}
use sdr_server.Prelude.Int.{ℤ, eqb_ℤ}
use sdr_server.Config.{sdr_type_rtl, sdr_type_airspy, sdr_type_hackrf}
use sdr_server.Xlating.{Xlating, feed}
use sdr_server.Xlating.Taps.{Complex}
use sdr_server.Xlating.Input.{length-pairs, q15_cs8, q15_cu8, q15_cs16}
use sdr_server.Xlating.Reference.{reference}
use sdr_server.Xlating.Refine.{feed-run, history}
use sdr_server.Xlating.Cf32 as Cf32
use sdr_server.Xlating.Cf32.{
  FilterCf32, native_cf32, run_filter, process_native_cf32, process_native_cu8_cf32,
  process_native_cs8_cf32, process_native_cs16_cf32, window_cf32, made-Reads,
}
use sdr_server.DspWorker.{Answers, filtered}
use sdr_server.DspWorker.Stream.{outputs, concat}
use sdr_server.DspWorker.Thread.Losses.{inputs}
use sdr_server.DspWorker.Samples.{words, encode, returned, worker_filter, converted}
use sdr_server.DspWorker.Samples.Entries.{native}

-- The receivers that `callback` has a case for.
abbrev pub Known : ℤ → Type 0
Known kind = (kind ≡ sdr_type_rtl) ⊎ ((kind ≡ sdr_type_airspy) ⊎ (kind ≡ sdr_type_hackrf))

length-words : (bytes : List ℕ) → length (words bytes) ≤ length bytes
unfolding words
length-words [] = omega arith
length-words (x ∷ []) = omega arith
length-words (x ∷ y ∷ bytes) = omega (arith, length-words bytes)

pub length-converted :
    (c : Complex) (kind : ℤ) (input : List ℕ) → length (converted c kind input) ≤ length input / 2
unfolding converted
length-converted c kind input = elim (Bool-cases (eqb_ℤ kind sdr_type_hackrf)) [
  | inl e ↦ rw e (omega (arith, length-pairs q15_cs8 c.from_q15 input))
  | inr e ↦ elim (Bool-cases (eqb_ℤ kind sdr_type_rtl)) [
    | inl r ↦ rw (e, r) (omega (arith, length-pairs q15_cu8 c.from_q15 input))
    | inr r ↦
        rw (e, r)
          (omega (arith, length-pairs q15_cs16 c.from_q15 (words input), length-words input))
  ]
]

module _ (c : Complex) (bytes_of : c.Sample → List ℕ) where
  open c use {Sample}

  pub encode-append :
      (xs ys : List Sample)
      → encode c bytes_of (xs ++ ys) ≡ encode c bytes_of xs ++ encode c bytes_of ys
  unfolding encode
  encode-append [] ys = refl
  encode-append (x ∷ xs) ys =
      ap (λ bs. bytes_of x ++ bs) (encode-append xs ys)
      ∙ sym (append_assoc (bytes_of x) (encode c bytes_of xs) (encode c bytes_of ys))

  -- One round of the switch is one call on the converted samples.
  filtered-converted :
      (kind : ℤ) (input : List ℕ) (s : FilterCf32 c)
      → Known kind
      → filtered (worker_filter c bytes_of (native c)) kind input s
        ≡ returned c bytes_of s (run_filter c (process_native_cf32 c) (converted c kind input) s)
  unfolding filtered converted process_native_cu8_cf32 process_native_cs8_cf32
      process_native_cs16_cf32
  filtered-converted kind input s (inl e) = rw e refl
  filtered-converted kind input s (inr (inl e)) = rw e refl
  filtered-converted kind input s (inr (inr e)) = rw e refl

  -- The bytes of call after call.
  unfoldable pub call_all : List (List Sample) → FilterCf32 c → List ℕ
  call_all [] s = []
  call_all (xs ∷ xss) s =
      let r = returned c bytes_of s (run_filter c (process_native_cf32 c) xs s) in
      r.0 ++ call_all xss r.1

  pub outputs-calls :
      (kind : ℤ) (done : List (List ℕ × Answers)) (s : FilterCf32 c)
      → Known kind
      → concat
          (worker_filter c bytes_of (native c))
          (outputs (worker_filter c bytes_of (native c)) kind done s)
        ≡ call_all (map (converted c kind) (inputs done)) s
  unfolding call_all
  outputs-calls kind [] s h = refl
  outputs-calls kind ((input, a) ∷ done) s h = rw (filtered-converted kind input s h) (
      ap
        (λ bs.
          (returned c bytes_of s
            (run_filter c (process_native_cf32 c) (converted c kind input) s)).0
          ++ bs)
        (outputs-calls kind done _ h))

  called :
      (xs : List Sample) (xss : List (List Sample)) (out ys : List Sample) (s : FilterCf32 c)
      (t : Xlating Sample c.Phase)
      → feed (process_native_cf32 c s) xs s.state ≡ some (out, t)
      → call_all xss (record s { state = t }) ≡ encode c bytes_of ys
      → call_all (xs ∷ xss) s ≡ encode c bytes_of (out ++ ys)
  unfolding call_all returned run_filter
  called xs xss out ys s t runs bytes =
      rw runs (ap (λ bs. encode c bytes_of out ++ bs) bytes ∙ sym (encode-append out ys))

  -- The plain filter buffer after buffer: a window of all taps every `decimation` samples of what
  -- was left over and the new samples, each with the phase turned by the same step, which is
  -- normalised after every buffer that brought a window.
  pub plain_calls :
      (taps : List Sample) (phase_incr : c.Phase) (decimation : ℕ)
      → List Sample
      → c.Phase
      → List (List Sample)
      → List Sample
  plain_calls taps phase_incr decimation past phase [] = []
  plain_calls taps phase_incr decimation past phase (xs ∷ xss) =
      let r =
        reference (window_cf32 c taps) (λ p. c.turn p phase_incr) (length taps) decimation
          (past ++ xs) phase in
      r.outputs
      ++ plain_calls taps phase_incr decimation r.rest
          (if ltb (length taps - 1) (length past + length xs) then c.normalise r.phase else r.phase)
          xss

  -- One call is one step of the plain filter.
  called_plain :
      ((x : Sample) → c.add c.zero (c.mul x c.zero) ≡ c.zero)
      → (max_input : ℕ) (taps xs : List Sample) (s : FilterCf32 c) → Cf32.IsMade c max_input taps s
      → length xs ≤ max_input
      → (out : List Sample) × (t : Xlating Sample c.Phase) × (feed
            (process_native_cf32 c s)
            xs
            s.state
          ≡ some (out, t))
        × Cf32.IsMade c max_input taps (record s { state = t })
        × ((xss : List (List Sample))
            → out ++ plain_calls taps s.phase_incr t.decimation (history t) t.phase xss
              ≡ plain_calls taps s.phase_incr s.state.decimation
                  (history s.state)
                  s.state.phase
                  (xs ∷ xss))
  unfolding plain_calls process_native_cf32 native_cf32
  called_plain zero_tap max_input taps xs s made fits =
      let (t, runs, left, turned, ready, d, l) =
        feed-run (process_native_cf32 c s) (window_cf32 c taps) s.state xs max_input
          (made-Reads c zero_tap max_input taps s made) made.ready fits in
      let ready₀ = made.ready in
      let past : length (history s.state) ≡ s.state.history_offset = omega (
        arith,
        length-take s.state.history_offset s.state.working_buffer,
        ready₀.history_short,
        ready₀.buffer_whole,
      ) in
      (
        _,
        t,
        runs,
        record { copies = made.copies; size = l ∙ made.size; ready = ready },
        λ xss. rw (d, left, turned, past, made.size) refl,
      )

  -- The calls put out what the plain filter does.
  pub call_all-plain :
      ((x : Sample) → c.add c.zero (c.mul x c.zero) ≡ c.zero)
      → (max_input : ℕ) (taps : List Sample) (xss : List (List Sample)) (s : FilterCf32 c)
      → Cf32.IsMade c max_input taps s
      → All (λ xs. length xs ≤ max_input) xss
      → call_all xss s
        ≡ encode c bytes_of
            (plain_calls taps s.phase_incr s.state.decimation (history s.state) s.state.phase xss)
  unfolding call_all encode plain_calls
  call_all-plain zero_tap max_input taps [] s made fits = refl
  call_all-plain zero_tap max_input taps (xs ∷ xss) s made fits =
      let (out, t, runs, made', e) = called_plain zero_tap max_input taps xs s made fits.0 in
      let s' : FilterCf32 c = record s { state = t } in
      called xs xss out _ s t runs (call_all-plain zero_tap max_input taps xss s' made' fits.1)
      ∙ ap (encode c bytes_of) (e xss)
