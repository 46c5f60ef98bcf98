-- ===== src/Xlating/Stream.antt =====
-- Call after call of the filter of src/xlating.c, as a client's DSP thread makes them: the buffers
-- are pieces of one stream.
use sdr_server.Prelude.{
  ◌>>=◌, ℕ, zero, suc, ◌+◌, ◌-◌, ◌≤◌, ◌≡◌, refl, sym, subst, ◌∙◌, Option, some, List, [], ◌∷◌, ◌++◌,
  ltb, length, take, drop, append-nil, append_assoc, length-take, All, Bool-cases, inl, inr, arith,
}
use sdr_server.Xlating.{Kernel, Xlating, feed}
use sdr_server.Xlating.Reference.{Outcome, reference, reference-append, run, run_stop}
use sdr_server.Xlating.Refine.{history, IsReady, settled, expected, feed-run}
use sdr_server.Xlating.Loop.{Reads}

abbrev pub joined : {A : Type 0} → List (List A) → List A
joined [] = []
joined (xs ∷ xss) = xs ++ joined xss

unfoldable pub feed_all :
    {A B P : Type 0} → Kernel A B P → List (List A) → Xlating A P → Option (List B × Xlating A P)
feed_all k [] f = some ([], f)
feed_all k (xs ∷ xss) f =
    feed k xs f >>= λ (ys, f'). feed_all k xss f' >>= λ (zs, f''). some (ys ++ zs, f'')

module _ {A B P : Type 0} (k : Kernel A B P) (window : List A → P → B) where
  settled_same :
      ((p : P) → k.renormalise p ≡ p) → (f : Xlating A P) (n : ℕ) (p : P) → settled k f n p ≡ p
  settled_same same f n p = elim (Bool-cases (ltb (f.taps_len - 1) (f.history_offset + n))) [
    | inl e ↦ rw e (same p)
    | inr e ↦ rw e refl
  ]

  idle :
      (f : Xlating A P) (max_input : ℕ)
      → IsReady max_input f
      → (expected k window f (history f))
        ≡ record { outputs = []; rest = history f; phase = f.phase }
  unfolding reference
  idle f max_input ready =
      run_stop window k.turn f.taps_len f.decimation _ _ f.phase
        (omega (arith, length-take f.history_offset f.working_buffer))

  -- What a filter goes on with depends on these fields alone.
  expected-next :
      (f f' : Xlating A P) {xs : List A} {p : P} (ys : List A)
      → f'.taps_len ≡ f.taps_len
      → f'.decimation ≡ f.decimation
      → history f' ≡ xs
      → f'.phase ≡ p
      → expected k window f' (history f' ++ ys)
        ≡ reference window k.turn f.taps_len f.decimation (xs ++ ys) p
  expected-next f f' ys t d e e' = rw (t, d, e, e') refl

  -- The pieces give what the reference makes of the whole stream.
  pub feed_all-run :
      ((p : P) → k.renormalise p ≡ p)
      → (f : Xlating A P) (xss : List (List A)) (max_input : ℕ) → Reads k f.taps_len window
      → IsReady max_input f
      → All (λ xs. length xs ≤ max_input) xss
      → (f' : Xlating A P) × (feed_all k xss f
          ≡ some ((expected k window f (history f ++ joined xss)).outputs, f'))
        × IsReady max_input f'
  unfolding feed_all
  feed_all-run same f [] max_input reads ready fits =
      (f, rw (append-nil (history f), idle f max_input ready) refl, ready)
  feed_all-run same f (xs ∷ xss) max_input reads ready fits =
      let (f', runs, left, turned, ready', d, t) =
        feed-run k window f xs max_input reads ready fits.0 in
      let (f'', later, ready'') =
        feed_all-run same f' xss max_input (subst (λ n. Reads k n window) (sym t) reads) ready'
          fits.1 in
      let r : Outcome A B P = expected k window f (history f ++ xs) in
      (
        f'',
        rw
            (
              runs,
              later,
              expected-next f f' (joined xss) t d left
                  (turned ∙ settled_same same f (length xs) r.phase),
              ← append_assoc (history f) xs (joined xss),
              reference-append window k.turn f.taps_len f.decimation ready.forward ready.overlapping
                  (history f ++ xs) (joined xss) f.phase,
            )
            refl,
        ready'',
      )

  -- What every window's value satisfies, every output does.
  pub run-All :
      (P' : B → Type 0)
      → ((xs : List A) (p : P) → P' (window xs p))
      → (taps_len decimation fuel : ℕ) (xs : List A) (p : P)
      → All P' (run window k.turn taps_len decimation fuel xs p).outputs
  unfolding run
  run-All P' holds taps_len decimation zero xs p = tt
  run-All P' holds taps_len decimation (suc fuel) xs p =
      elim (Bool-cases (ltb (length xs) taps_len)) [
        | inl e ↦ rw e tt
        | inr e ↦ rw e (
          holds (take taps_len xs) p,
          run-All P' holds taps_len decimation fuel (drop decimation xs) (k.turn p),
        )
      ]

  pub expected-All :
      (P' : B → Type 0)
      → ((xs : List A) (p : P) → P' (window xs p))
      → (f : Xlating A P) (xs : List A) → All P' (expected k window f xs).outputs
  unfolding reference
  expected-All P' holds f xs = run-All P' holds f.taps_len f.decimation (suc (length xs)) xs f.phase
