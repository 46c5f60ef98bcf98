-- ===== src/Xlating/Buffer.antt =====
-- The stores and copies of src/xlating.c in the working buffer, and the room for its outputs.
use sdr_server.Prelude.{
  drop-take, take_exact, append_assoc, ℕ, ◌+◌, ◌-◌, ◌*◌, ◌/◌, ◌≤◌, ◌<◌, ◌≡◌, refl, sym, ap, ◌∙◌,
  inl, inr, some, List, ◌++◌, length, take, drop, length-append, length-drop, length-take,
  take-append_le, lt→ltb, ge→ltb, le→leb, lt_or_ge, arith,
}
use sdr_server.Xlating.{write_at, preserve_history}

-- A store that fits: what the buffer has up to its end.
pub stored :
    {A : Type 0} (i : ℕ) (xs buf : List A)
    → i + length xs ≤ length buf
    → (buf' : List A) × (write_at i xs buf ≡ some buf')
      × (length buf' ≡ length buf)
      × (take (i + length xs) buf' ≡ take i buf ++ xs)
stored {A} i xs buf h =
    let before : List A = take i buf in
    let after : List A = drop (i + length xs) buf in
    let size : i + length xs ≡ length (before ++ xs) =
      omega (arith, length-append before xs, length-take i buf) in
    (
      before ++ (xs ++ after),
      rw (le→leb _ _ h) refl,
      omega (
        arith,
        length-append before (xs ++ after),
        length-append xs after,
        length-take i buf,
        length-drop (i + length xs) buf,
      ),
      ap (take (i + length xs)) (sym (append_assoc before xs after))
          ∙ (take-append_le (i + length xs) (before ++ xs) after (omega (arith, size))
              ∙ take_exact (i + length xs) (before ++ xs) size),
    )

-- The history is moved to the start of the buffer.
pub preserved :
    {A : Type 0} (working_len last : ℕ) (buf : List A)
    → last ≤ working_len
    → working_len ≤ length buf
    → (buf' : List A) × (preserve_history working_len last buf ≡ some buf')
      × (length buf' ≡ length buf)
      × (take (working_len - last) buf' ≡ drop last (take working_len buf))
unfolding preserve_history
preserved {A} working_len last buf h h' = elim (lt_or_ge 0 last) [
  | inr e ↦ (
    buf,
    rw (ge→ltb _ _ h, ge→ltb _ _ e) refl,
    refl,
    ap (λ k. take (working_len - k) buf) {x = last} {y = 0} (omega arith)
        ∙ (ap (λ k. take k buf) {x = working_len - 0} {y = working_len} (omega arith)
            ∙ ap (λ k. drop k (take working_len buf)) {x = 0} {y = last} (omega arith)),
  )
  | inl e ↦
      let kept : List A = take (working_len - last) (drop last buf) in
      let size : working_len - last ≡ length kept =
        omega (arith, length-take (working_len - last) (drop last buf), length-drop last buf) in
      let (buf', stores, whole, prefix) = stored 0 kept buf (omega (arith, size)) in
      (
        buf',
        rw (ge→ltb _ _ h, lt→ltb _ _ e) stores,
        whole,
        ap (λ k. take k buf') {x = working_len - last} {y = 0 + length kept} (omega (arith, size))
            ∙ (prefix ∙ sym (drop-take last working_len buf)),
      )
]

-- `max_input / decimation + 1` outputs are enough: "+1 for case when round-up needed".
round_up : (n d : ℕ) → 0 < d → n ≤ (n / d + 1) * d
round_up n d h = grind arith

pub room_enough :
    (n max_input d room : ℕ) → room ≡ max_input / d + 1 → 0 < d → n ≤ max_input → n ≤ room * d
room_enough n max_input d room e h h' = rw e (omega (arith, round_up max_input d h))
