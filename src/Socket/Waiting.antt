-- ===== src/Socket/Waiting.antt =====
-- What `read_struct` makes of a peer that is silent between its messages of two bytes.
use sdr_server.Prelude.{
  ℕ, zero, suc, ◌+◌, ◌-◌, ◌%◌, ◌≤◌, ◌<◌, ◌≡◌, ◌≢◌, refl, sym, ap, ◌∙◌, inl, inr, List, [], ◌∷◌,
  ◌++◌, arith, leb, Bool-cases, length, take, drop, append_assoc, append-nil, take-append_le,
  drop-append_le, take-append_ge, drop-append_ge, length-append, length-drop,
}
use sdr_server.Socket.{
  Recv, chunk, would_block, interrupted, broken, Read, done, timed_out, read_struct,
}
use sdr_server.Socket.Reading.{payload, drop-ne-nil}

-- Bytes in pieces of any size, signals anywhere, and read timeouts where an even number of bytes
-- has come, `k` of them before this stream. There is no error.
abbrev pub IsPatient : (k : ℕ) → List Recv → Type 0
IsPatient k [] = Unit {0}
IsPatient k (chunk bs ∷ s) = (bs ≢ []) × IsPatient (k + length bs) s
IsPatient k (would_block ∷ s) = (k % 2 ≡ 0) × IsPatient k s
IsPatient k (interrupted ∷ s) = IsPatient k s
IsPatient k (broken ∷ s) = ⊥

abbrev pub timeouts : List Recv → ℕ
timeouts [] = 0
timeouts (chunk bs ∷ s) = timeouts s
timeouts (would_block ∷ s) = suc (timeouts s)
timeouts (interrupted ∷ s) = timeouts s
timeouts (broken ∷ s) = timeouts s

IsPatient-same : (j k : ℕ) (s : List Recv) → j % 2 ≡ k % 2 → IsPatient j s → IsPatient k s
IsPatient-same j k [] e p = tt
IsPatient-same j k (chunk bs ∷ s) e p =
    (p.0, IsPatient-same (j + length bs) (k + length bs) s (omega arith) p.1)
IsPatient-same j k (would_block ∷ s) e p = (sym e ∙ p.0, IsPatient-same j k s e p.1)
IsPatient-same j k (interrupted ∷ s) e p = IsPatient-same j k s e p
IsPatient-same j k (broken ∷ s) e p = absurd p

-- A read of `n` bytes, with `got` there already: it waits in vain, with nothing lost, or it fills
-- the structure.
pub data Turn (n : ℕ) (got : List ℕ) (s : List Recv) (r : Read × List Recv) : Type 0 where
  waited :
      r.0 ≡ timed_out
      → payload r.1 ≡ payload s
      → IsPatient 0 r.1
      → timeouts r.1 < timeouts s
      → Turn n got s r
  filled :
      r.0 ≡ done (got ++ take n (payload s))
      → payload r.1 ≡ drop n (payload s)
      → IsPatient 0 r.1
      → timeouts r.1 ≤ timeouts s
      → Turn n got s r

-- The read that has started goes on to its end.
abbrev Filled : ℕ → List ℕ → List Recv → Read × List Recv → Type 0
Filled n got s r =
    (r.0 ≡ done (got ++ take n (payload s)))
    × (payload r.1 ≡ drop n (payload s))
    × IsPatient 0 r.1
    × (timeouts r.1 ≤ timeouts s)

cut_short :
    (l k : ℕ) (got bs : List ℕ) (s : List Recv)
    → suc l < length bs
    → (k + suc l) % 2 ≡ 0
    → IsPatient (k + length bs) s
    → Filled (suc l) got (chunk bs ∷ s) (done (got ++ take (suc l) bs), chunk (drop (suc l) bs) ∷ s)
cut_short l k got bs s h e p = (
  ap (λ t. done (got ++ t)) (sym (take-append_le (suc l) bs (payload s) (omega arith))),
  sym (drop-append_le (suc l) bs (payload s) (omega arith)),
  (
    drop-ne-nil (suc l) bs h,
    IsPatient-same (k + length bs) (0 + length (drop (suc l) bs)) s
        (omega (arith, length-drop (suc l) bs)) p,
  ),
  omega arith,
)

extended :
    (l : ℕ) (got bs : List ℕ) (s : List Recv) (r : Read × List Recv)
    → length bs ≤ l
    → Filled (l - length bs) (got ++ bs) s r
    → Filled l got (chunk bs ∷ s) r
extended l got bs s r h (a, b, c, d) = (
  a ∙ ap done (append_assoc got bs _ ∙ ap (◌++◌ got) (sym (take-append_ge l bs (payload s) h))),
  b ∙ sym (drop-append_ge l bs (payload s) h),
  c,
  d,
)

goes_on :
    (n k : ℕ) (got : List ℕ) (s : List Recv)
    → n < 2
    → (k + n) % 2 ≡ 0
    → IsPatient k s
    → n ≤ length (payload s)
    → Filled n got s (read_struct n got s)
unfolding read_struct
goes_on zero k got s o e p h =
    (ap done (sym (append-nil got)), refl, IsPatient-same k 0 s (omega arith) p, omega arith)
goes_on (suc l) k got [] o e p h = absurd (omega arith)
goes_on (suc l) k got (would_block ∷ s) o e p h = absurd (omega (arith, p.0))
goes_on (suc l) k got (interrupted ∷ s) o e p h = goes_on (suc l) k got s o e p h
goes_on (suc l) k got (broken ∷ s) o e p h = absurd p
goes_on (suc l) k got (chunk [] ∷ s) o e p h = absurd (p.0 refl)
goes_on (suc l) k got (chunk (b ∷ bs) ∷ s) o e p h =
    elim (Bool-cases (leb (length (b ∷ bs)) (suc l))) [
      | inl f ↦ rw f (
          extended (suc l) got (b ∷ bs) s (read_struct (suc l - length (b ∷ bs)) (got ++ b ∷ bs) s)
            (ground arith)
            (goes_on (suc l - length (b ∷ bs)) (k + length (b ∷ bs)) (got ++ b ∷ bs) s
              (ground arith) (ground arith) p.1
              (omega (arith, h, length-append (b ∷ bs) (payload s)))))
      | inr f ↦ rw f (cut_short l k got (b ∷ bs) s (ground arith) e p.1)
    ]

turned :
    (n : ℕ) (got : List ℕ) (s : List Recv) (r : Read × List Recv)
    → Filled n got s r
    → Turn n got s r
turned n got s r (a, b, c, d) = filled a b c d

-- A read of a message.
pub read_struct-Turn :
    (s : List Recv) → IsPatient 0 s → 2 ≤ length (payload s) → Turn 2 [] s (read_struct 2 [] s)
unfolding read_struct
read_struct-Turn [] p h = absurd (omega arith)
read_struct-Turn (would_block ∷ s) p h = waited refl refl p.1 (omega arith)
read_struct-Turn (interrupted ∷ s) p h = skipped (read_struct-Turn s p h)
  where
    skipped : {r : Read × List Recv} → Turn 2 [] s r → Turn 2 [] (interrupted ∷ s) r
    skipped (waited a b c d) = waited a b c d
    skipped (filled a b c d) = filled a b c d
read_struct-Turn (broken ∷ s) p h = absurd p
read_struct-Turn (chunk [] ∷ s) p h = absurd (p.0 refl)
read_struct-Turn (chunk (b ∷ bs) ∷ s) p h = elim (Bool-cases (leb (length (b ∷ bs)) 2)) [
  | inl f ↦ rw f (
      turned 2 [] (chunk (b ∷ bs) ∷ s) _ (
        extended 2 [] (b ∷ bs) s (read_struct (2 - length (b ∷ bs)) (b ∷ bs) s) (ground arith) (
          goes_on (2 - length (b ∷ bs)) (0 + length (b ∷ bs)) (b ∷ bs) s (ground arith)
            (ground arith) p.1 (omega (arith, h, length-append (b ∷ bs) (payload s))))))
  | inr f ↦
      rw f
        (turned 2 [] (chunk (b ∷ bs) ∷ s) _ (cut_short 1 0 [] (b ∷ bs) s (ground arith) refl p.1))
]
