-- ===== src/Socket/Reading.antt =====
-- What `read_struct` makes of the bytes that arrive.
use sdr_server.Prelude.{
  ℕ, zero, suc, ◌+◌, ◌-◌, ◌≤◌, ◌<◌, ◌≡◌, ◌≢◌, refl, sym, ap, ◌∙◌, inl, inr, List, [], ◌∷◌, ◌++◌,
  arith, leb, Bool-cases, length, take, drop, append_assoc, append-nil, take-append_le,
  drop-append_le, take-append_ge, drop-append_ge, length-append, take-append-drop, length-take,
}
use sdr_server.Socket.{Recv, chunk, would_block, interrupted, broken, Read, done, read_struct}

-- The bytes that a stream carries, in order.
abbrev pub payload : List Recv → List ℕ
payload [] = []
payload (chunk bs ∷ s) = bs ++ payload s
payload (would_block ∷ s) = payload s
payload (interrupted ∷ s) = payload s
payload (broken ∷ s) = payload s

-- Bytes in pieces of any size, and signals: no timeout and no error.
abbrev pub IsClean : List Recv → Type 0
IsClean [] = Unit {0}
IsClean (chunk bs ∷ s) = (bs ≢ []) × IsClean s
IsClean (would_block ∷ s) = ⊥
IsClean (interrupted ∷ s) = IsClean s
IsClean (broken ∷ s) = ⊥

-- What a read must leave: the structure filled with the next bytes, and the bytes behind them.
abbrev pub Fills : ℕ → List ℕ → List Recv → Read × List Recv → Type 0
Fills n got s r =
    (r.0 ≡ done (got ++ take n (payload s))) × (payload r.1 ≡ drop n (payload s)) × IsClean r.1

pub drop-ne-nil : (n : ℕ) (xs : List ℕ) → n < length xs → drop n xs ≢ []
drop-ne-nil zero [] h = absurd (omega arith)
drop-ne-nil zero (x ∷ xs) h = cc
drop-ne-nil (suc n) [] h = absurd (omega arith)
drop-ne-nil (suc n) (x ∷ xs) h = drop-ne-nil n xs (omega arith)

Fills-chunk :
    (l : ℕ) (got bs : List ℕ) (s : List Recv) (r : Read × List Recv)
    → length bs ≤ l
    → Fills (l - length bs) (got ++ bs) s r
    → Fills l got (chunk bs ∷ s) r
Fills-chunk l got bs s r h (a, b, c) = (
  a ∙ ap done (append_assoc got bs _ ∙ ap (◌++◌ got) (sym (take-append_ge l bs (payload s) h))),
  b ∙ sym (drop-append_ge l bs (payload s) h),
  c,
)

-- However the bytes are cut up, and whatever signals come between them, a structure is filled
-- with exactly the next bytes, and the rest of the stream stays for the next read.
pub read_struct-Fills :
    (n : ℕ) (got : List ℕ) (s : List Recv)
    → IsClean s
    → n ≤ length (payload s)
    → Fills n got s (read_struct n got s)
unfolding read_struct
read_struct-Fills zero got s c h = (ap done (sym (append-nil got)), refl, c)
read_struct-Fills (suc l) got [] c h = absurd (omega arith)
read_struct-Fills (suc l) got (would_block ∷ s) c h = absurd c
read_struct-Fills (suc l) got (interrupted ∷ s) c h = read_struct-Fills (suc l) got s c h
read_struct-Fills (suc l) got (broken ∷ s) c h = absurd c
read_struct-Fills (suc l) got (chunk [] ∷ s) c h = absurd (c.0 refl)
read_struct-Fills (suc l) got (chunk (b ∷ bs) ∷ s) c h =
    elim (Bool-cases (leb (length (b ∷ bs)) (suc l))) [
      | inl e ↦ rw e (
          Fills-chunk (suc l) got (b ∷ bs) s
            (read_struct (suc l - length (b ∷ bs)) (got ++ b ∷ bs) s) (ground arith)
            (read_struct-Fills (suc l - length (b ∷ bs)) (got ++ b ∷ bs) s c.1
              (omega (arith, length-append (b ∷ bs) (payload s)))))
      | inr e ↦ rw e (
        ap (λ t. done (got ++ t))
            (sym (take-append_le (suc l) (b ∷ bs) (payload s) (ground arith))),
        sym (drop-append_le (suc l) (b ∷ bs) (payload s) (ground arith)),
        (drop-ne-nil (suc l) (b ∷ bs) (ground arith), c.1),
      )
    ]

-- The bytes that a read returns and those that it leaves are those that were there.
abbrev pub Accounts : ℕ → List ℕ → List ℕ → List ℕ → List ℕ → Type 0
Accounts n got before bs after = (bs ++ after ≡ got ++ before) × (length bs ≡ length got + n)

Accounts-chunk :
    (l : ℕ) (got cs : List ℕ) (s : List Recv) (bs : List ℕ) (rest : List Recv)
    → length cs ≤ suc l
    → Accounts (suc l - length cs) (got ++ cs) (payload s) bs (payload rest)
    → Accounts (suc l) got (payload (chunk cs ∷ s)) bs (payload rest)
Accounts-chunk l got cs s bs rest h (a, b) =
    (a ∙ append_assoc got cs (payload s), omega (arith, b, length-append got cs))

Accounts-cut :
    (n : ℕ) (got cs : List ℕ) (s : List Recv) (bs : List ℕ)
    → n ≤ length cs
    → bs ≡ got ++ take n cs
    → Accounts n got (cs ++ payload s) bs (drop n cs ++ payload s)
Accounts-cut n got cs s bs h e = rw e (
  append_assoc got (take n cs) _
      ∙ ap (◌++◌ got) (
          sym (append_assoc (take n cs) (drop n cs) (payload s))
          ∙ ap (λ t. t ++ payload s) (take-append-drop n cs)),
  omega (arith, length-append got (take n cs), length-take n cs),
)

-- On any stream, a read that succeeds has returned the bytes that left the stream, all `n` of
-- them and no others.
pub read_struct_sound :
    (n : ℕ) (got : List ℕ) (s : List Recv) (bs : List ℕ)
    → (read_struct n got s).0 ≡ done bs
    → (bs ++ payload (read_struct n got s).1 ≡ got ++ payload s) × (length bs ≡ length got + n)
unfolding read_struct
read_struct_sound zero got s bs h = ground arith
read_struct_sound (suc l) got [] bs h = cc
read_struct_sound (suc l) got (would_block ∷ s) bs h = cc
read_struct_sound (suc l) got (interrupted ∷ s) bs h = read_struct_sound (suc l) got s bs h
read_struct_sound (suc l) got (broken ∷ s) bs h = cc
read_struct_sound (suc l) got (chunk [] ∷ s) bs h = cc
read_struct_sound (suc l) got (chunk (b ∷ cs) ∷ s) bs h =
    elim (Bool-cases (leb (length (b ∷ cs)) (suc l))) [
      | inl e ↦ rw e (
          Accounts-chunk l got (b ∷ cs) s bs
            (read_struct (suc l - length (b ∷ cs)) (got ++ b ∷ cs) s).1 (ground arith)
            (read_struct_sound (suc l - length (b ∷ cs)) (got ++ b ∷ cs) s bs (rw e at h)))
      | inr e ↦ rw e (Accounts-cut (suc l) got (b ∷ cs) s bs (ground arith) (cc (rw e at h)))
    ]
