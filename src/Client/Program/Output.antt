-- ===== src/Client/Program/Output.antt =====
-- src/client/tcp_client_main.c: what of the server's samples reaches the output.
use sdr_server.Prelude.{
  ℕ, zero, suc, ◌+◌, ◌-◌, ◌*◌, ◌≤◌, ◌<◌, ◌≡◌, refl, sym, ap, ◌∙◌, true, inl, inr, List, [], ◌∷◌,
  ◌++◌, leb, length, take, drop, length-append, length-drop, length-take, take-append-drop,
  take-add, Bool-cases, arith,
}
use sdr_server.Socket.{Recv, chunk, would_block, interrupted, broken, lost, read_struct}
use sdr_server.Socket.Reading.{payload, IsClean, read_struct-Fills}
use sdr_server.Client.{read_data}
use sdr_server.Client.Program.{store, receive, exit_failure}

-- Calls of fwrite that all store something.
abbrev pub Stores : List ℕ → Type 0
Stores [] = Unit {0}
Stores (k ∷ fwrites) = (0 < k) × Stores fwrites

store-whole :
    (bs fwrites : List ℕ)
    → Stores fwrites
    → length bs ≤ length fwrites
    → (rest : List ℕ) × (store bs fwrites ≡ (bs, true, rest))
      × Stores rest
      × (length fwrites ≤ length rest + length bs)
unfolding store
store-whole [] fwrites p h = (fwrites, refl, p, omega arith)
store-whole (b ∷ bs) [] p h = elim h [ ]
store-whole (b ∷ bs) (zero ∷ fwrites) p h = absurd (omega arith)
store-whole (b ∷ bs) (suc k ∷ fwrites) p h =
    let (rest, e, q, l) = store-whole (drop k bs) fwrites p.1 (omega (arith, length-drop k bs)) in
    (rest, rw (e, take-append-drop k bs) refl, q, omega (arith, l, length-drop k bs))

-- A stream that ends before a buffer is full.
pub read_short :
    (n : ℕ) (got : List ℕ) (s : List Recv)
    → IsClean s
    → length (payload s) < n
    → (read_struct n got s).0 ≡ lost
unfolding read_struct
read_short zero got s c h = elim h [ ]
read_short (suc l) got [] c h = refl
read_short (suc l) got (would_block ∷ s) c h = absurd c
read_short (suc l) got (interrupted ∷ s) c h = read_short (suc l) got s c h
read_short (suc l) got (broken ∷ s) c h = absurd c
read_short (suc l) got (chunk [] ∷ s) c h = refl
read_short (suc l) got (chunk (b ∷ bs) ∷ s) c h =
    elim (Bool-cases (leb (length (b ∷ bs)) (suc l))) [
      | inl e ↦ rw e (
          read_short (suc l - length (b ∷ bs)) (got ++ b ∷ bs) s c.1
            (ground (arith, length-append (b ∷ bs) (payload s))))
      | inr e ↦ absurd (ground (arith, length-append (b ∷ bs) (payload s)))
    ]

scaled : (n whole : ℕ) → suc whole * n ≡ n + whole * n
scaled n whole = grind arith

-- A server that sends `whole` buffers and less than another one, and then closes: the output has
-- the whole buffers, the samples behind them are lost, and the program fails. Every call of fwrite
-- stores something, and enough rounds are seen.
pub receive-Whole :
    (buffer_length whole rest rounds : ℕ) (s : List Recv) (fwrites : List ℕ)
    → IsClean s
    → length (payload s) ≡ whole * buffer_length + rest
    → rest < buffer_length
    → Stores fwrites
    → length (payload s) ≤ length fwrites
    → whole < rounds
    → receive rounds buffer_length s fwrites
      ≡ (take (whole * buffer_length) (payload s), exit_failure)
unfolding receive read_data
receive-Whole n whole rest zero s fwrites c e r p f h = elim h [ ]
receive-Whole n zero rest (suc rounds) s fwrites c e r p f h =
    rw (read_short n [] s c (omega arith))
      (ap (λ k. (take k (payload s), exit_failure)) {x = 0} {y = 0 * n} (omega arith))
receive-Whole n (suc whole) rest (suc rounds) s fwrites c e r p f h =
    let all : List ℕ = payload s in
    let s' : List Recv = (read_struct n [] s).1 in
    let (full, left, clean) = read_struct-Fills n [] s c (omega (arith, scaled n whole)) in
    let (fwrites', stored, q, more) =
      store-whole (take n all) fwrites p (omega (arith, length-take n all)) in
    let l : length (payload s') ≡ length all - n = ap length left ∙ length-drop n all in
    rw
      (
        full,
        stored,
        receive-Whole n whole rest rounds s' fwrites' clean (omega (arith, l, scaled n whole)) r q
            (omega (arith, l, more, length-take n all, scaled n whole)) (omega arith),
        left,
      )
      (ap (λ t. (t, exit_failure))
        (sym (take-add n (whole * n) all)
          ∙ ap (λ k. take k all) {x = n + whole * n} {y = suc whole * n}
              (omega (arith, scaled n whole))))
