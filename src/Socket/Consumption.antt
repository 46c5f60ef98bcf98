-- ===== src/Socket/Consumption.antt =====
-- Each read of a structure uses up some of the stream, so a loop of reads ends.
use sdr_server.Prelude.{
  ℕ, zero, suc, ◌+◌, ◌-◌, ◌≤◌, ◌<◌, ◌≢◌, refl, List, [], ◌∷◌, ◌++◌, arith, length, leb, Bool-cases,
  inl, inr, length-drop,
}
use sdr_server.Socket.{Recv, chunk, would_block, interrupted, broken, lost, read_struct}

-- The outcomes of a stream and the bytes in them.
abbrev pub stream_size : List Recv → ℕ
stream_size [] = 0
stream_size (chunk bs ∷ s) = suc (length bs + stream_size s)
stream_size (would_block ∷ s) = suc (stream_size s)
stream_size (interrupted ∷ s) = suc (stream_size s)
stream_size (broken ∷ s) = suc (stream_size s)

no_larger :
    (n : ℕ) (got : List ℕ) (s : List Recv) → stream_size (read_struct n got s).1 ≤ stream_size s
unfolding read_struct
no_larger zero got s = omega arith
no_larger (suc l) got [] = omega arith
no_larger (suc l) got (would_block ∷ s) = omega arith
no_larger (suc l) got (interrupted ∷ s) = omega (arith, no_larger (suc l) got s)
no_larger (suc l) got (broken ∷ s) = omega arith
no_larger (suc l) got (chunk [] ∷ s) = omega arith
no_larger (suc l) got (chunk (b ∷ bs) ∷ s) = elim (Bool-cases (leb (length (b ∷ bs)) (suc l))) [
  | inl e ↦ rw e (omega (arith, no_larger (suc l - length (b ∷ bs)) (got ++ b ∷ bs) s))
  | inr e ↦ rw e (omega (arith, length-drop l bs))
]

-- A read that does not find the stream at its end.
pub read_struct-smaller :
    (l : ℕ) (got : List ℕ) (s : List Recv)
    → (read_struct (suc l) got s).0 ≢ lost
    → stream_size (read_struct (suc l) got s).1 < stream_size s
unfolding read_struct
read_struct-smaller l got [] f = absurd (f refl)
read_struct-smaller l got (would_block ∷ s) f = omega arith
read_struct-smaller l got (interrupted ∷ s) f = omega (arith, no_larger (suc l) got s)
read_struct-smaller l got (broken ∷ s) f = absurd (f refl)
read_struct-smaller l got (chunk [] ∷ s) f = absurd (f refl)
read_struct-smaller l got (chunk (b ∷ bs) ∷ s) f =
    elim (Bool-cases (leb (length (b ∷ bs)) (suc l))) [
      | inl e ↦ rw e (omega (arith, no_larger (suc l - length (b ∷ bs)) (got ++ b ∷ bs) s))
      | inr e ↦ rw e (omega (arith, length-drop l bs))
    ]
