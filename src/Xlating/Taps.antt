-- ===== src/Xlating/Taps.antt =====
-- src/xlating.c, create_aligned_taps: a copy of the taps for every alignment of the working buffer,
-- with zeros in front, and the sum of products that runs over it.
use sdr_server.Prelude.{
  ◌>>=◌, ℕ, zero, suc, ◌+◌, ◌-◌, ◌≤◌, ◌<◌, ◌≡◌, refl, ap, ◌∙◌, Option, none, some, List, [], ◌∷◌,
  ◌++◌, length, take, drop, replicate, get_elem?, length-replicate, take-replicate, le→leb,
  drop-drop, length-drop, arith,
}
use sdr_server.Prelude.Int.{ℤ}
use sdr_server.Xlating.{write_at}

-- `float complex` and what the filter does with it. A phase is a number of modulus one, which
-- `normalise` (the division by hypotf) brings back there. `from_q15 re im` is the sample
-- (re + I * im) / 2^15, which a float holds exactly for all the inputs that are converted.
pub record Complex : Type 1 where
  pub Sample : Type 0
  pub Phase : Type 0
  pub zero : Sample
  pub add : Sample → Sample → Sample
  pub mul : Sample → Sample → Sample
  pub derotate : Sample → Phase → Sample
  pub turn : Phase → Phase → Phase
  pub normalise : Phase → Phase
  pub from_q15 : ℤ → ℤ → Sample

module _ (c : Complex) where
  open c use {Sample}

  -- `for (i = 0; i < n; i++) temp += aligned_buffer[i] * taps[i];`
  unfoldable pub dot : ℕ → Sample → List Sample → List Sample → Option Sample
  dot zero temp xs ts = some temp
  dot (suc n) temp [] ts = none
  dot (suc n) temp (x ∷ xs) [] = none
  dot (suc n) temp (x ∷ xs) (t ∷ ts) = dot n (c.add temp (c.mul x t)) xs ts

  -- The copies for the alignments from `i` on.
  unfoldable pub aligned_from :
      List Sample → (number_of_aligned rounds i : ℕ) → Option (List (List Sample))
  aligned_from taps number_of_aligned zero i = some []
  aligned_from taps number_of_aligned (suc rounds) i =
      write_at i taps (replicate (length taps + number_of_aligned - 1) c.zero) >>= λ row.
      aligned_from taps number_of_aligned rounds (i + 1) >>= λ rows. some (row ∷ rows)

  unfoldable pub aligned_taps : ℕ → List Sample → Option (List (List Sample))
  aligned_taps number_of_aligned taps = aligned_from taps number_of_aligned number_of_aligned 0

  -- The sum over one window, with the plain taps.
  unfoldable pub convolve : Sample → List Sample → List Sample → Sample
  convolve temp [] ts = temp
  convolve temp (x ∷ xs) [] = temp
  convolve temp (x ∷ xs) (t ∷ ts) = convolve (c.add temp (c.mul x t)) xs ts

  module _ (zero_tap : (x : c.Sample) → c.add c.zero (c.mul x c.zero) ≡ c.zero) where
    -- Zero taps in front skip samples.
    dot_skip :
        (a n m : ℕ) (xs ts : List Sample)
        → m ≡ a + n
        → a ≤ length xs
        → dot m c.zero xs (replicate a c.zero ++ ts) ≡ dot n c.zero (drop a xs) ts
    unfolding dot
    dot_skip zero n m xs ts e h = ap (λ k. dot k c.zero xs ts) {x = m} (omega arith)
    dot_skip (suc a) n zero xs ts e h = absurd (omega arith)
    dot_skip (suc a) n (suc m) [] ts e h = elim h [ ]
    dot_skip (suc a) n (suc m) (x ∷ xs) ts e h =
        ap (λ z. dot m z xs (replicate a c.zero ++ ts)) (zero_tap x)
        ∙ dot_skip a n m xs ts (omega arith) (omega arith)

  dot-convolve :
      (temp : Sample) (xs ts more : List Sample)
      → length ts ≤ length xs
      → dot (length ts) temp xs (ts ++ more) ≡ some (convolve temp (take (length ts) xs) ts)
  unfolding dot convolve
  dot-convolve temp xs [] more h = refl
  dot-convolve temp [] (t ∷ ts) more h = elim h [ ]
  dot-convolve temp (x ∷ xs) (t ∷ ts) more h =
      dot-convolve (c.add temp (c.mul x t)) xs ts more (omega arith)

  abbrev pub zeros : List Sample → ℕ → List Sample
  zeros taps number = replicate (length taps + number - 1) c.zero

  -- The copy for one alignment: so many zeros, the taps, and zeros again.
  abbrev pub row_of : List Sample → ℕ → ℕ → List Sample
  row_of taps number a = replicate a c.zero ++ (taps ++ drop (a + length taps) (zeros taps number))

  row_written :
      (taps : List Sample) (number a : ℕ)
      → a < number
      → write_at a taps (zeros taps number) ≡ some (row_of taps number a)
  row_written taps number a h =
      rw
        (
          le→leb (a + length taps) (length (zeros taps number))
              (omega (arith, length-replicate (length taps + number - 1) c.zero)),
          take-replicate a (length taps + number - 1) c.zero (omega arith),
        )
        refl

  row_among :
      (taps : List Sample) (number rounds i : ℕ) (rows : List (List Sample))
      → ((a : ℕ) → a < rounds → get_elem? rows a ≡ some (row_of taps number (i + 1 + a)))
      → (a : ℕ) → a < suc rounds
      → get_elem? (row_of taps number i ∷ rows) a ≡ some (row_of taps number (i + a))
  row_among taps number rounds i rows at zero h =
      ap (λ j. some (row_of taps number j)) {x = i} (omega arith)
  row_among taps number rounds i rows at (suc a) h =
      at a (omega arith) ∙ ap (λ j. some (row_of taps number j)) {x = i + 1 + a} (omega arith)

  -- No copy is written past its end.
  rows_written :
      (taps : List Sample) (number rounds i : ℕ)
      → i + rounds ≤ number
      → (rows : List (List Sample)) × (aligned_from taps number rounds i ≡ some rows)
        × ((a : ℕ) → a < rounds → get_elem? rows a ≡ some (row_of taps number (i + a)))
  unfolding aligned_from
  rows_written taps number zero i h = ([], refl, λ a h. absurd (omega arith))
  rows_written taps number (suc rounds) i h =
      let (rows, made, at) = rows_written taps number rounds (i + 1) (omega arith) in
      (
        row_of taps number i ∷ rows,
        rw (row_written taps number i (omega arith), made) refl,
        row_among taps number rounds i rows at,
      )

  -- The aligned sum: from `a` samples before a position, with the copy for that alignment, it is
  -- the sum at the position with the taps themselves.
  pub dot_aligned :
      ((x : Sample) → c.add c.zero (c.mul x c.zero) ≡ c.zero)
      → (taps buf : List Sample) (number i a : ℕ) → a ≤ i
      → a < number
      → i + length taps ≤ length buf
      → dot (length taps + a) c.zero (drop (i - a) buf) (row_of taps number a)
        ≡ some (convolve c.zero (take (length taps) (drop i buf)) taps)
  dot_aligned zero_tap taps buf number i a h h' fits =
      dot_skip zero_tap a (length taps) (length taps + a) (drop (i - a) buf)
        (taps ++ drop (a + length taps) (zeros taps number)) (omega arith)
        (omega (arith, length-drop (i - a) buf))
      ∙ (ap (λ xs. dot (length taps) c.zero xs (taps ++ drop (a + length taps) (zeros taps number)))
            (drop-drop a (i - a) buf ∙ ap (λ j. drop j buf) {x = i - a + a} (omega arith))
          ∙ dot-convolve c.zero (drop i buf) taps (drop (a + length taps) (zeros taps number))
              (omega (arith, length-drop i buf)))

  pub aligned_taps-rows :
      (taps : List Sample) (number : ℕ)
      → (rows : List (List Sample)) × (aligned_taps number taps ≡ some rows)
        × ((a : ℕ) → a < number → get_elem? rows a ≡ some (row_of taps number a))
  unfolding aligned_taps
  aligned_taps-rows taps number =
      let (rows, made, at) = rows_written taps number number 0 (omega arith) in
      (rows, made, λ a h. at a h ∙ ap (λ j. some (row_of taps number j)) {x = 0 + a} (omega arith))

  pub aligned_taps-row :
      (taps : List Sample) (number : ℕ) {rows : List (List Sample)}
      → aligned_taps number taps ≡ some rows
      → (a : ℕ) → a < number
      → get_elem? rows a ≡ some (row_of taps number a)
  aligned_taps-row taps number made a h =
      let (rows', made', at) = aligned_taps-rows taps number in cc (at a h, made', made)
