-- ===== src/Xlating/Input.antt =====
-- The input loops of src/xlating.c: bytes and 16-bit words as pairs of scaled integers.
use sdr_server.Prelude.{
  ℕ, ◌-◌, ◌*◌, ◌/◌, ◌<◌, ◌≡◌, List, [], ◌∷◌, ltb, if◌then◌else◌, length, All, arith,
}
use sdr_server.Prelude.Int.{ℤ, pos, negsuc, sub_ℕ, ◌≤ℤ◌}

-- `for (i = 0; i < input_len / 2; i++)` over the items 2 * i and 2 * i + 1; an item that is left
-- over at the end makes no sample.
unfoldable pub pairs : {A : Type 0} → (ℕ → ℤ) → (ℤ → ℤ → A) → List ℕ → List A
pairs convert sample [] = []
pairs convert sample (x ∷ []) = []
pairs convert sample (x ∷ y ∷ input) = sample (convert x) (convert y) ∷ pairs convert sample input

-- (x - 127.5) / 128, in units of 2^-15.
unfoldable pub q15_cu8 : ℕ → ℤ
q15_cu8 x = sub_ℕ (256 * x) 32640

-- An `int8_t` from its byte, and x / 128 in units of 2^-15, which is also x << 8.
unfoldable pub q15_cs8 : ℕ → ℤ
q15_cs8 x = if ltb x 128 then pos (256 * x) else negsuc (256 * (256 - x) - 1)

-- An `int16_t` from its word: x / 32768 in units of 2^-15.
unfoldable pub q15_cs16 : ℕ → ℤ
q15_cs16 x = if ltb x 32768 then pos x else negsuc (65536 - x - 1)

-- (x - 128) << 8
unfoldable pub shifted_cu8 : ℕ → ℤ
shifted_cu8 x = sub_ℕ (256 * x) 32768

pub length-pairs :
    {A : Type 0} (convert : ℕ → ℤ) (sample : ℤ → ℤ → A) (input : List ℕ)
    → length (pairs convert sample input) ≡ length input / 2
unfolding pairs
length-pairs convert sample [] = omega arith
length-pairs convert sample (x ∷ []) = omega arith
length-pairs convert sample (x ∷ y ∷ input) = omega (arith, length-pairs convert sample input)

-- The range of an `int16_t`.
abbrev pub IsInt16 : ℤ → Type 0
IsInt16 z = (negsuc 32767 ≤ℤ z) × (z ≤ℤ pos 32767)

pub pairs-All :
    {A : Type 0} (P : A → Type 0) (convert : ℕ → ℤ) (sample : ℤ → ℤ → A) (bound : ℕ)
    → ((x y : ℕ) → x < bound → y < bound → P (sample (convert x) (convert y)))
    → (input : List ℕ) → All (λ x. x < bound) input
    → All P (pairs convert sample input)
unfolding pairs
pairs-All P convert sample bound keeps [] h = tt
pairs-All P convert sample bound keeps (x ∷ []) h = tt
pairs-All P convert sample bound keeps (x ∷ y ∷ input) (hx, (hy, h)) =
    (keeps x y hx hy, pairs-All P convert sample bound keeps input h)

pub shifted_cu8-IsInt16 : (x : ℕ) → x < 256 → IsInt16 (shifted_cu8 x)
unfolding shifted_cu8
shifted_cu8-IsInt16 x h = ground arith

pub q15_cs8-IsInt16 : (x : ℕ) → x < 256 → IsInt16 (q15_cs8 x)
unfolding q15_cs8
q15_cs8-IsInt16 x h = ground arith

pub q15_cs16-IsInt16 : (x : ℕ) → x < 65536 → IsInt16 (q15_cs16 x)
unfolding q15_cs16
q15_cs16-IsInt16 x h = ground arith
