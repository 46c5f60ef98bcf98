-- ===== src/Driver/Rtlsdr.antt =====
-- src/sdr/rtlsdr_device.c.
pub mod Reading
use sdr_server.Prelude.{
  suc, ◌%◌, ap, ◌∙◌, All, ℕ, ◌+◌, ◌-◌, ◌^◌, ◌<◌, ◌≤◌, ◌≡◌, refl, sym, subst, Bool, true, false, not,
  ◌⊎◌, inl, inr, Option, none, some, List, [], ◌∷◌, ◌++◌, if◌then◌else◌, ltb, leb, Bool-cases,
  arith,
}
use sdr_server.Prelude.Int.{ℤ, pos, negsuc, eqb_ℤ, ltb_ℤ, pos_part, neg_part, sub_ℕ}
use sdr_server.Xlating.Cs16.{to_i32}
use sdr_server.Config.{ServerConfig}
use sdr_server.Driver.{Startup, started, refused, run_checked}

pub data RtlCall : Type 0 where
  get_index_by_serial find_nearest_gain_call close create_thread : RtlCall
  open_device : ℤ → RtlCall
  set_sample_rate set_center_freq : ℕ → RtlCall
  set_tuner_gain_mode set_freq_correction set_tuner_gain set_bias_tee : ℤ → RtlCall
  reset_buffer : RtlCall

-- `abs(a - b)`. The difference is an `int`, which wraps.
abbrev pub magnitude : ℤ → ℕ
magnitude z = pos_part z + neg_part z

unfoldable pub distance : ℤ → ℤ → ℕ
distance a b = magnitude (to_i32 (sub_ℕ (pos_part a + neg_part b) (pos_part b + neg_part a)))

unfoldable pub nearest_loop : ℤ → ℤ → List ℤ → ℤ
unfolding distance
nearest_loop target nearest [] = nearest
nearest_loop target nearest (g ∷ gs) =
    nearest_loop target (if ltb (distance target g) (distance target nearest) then g else nearest)
      gs

-- `find_nearest_gain`; the empty list stands for a count that is not positive.
unfoldable pub find_nearest_gain : ℤ → List ℤ → Option ℤ
find_nearest_gain target [] = none
find_nearest_gain target (g ∷ gs) = some (nearest_loop target g (g ∷ gs))

-- What librtlsdr answers: a code for each call, the index of a serial number, the tuner's gains.
pub record RtlLibrary : Type 0 where
  pub answer : RtlCall → ℤ
  pub index_by_serial : ℤ
  pub gains : List ℤ

unfoldable pub device_index : ServerConfig → RtlLibrary → ℤ
device_index sc lib = elim sc.device_serial [
  | none ↦ sc.device_index
  | some _ ↦ if ltb_ℤ lib.index_by_serial (pos 0) then sc.device_index else lib.index_by_serial
]

abbrev checked : RtlLibrary → RtlCall → RtlCall × ℤ
checked lib c = (c, lib.answer c)

-- The gain calls of a device in manual gain mode.
gain_calls : ServerConfig → RtlLibrary → List (RtlCall × ℤ)
gain_calls sc lib = elim (find_nearest_gain sc.rtl.gain lib.gains) [
  | none ↦ (find_nearest_gain_call, negsuc 0) ∷ []
  | some g ↦ (find_nearest_gain_call, pos 0) ∷ checked lib (set_tuner_gain g) ∷ []
]

pub rtl_calls : ServerConfig → RtlLibrary → ℕ → List (RtlCall × ℤ)
unfolding gain_calls
rtl_calls sc lib band_freq =
    checked lib (open_device (device_index sc lib))
    ∷ checked lib (set_sample_rate sc.band_sampling_rate)
    ∷ checked lib (set_tuner_gain_mode sc.rtl.gain_mode)
    ∷ ((if eqb_ℤ sc.rtl.ppm (pos 0) then [] else checked lib (set_freq_correction sc.rtl.ppm) ∷ [])
        ++ ((if eqb_ℤ sc.rtl.gain_mode (pos 1) then gain_calls sc lib else [])
            ++ (checked lib (set_bias_tee sc.rtl.bias_t)
                ∷ checked lib reset_buffer
                ∷ checked lib (set_center_freq band_freq)
                ∷ [])))

abbrev pub not_zero : ℤ → Bool
not_zero code = not (eqb_ℤ code (pos 0))

-- `rtlsdr_device_start_rx`: a device whose thread cannot be created is left open.
unfoldable pub rtlsdr_device_start_rx : ServerConfig → RtlLibrary → ℕ → Startup RtlCall
rtlsdr_device_start_rx sc lib band_freq =
    elim (run_checked not_zero (λ _. close ∷ []) (rtl_calls sc lib band_freq) []) [
      | started log ↦
          if not_zero (lib.answer create_thread)
          then refused (pos 4) (log ++ (create_thread ∷ []))
          else started (log ++ (create_thread ∷ []))
      | refused code log ↦ refused code log
    ]

abbrev pub OneOf : ℤ → List ℤ → Type 0
OneOf x [] = ⊥
OneOf x (y ∷ ys) = (x ≡ y) ⊎ OneOf x ys

-- How far two numbers are apart, without a bound.
abbrev pub gap : ℤ → ℤ → ℕ
gap a b =
    let x = pos_part a + neg_part b in
    let y = pos_part b + neg_part a in if leb x y then y - x else x - y

abbrev pub Nearest : ℤ → ℤ → List ℤ → Type 0
Nearest target n [] = Unit {0}
Nearest target n (g ∷ gs) = (gap target n ≤ gap target g) × Nearest target n gs

-- Below 2 ^ 30 on either side.
abbrev pub IsSmall : ℤ → Type 0
IsSmall z = pos_part z + neg_part z < 2 ^ 30

to_i32_small : (z : ℤ) → pos_part z + neg_part z < 2 ^ 31 → to_i32 z ≡ z
to_i32_small (pos n) h = rw (low n h, ltb_small n h) refl
  where
    low : (n : ℕ) → n + 0 < 2 ^ 31 → n % 2 ^ 32 ≡ n
    low n h = omega arith

    ltb_small : (n : ℕ) → n + 0 < 2 ^ 31 → ltb n (2 ^ 31) ≡ true
    ltb_small n h = ground arith
to_i32_small (negsuc n) h = rw (low n h, ltb_small n h) refl
  where
    low : (n : ℕ) → 0 + suc n < 2 ^ 31 → n % 2 ^ 32 ≡ n
    low n h = omega arith

    ltb_small : (n : ℕ) → 0 + suc n < 2 ^ 31 → ltb n (2 ^ 31) ≡ true
    ltb_small n h = ground arith

distance-gap : (a b : ℤ) → IsSmall a → IsSmall b → distance a b ≡ gap a b
unfolding distance
distance-gap a b h k =
    ap magnitude (to_i32_small (sub_ℕ x y) (small x y (omega arith) (omega arith))) ∙ apart x y
  where
    x : ℕ
    x = pos_part a + neg_part b

    y : ℕ
    y = pos_part b + neg_part a

    small :
        (x y : ℕ) → x < 2 ^ 31 → y < 2 ^ 31 → pos_part (sub_ℕ x y) + neg_part (sub_ℕ x y) < 2 ^ 31
    small x y h k = ground arith

    apart : (x y : ℕ) → magnitude (sub_ℕ x y) ≡ (if leb x y then y - x else x - y)
    apart x y = ground arith

-- The same by the distances that the loop computes.
abbrev ByDistance : ℤ → ℤ → List ℤ → Type 0
ByDistance target n [] = Unit {0}
ByDistance target n (g ∷ gs) = (distance target n ≤ distance target g) × ByDistance target n gs

ByDistance-Nearest :
    (target n : ℤ) (gs : List ℤ)
    → IsSmall target
    → IsSmall n
    → All IsSmall gs
    → ByDistance target n gs
    → Nearest target n gs
ByDistance-Nearest target n [] t s h d = tt
ByDistance-Nearest target n (g ∷ gs) t s h d = (
  subst (λ x. x ≤ gap target g) (distance-gap target n t s)
      (subst (λ x. distance target n ≤ x) (distance-gap target g t h.0) d.0),
  ByDistance-Nearest target n gs t s h.1 d.1,
)

OneOf-All : (x : ℤ) (xs : List ℤ) → OneOf x xs → All IsSmall xs → IsSmall x
OneOf-All x [] o h = elim o [ ]
OneOf-All x (y ∷ ys) (inl e) h = subst IsSmall (sym e) h.0
OneOf-All x (y ∷ ys) (inr o) h = OneOf-All x ys o h.1

module _ (t n g : ℤ) (gs : List ℤ) where
  loop_nearer :
      ltb (distance t g) (distance t n) ≡ true → nearest_loop t n (g ∷ gs) ≡ nearest_loop t g gs
  unfolding nearest_loop
  loop_nearer e = rw e

  loop_further :
      ltb (distance t g) (distance t n) ≡ false → nearest_loop t n (g ∷ gs) ≡ nearest_loop t n gs
  unfolding nearest_loop
  loop_further e = rw e

nearest_loop-le : (t n : ℤ) (gs : List ℤ) → distance t (nearest_loop t n gs) ≤ distance t n
unfolding nearest_loop
nearest_loop-le t n [] = omega arith
nearest_loop-le t n (g ∷ gs) = elim (Bool-cases (ltb (distance t g) (distance t n))) [
  | inl e ↦ rw e (
      closer (distance t (nearest_loop t g gs)) (distance t g) (distance t n)
        (nearest_loop-le t g gs) e)
  | inr e ↦ rw e (nearest_loop-le t n gs)
]
  where
    closer : (a b c : ℕ) → a ≤ b → ltb b c ≡ true → a ≤ c
    closer a b c h k = ground arith

nearest_loop-ByDistance : (t n : ℤ) (gs : List ℤ) → ByDistance t (nearest_loop t n gs) gs
nearest_loop-ByDistance t n [] = tt
nearest_loop-ByDistance t n (g ∷ gs) = elim (Bool-cases (ltb (distance t g) (distance t n))) [
  | inl e ↦
      subst (λ x. ByDistance t x (g ∷ gs)) (sym (loop_nearer t n g gs e))
        (nearest_loop-le t g gs, nearest_loop-ByDistance t g gs)
  | inr e ↦
      subst (λ x. ByDistance t x (g ∷ gs)) (sym (loop_further t n g gs e))
        (
          further (distance t (nearest_loop t n gs)) (distance t g) (distance t n)
              (nearest_loop-le t n gs) e,
          nearest_loop-ByDistance t n gs,
        )
]
  where
    further : (a b c : ℕ) → a ≤ c → ltb b c ≡ false → a ≤ b
    further a b c h k = ground arith

loop_nil : (t n : ℤ) → nearest_loop t n [] ≡ n
unfolding nearest_loop
loop_nil t n = refl

nearest_loop-OneOf : (t n : ℤ) (gs : List ℤ) → OneOf (nearest_loop t n gs) (n ∷ gs)
nearest_loop-OneOf t n [] = inl (loop_nil t n)
nearest_loop-OneOf t n (g ∷ gs) = elim (Bool-cases (ltb (distance t g) (distance t n))) [
  | inl e ↦
      subst (λ x. OneOf x (n ∷ g ∷ gs)) (sym (loop_nearer t n g gs e))
        (inr (nearest_loop-OneOf t g gs))
  | inr e ↦
      subst (λ x. OneOf x (n ∷ g ∷ gs)) (sym (loop_further t n g gs e))
        (skip (nearest_loop-OneOf t n gs))
]
  where
    skip : {x : ℤ} → OneOf x (n ∷ gs) → OneOf x (n ∷ g ∷ gs)
    skip (inl k) = inl k
    skip (inr k) = inr (inr k)

-- The gain that is chosen is one of the tuner's, and none of them is nearer to the configured one,
-- if all of them are below 2 ^ 30 on either side of 0, so that no difference wraps.
pub find_nearest_gain-Nearest :
    (target g : ℤ) (gs : List ℤ)
    → IsSmall target
    → All IsSmall gs
    → find_nearest_gain target gs ≡ some g
    → OneOf g gs × Nearest target g gs
unfolding find_nearest_gain
find_nearest_gain-Nearest target g [] t h e = cc
find_nearest_gain-Nearest target g (n ∷ gs) t h e =
    let o = one (nearest_loop-OneOf target n (n ∷ gs)) in
    subst (λ x. OneOf x (n ∷ gs) × Nearest target x (n ∷ gs)) (some_injective e)
      (
        o,
        ByDistance-Nearest target (nearest_loop target n (n ∷ gs)) (n ∷ gs) t
            (OneOf-All (nearest_loop target n (n ∷ gs)) (n ∷ gs) o h) h
            (nearest_loop-ByDistance target n (n ∷ gs)),
      )
  where
    one : {x : ℤ} → OneOf x (n ∷ n ∷ gs) → OneOf x (n ∷ gs)
    one (inl k) = inl k
    one (inr k) = k

    some_injective : {x y : ℤ} → some x ≡ some y → x ≡ y
    some_injective p = cc
