-- ===== src/Lpf.antt =====
-- src/lpf.c: the taps of the low pass filter, an odd number of them. Floats are a parameter, with
-- the conversions and the quotient that decide on errors and on the number of taps.
pub mod Count
pub mod Shape
use sdr_server.Prelude.{
  ℕ, zero, suc, ◌+◌, ◌-◌, ◌*◌, ◌/◌, ◌%◌, ◌^◌, ◌≤◌, ◌<◌, ◌≡◌, Bool, true, false, not, ◌||◌, Option,
  none, some, List, [], ◌∷◌, ltb, ◌==◌, ◌>>=◌, if◌then◌else◌, length, drop, get_elem?, map,
}
use sdr_server.Prelude.Int.{ℤ, negsuc, sub_ℕ, eqb_ℤ, pos}

-- `to_float n` is the integer that `(float) n` holds. `quotient s t` is
-- `(int) (53.0 * s / (22.0F * t))`. The rest are the expressions of the loops: a value of the
-- Hamming window, the tap in the middle and one beside it from the window's value, `fmax + 2 * tap`,
-- `gain / fmax` and `tap * gain`.
pub record Floats : Type 1 where
  pub Float : Type 0
  pub to_float : ℕ → ℕ
  pub quotient : ℕ → ℕ → ℕ
  pub hamming : ℕ → ℕ → Float
  pub middle_tap : (cutoff_freq sampling_freq : ℕ) → Float → Float
  pub side_tap : (cutoff_freq sampling_freq : ℕ) → ℤ → Float → Float
  pub add_twice : Float → Float → Float
  pub divide : Float → Float → Float
  pub scale : Float → Float → Float

pub record Grants : Type 0 where
  pub gives_taps : Bool
  pub gives_window : Bool

-- An error code and whether the taps have been freed, or the taps with their number. `overrun`: a
-- loop reads past the end of an array.
pub data Made (Float : Type 0) : Type 0 where
  refused : ℤ → Bool → Made Float
  made : List Float → ℕ → Made Float
  overrun : Made Float

abbrev pub finished : {Float : Type 0} → ℕ → Option (List Float) → Made Float
finished ntaps none = overrun
finished ntaps (some taps) = made taps ntaps

abbrev pub failure : ℤ
failure = negsuc 0

abbrev pub enomem : ℤ
enomem = negsuc 11

-- Without a window the taps are freed.
abbrev pub with_window :
    {Float : Type 0} → Option (List Float) → (List Float → Made Float) → Made Float
with_window none fill = refused enomem true
with_window (some w) fill = fill w

module _ (f : Floats) where
  open f use {Float}

  -- Halving a float is exact: the test is made on the doubles.
  unfoldable pub sanity_check_1f : (sampling_freq cutoff_freq transition_width : ℕ) → ℤ
  sanity_check_1f sampling_freq cutoff_freq transition_width =
      if sampling_freq == 0
      then failure
      else if cutoff_freq == 0 || ltb (f.to_float sampling_freq) (2 * f.to_float cutoff_freq)
      then failure
      else if transition_width == 0
      then failure
      else pos 0

  unfoldable pub compute_ntaps : ℕ → ℕ → ℕ
  compute_ntaps sampling_freq transition_width =
      let ntaps = f.quotient sampling_freq transition_width in
      if ntaps % 2 == 0 then ntaps + 1 else ntaps

  -- `for (n = 0; n < ntaps; n++)`, with `m` the last index.
  unfoldable pub window_from : (rounds n m : ℕ) → List Float
  window_from zero n m = []
  window_from (suc rounds) n m = f.hamming n m ∷ window_from rounds (n + 1) m

  unfoldable pub create_hamming_window : Bool → ℕ → Option (List Float)
  unfolding window_from
  create_hamming_window memory ntaps =
      if memory then some (window_from ntaps 0 (ntaps - 1)) else none

  -- One tap, at the distance `n` from the middle.
  unfoldable pub tap : (cutoff_freq sampling_freq : ℕ) → ℤ → Float → Float
  tap cutoff_freq sampling_freq n w =
      if eqb_ℤ n (pos 0)
      then f.middle_tap cutoff_freq sampling_freq w
      else f.side_tap cutoff_freq sampling_freq n w

  -- `for (n = -M; n <= M; n++)`, at the index n + M.
  unfoldable pub taps_from :
      (cutoff_freq sampling_freq middle rounds index : ℕ) → List Float → Option (List Float)
  unfolding tap
  taps_from cutoff_freq sampling_freq middle zero index w = some []
  taps_from cutoff_freq sampling_freq middle (suc rounds) index [] = none
  taps_from cutoff_freq sampling_freq middle (suc rounds) index (x ∷ w) =
      taps_from cutoff_freq sampling_freq middle rounds (index + 1) w >>= λ taps.
      some (tap cutoff_freq sampling_freq (sub_ℕ index middle) x ∷ taps)

  -- `for (n = 1; n <= M; n++) fmax += 2 * taps[n + M];`
  unfoldable pub fmax_from : ℕ → Float → List Float → Option Float
  fmax_from zero fmax taps = some fmax
  fmax_from (suc rounds) fmax [] = none
  fmax_from (suc rounds) fmax (x ∷ taps) = fmax_from rounds (f.add_twice fmax x) taps

  -- From the tap in the middle to the normalized taps.
  unfoldable pub normalized : Float → ℕ → List Float → Option (List Float)
  unfolding fmax_from
  normalized gain middle taps = get_elem? taps middle >>= λ center.
      fmax_from middle center (drop (middle + 1) taps) >>= λ fmax.
      some (map (λ x. f.scale x (f.divide gain fmax)) taps)

  unfoldable pub fill_taps : Float → (sampling_freq cutoff_freq ntaps : ℕ) → List Float → Made Float
  unfolding taps_from normalized
  fill_taps gain sampling_freq cutoff_freq ntaps w =
      let middle = (ntaps - 1) / 2 in
      finished ntaps
        (taps_from cutoff_freq sampling_freq middle (2 * middle + 1) 0 w >>= normalized gain middle)

  unfoldable pub create_low_pass_filter :
      Float → (sampling_freq cutoff_freq transition_width : ℕ) → Grants → Made Float
  unfolding sanity_check_1f compute_ntaps create_hamming_window fill_taps
  create_low_pass_filter gain sampling_freq cutoff_freq transition_width g =
      let code = sanity_check_1f sampling_freq cutoff_freq transition_width in
      if not (eqb_ℤ code (pos 0))
      then refused code false
      else if g.gives_taps
      then (let ntaps = compute_ntaps sampling_freq transition_width in
          with_window (create_hamming_window g.gives_window ntaps)
            (fill_taps gain sampling_freq cutoff_freq ntaps))
      else refused enomem false
