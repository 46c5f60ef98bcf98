-- ===== src/RtlTcp/Streaming.antt =====
-- src/rtltcp_server.c: the correction of the samples' mean in `msisdr_callback`, and the thread that
-- reads the device and opens it again when the stream stops.
use sdr_server.Prelude.{
  ℕ, zero, suc, ◌+◌, ◌*◌, ◌≡◌, refl, sym, ap, subst, Bool, true, false, List, [], ◌∷◌, ◌++◌, length,
  All, arith,
}
use sdr_server.Prelude.Int.{ℤ}
use sdr_server.RtlTcp.Samples.{clamp_sample, convert}

-- `0.998f * avg + 0.002f * s` and `(int32_t)(s - avg)`, of a sample and the mean so far.
pub record Mean : Type 1 where
  pub Float : Type 0
  pub mix : Float → ℤ → Float
  pub difference : Float → ℤ → ℤ

-- The samples of a buffer after the correction, with the means behind it.
pub record Corrected (Float : Type 0) : Type 0 where
  pub samples : List ℤ
  pub dc_avg_i : Float
  pub dc_avg_q : Float

module _ (m : Mean) where
  open m use {Float}

  abbrev pub put_first : ℤ → ℤ → Corrected Float → Corrected Float
  put_first x y r = record r { samples = x ∷ y ∷ r.samples }

  -- `for (i = 0; i + 1 < n_samples; i += 2)`: a sample that is left over stays as it is.
  unfoldable pub correct : List ℤ → Float → Float → Corrected Float
  unfolding clamp_sample
  correct [] i q = record { samples = []; dc_avg_i = i; dc_avg_q = q }
  correct (x ∷ []) i q = record { samples = x ∷ []; dc_avg_i = i; dc_avg_q = q }
  correct (x ∷ y ∷ rest) i q =
      put_first (clamp_sample (m.difference (m.mix i x) x))
        (clamp_sample (m.difference (m.mix q y) y)) (correct rest (m.mix i x) (m.mix q y))

  -- What goes to the clients, and the means for the next buffer.
  unfoldable pub msisdr_callback : List ℤ → Float → Float → List ℕ × Corrected Float
  unfolding correct convert
  msisdr_callback samples i q = (convert (correct samples i q).samples, correct samples i q)

  abbrev pub follow : List ℤ → Corrected Float → Corrected Float
  follow xs r = record r { samples = xs ++ r.samples }

  -- Buffers of whole pairs are corrected as one stream: the means go on from one to the next.
  correct-append :
      (xs ys : List ℤ) (half : ℕ) (i q : Float)
      → length xs ≡ 2 * half
      → correct (xs ++ ys) i q
        ≡ follow
            (correct xs i q).samples
            (correct ys (correct xs i q).dc_avg_i (correct xs i q).dc_avg_q)
  unfolding correct
  correct-append [] ys half i q e = refl
  correct-append (x ∷ []) ys half i q e = absurd (omega arith)
  correct-append (x ∷ y ∷ xs) ys zero i q e = absurd (omega arith)
  correct-append (x ∷ y ∷ xs) ys (suc half) i q e =
      ap
        (put_first (clamp_sample (m.difference (m.mix i x) x))
          (clamp_sample (m.difference (m.mix q y) y)))
        (correct-append xs ys half (m.mix i x) (m.mix q y) (omega arith))

-- The calls of the streaming thread. `close_device` closes what the handle points to, if anything.
pub data UsbCall : Type 0 where
  read_async open_device open_failed close_device : UsbCall
  sleeps : ℕ → UsbCall

-- One try to reopen: `g_stop` before it, and whether `device_open_and_configure` returned 0.
pub record Attempt : Type 0 where
  pub stopping : Bool
  pub opens : Bool

-- One try, with what the tries after it come to: whether the device is open, and the calls.
abbrev pub tried : (stopping opens : Bool) → ℕ → Bool × List UsbCall → Bool × List UsbCall
tried true opens wait again = (false, [])
tried false true wait again = (true, sleeps wait ∷ open_device ∷ [])
tried false false wait again = (again.0, sleeps wait ∷ open_failed ∷ close_device ∷ again.1)

-- `for (wait = 1; wait <= 10 && !g_stop; wait++)`, by the tries left. Where the list ends, `g_stop`
-- is seen.
unfoldable pub reopen : (left wait : ℕ) → List Attempt → Bool × List UsbCall
reopen zero wait attempts = (false, [])
reopen (suc left) wait [] = (false, [])
reopen (suc left) wait (a ∷ rest) = tried a.stopping a.opens wait (reopen left (wait + 1) rest)

-- One round of `while (!g_stop)`: `g_stop` before the read and behind it, and the tries.
pub record UsbRound : Type 0 where
  pub stops_before : Bool
  pub stops_behind : Bool
  pub attempts : List Attempt

abbrev pub round_of : (stops_before stops_behind : Bool) → List UsbCall → List UsbCall
round_of true stops_behind later = []
round_of false true later = read_async ∷ []
round_of false false later = read_async ∷ close_device ∷ later

unfoldable pub usb_stream_thread : List UsbRound → List UsbCall
unfolding reopen
usb_stream_thread [] = []
usb_stream_thread (r ∷ rs) =
    round_of r.stops_before r.stops_behind ((reopen 10 1 r.attempts).1 ++ usb_stream_thread rs)

-- What the device makes of the calls, by whether it is open: a read needs an open device, and a
-- device is opened only if it is closed.
abbrev pub Handles : Bool → List UsbCall → Type 0
Handles is_open [] = Unit {0}
Handles is_open (read_async ∷ calls) = (is_open ≡ true) × Handles is_open calls
Handles is_open (open_device ∷ calls) = (is_open ≡ false) × Handles true calls
Handles is_open (open_failed ∷ calls) = (is_open ≡ false) × Handles is_open calls
Handles is_open (close_device ∷ calls) = Handles false calls
Handles is_open (sleeps n ∷ calls) = Handles is_open calls

-- In a round that goes on, one of the ten tries opens the device.
abbrev pub Reopens : UsbRound → Type 0
Reopens r = (r.stops_before ≡ false) → (r.stops_behind ≡ false) → (reopen 10 1 r.attempts).0 ≡ true

tried-Handles :
    (stopping opens : Bool) (wait : ℕ) (again : Bool × List UsbCall) (rest : List UsbCall)
    → (Handles again.0 rest → Handles false (again.1 ++ rest))
    → Handles (tried stopping opens wait again).0 rest
    → Handles false ((tried stopping opens wait again).1 ++ rest)
tried-Handles true opens wait again rest ih h = h
tried-Handles false true wait again rest ih h = (refl, h)
tried-Handles false false wait again rest ih h = (refl, ih h)

reopen-Handles :
    (left wait : ℕ) (attempts : List Attempt) (rest : List UsbCall)
    → Handles (reopen left wait attempts).0 rest
    → Handles false ((reopen left wait attempts).1 ++ rest)
unfolding reopen
reopen-Handles zero wait attempts rest h = h
reopen-Handles (suc left) wait [] rest h = h
reopen-Handles (suc left) wait (a ∷ attempts) rest h =
    tried-Handles a.stopping a.opens wait (reopen left (wait + 1) attempts) rest
      (reopen-Handles left (wait + 1) attempts rest) h

round_of-Handles :
    (before behind : Bool) (tries : Bool × List UsbCall) (later : List UsbCall)
    → ((before ≡ false) → (behind ≡ false) → tries.0 ≡ true)
    → (Handles tries.0 later → Handles false (tries.1 ++ later))
    → Handles true later
    → Handles true (round_of before behind (tries.1 ++ later))
round_of-Handles true behind tries later h k next = tt
round_of-Handles false true tries later h k next = (refl, tt)
round_of-Handles false false tries later h k next =
    (refl, k (subst (λ b. Handles b later) (sym (h refl refl)) next))

-- The streaming thread starts with an open device. If in each round that goes on one of the ten
-- tries opens it again, every read is of an open device, and a device is opened only when it is
-- closed.
pub usb_stream_thread-Handles :
    (rs : List UsbRound) → All Reopens rs → Handles true (usb_stream_thread rs)
unfolding usb_stream_thread
usb_stream_thread-Handles [] h = tt
usb_stream_thread-Handles (r ∷ rs) (h, hs) =
    round_of-Handles r.stops_before r.stops_behind (reopen 10 1 r.attempts) (usb_stream_thread rs) h
      (reopen-Handles 10 1 r.attempts (usb_stream_thread rs)) (usb_stream_thread-Handles rs hs)
