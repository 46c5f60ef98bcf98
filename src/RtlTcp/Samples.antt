-- ===== src/RtlTcp/Samples.antt =====
-- The conversion of samples in `msisdr_callback` of src/rtltcp_server.c.
use sdr_server.Prelude.{ℕ, ◌+◌, ◌-◌, ◌/◌, ◌<◌, ◌≡◌, List, arith, map, take, if◌then◌else◌}
use sdr_server.Prelude.Int.{ℤ, pos, negsuc, pos_part, neg_part, sub_ℕ, ◌≤ℤ◌, ltb_ℤ}
use sdr_server.Config.{to_u8}

-- `U8BUF_MAX`
abbrev pub buffer_max : ℕ
buffer_max = 262144

-- The correction's result, held in the range of an `int16_t`.
unfoldable pub clamp_sample : ℤ → ℤ
clamp_sample c =
    if ltb_ℤ (pos 32767) c then pos 32767 else if ltb_ℤ c (negsuc 32767) then negsuc 32767 else c

-- `x >> 8` of a signed number, rounding down.
abbrev pub shift_8 : ℤ → ℤ
shift_8 (pos n) = pos (n / 256)
shift_8 (negsuc n) = negsuc (n / 256)

-- `(uint8_t)((sample >> 8) + 128)`
unfoldable pub to_unsigned : ℤ → ℕ
to_unsigned s = to_u8 (sub_ℕ (pos_part (shift_8 s) + 128) (neg_part (shift_8 s)))

-- The bytes of a buffer, with the safety clamp on their number.
unfoldable pub convert : List ℤ → List ℕ
convert samples = map to_unsigned (take buffer_max samples)

-- An `int16_t`, counted from its least value.
abbrev pub offset : ℤ → ℕ
offset s = pos_part s + 32768 - neg_part s

pub clamp_sample-range : (c : ℤ) → (negsuc 32767 ≤ℤ clamp_sample c) × (clamp_sample c ≤ℤ pos 32767)
unfolding clamp_sample
clamp_sample-range c = ground arith

-- Whatever the correction of the mean yields, the byte that is sent for it is the upper byte of
-- the held value counted from the least one, below 256.
pub to_unsigned-offset :
    (c : ℤ)
    → (to_unsigned (clamp_sample c) ≡ offset (clamp_sample c) / 256)
      × (to_unsigned (clamp_sample c) < 256)
unfolding to_unsigned
to_unsigned-offset c = go (clamp_sample c) (clamp_sample-range c)
  where
    go :
        (s : ℤ)
        → (negsuc 32767 ≤ℤ s) × (s ≤ℤ pos 32767)
        → (to_unsigned s ≡ offset s / 256) × (to_unsigned s < 256)
    go (pos n) h = (ground (arith, h), ground (arith, h))
    go (negsuc n) h = (ground (arith, h), ground (arith, h))
