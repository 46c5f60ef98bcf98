-- ===== src/Wire/Order.antt =====
-- Byte order in src/tcp_server.c and src/client/tcp_client.c: reading what was written gives back
-- the numbers.
use sdr_server.Prelude.{ℕ, ◌<◌, ◌≡◌, ◌/◌, ◌%◌, ◌^◌, arith, u32_mod, some, List}
use sdr_server.Wire.{decode_u32, decode_request, Request, encode_u32}
use mathlib.Core.List.{◌∷◌, [], ◌++◌}

pub decode_u32-encode :
    (x : ℕ)
    → x < u32_mod
    → decode_u32 (x / 2 ^ 24 % 256) (x / 2 ^ 16 % 256) (x / 2 ^ 8 % 256) (x % 256) ≡ x
unfolding decode_u32
decode_u32-encode x h = omega arith

-- The numbers of a request are `uint32_t`.
pub record Fits (r : Request) : Type 0 where
  pub center_freq : r.center_freq < u32_mod
  pub sampling_rate : r.sampling_rate < u32_mod
  pub band_freq : r.band_freq < u32_mod

-- The thirteen bytes of a request.
abbrev pub request_bytes : Request → List ℕ
request_bytes r =
    encode_u32 r.center_freq
    ++ (encode_u32 r.sampling_rate ++ (encode_u32 r.band_freq ++ (r.destination ∷ [])))

pub decode_request-request_bytes :
    (r : Request) → Fits r → decode_request (request_bytes r) ≡ some r
unfolding decode_request encode_u32
decode_request-request_bytes r f = λ i. some (record {
  center_freq = decode_u32-encode r.center_freq f.center_freq i;
  sampling_rate = decode_u32-encode r.sampling_rate f.sampling_rate i;
  band_freq = decode_u32-encode r.band_freq f.band_freq i;
  destination = r.destination;
})
