-- ===== src/Wire.antt =====
-- The packed structures of src/api.h as the bytes that cross a socket, with the conversions to
-- and from network byte order of src/tcp_server.c and src/client/tcp_client.c.
pub mod Order
pub mod Transport
use sdr_server.Prelude.{ℕ, ◌+◌, ◌*◌, ◌/◌, ◌%◌, ◌^◌, List, [], ◌∷◌, ◌++◌, Option, none, some}

-- `htonl` and the copy of its result: four bytes, the most significant first.
unfoldable pub encode_u32 : ℕ → List ℕ
encode_u32 x = x / 2 ^ 24 % 256 ∷ x / 2 ^ 16 % 256 ∷ x / 2 ^ 8 % 256 ∷ x % 256 ∷ []

-- `ntohl` of four bytes in the order in which they arrived.
unfoldable pub decode_u32 : ℕ → ℕ → ℕ → ℕ → ℕ
decode_u32 a b c d = a * 2 ^ 24 + b * 2 ^ 16 + c * 2 ^ 8 + d

pub record MessageHeader : Type 0 where
  pub protocol_version : ℕ
  pub type : ℕ

pub record Request : Type 0 where
  pub center_freq : ℕ
  pub sampling_rate : ℕ
  pub band_freq : ℕ
  pub destination : ℕ

pub record Response : Type 0 where
  pub status : ℕ
  pub details : ℕ

abbrev pub protocol_version : ℕ
protocol_version = 0

abbrev pub type_request : ℕ
type_request = 0

abbrev pub type_shutdown : ℕ
type_shutdown = 1

abbrev pub type_response : ℕ
type_response = 2

abbrev pub type_ping : ℕ
type_ping = 3

abbrev pub destination_file : ℕ
destination_file = 0

abbrev pub destination_socket : ℕ
destination_socket = 1

abbrev pub status_success : ℕ
status_success = 0

abbrev pub status_failure : ℕ
status_failure = 1

abbrev pub invalid_request : ℕ
invalid_request = 1

abbrev pub out_of_band_freq : ℕ
out_of_band_freq = 2

abbrev pub internal_error : ℕ
internal_error = 3

-- `sizeof` of the packed structures.
abbrev pub header_size : ℕ
header_size = 2

abbrev pub request_size : ℕ
request_size = 13

abbrev pub response_size : ℕ
response_size = 5

unfoldable pub encode_header : MessageHeader → List ℕ
encode_header h = h.protocol_version ∷ h.type ∷ []

-- The client's `write_request`: a header, then the request with its numbers in network order.
unfoldable pub encode_request : MessageHeader → Request → List ℕ
unfolding encode_header encode_u32
encode_request h r =
    encode_header h
    ++ (encode_u32 r.center_freq
        ++ (encode_u32 r.sampling_rate ++ (encode_u32 r.band_freq ++ (r.destination ∷ []))))

-- The server's `write_message`.
unfoldable pub encode_response : Response → List ℕ
unfolding encode_header encode_u32
encode_response r =
    encode_header (record { protocol_version = protocol_version; type = type_response })
    ++ (r.status ∷ encode_u32 r.details)

-- A structure is read whole: a buffer of another size is none.
unfoldable pub decode_header : List ℕ → Option MessageHeader
decode_header (p ∷ t ∷ []) = some (record { protocol_version = p; type = t })
decode_header _ = none

unfoldable pub decode_request : List ℕ → Option Request
unfolding decode_u32
decode_request (c3 ∷ c2 ∷ c1 ∷ c0 ∷ s3 ∷ s2 ∷ s1 ∷ s0 ∷ b3 ∷ b2 ∷ b1 ∷ b0 ∷ d ∷ []) = some (record {
  center_freq = decode_u32 c3 c2 c1 c0;
  sampling_rate = decode_u32 s3 s2 s1 s0;
  band_freq = decode_u32 b3 b2 b1 b0;
  destination = d;
})
decode_request _ = none

unfoldable pub decode_response : List ℕ → Option Response
unfolding decode_u32
decode_response (s ∷ d3 ∷ d2 ∷ d1 ∷ d0 ∷ []) =
    some (record { status = s; details = decode_u32 d3 d2 d1 d0 })
decode_response _ = none
