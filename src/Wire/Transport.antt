-- ===== src/Wire/Transport.antt =====
-- A message between src/client/tcp_client.c and src/tcp_server.c, over a socket that cuts it into
-- pieces.
use sdr_server.Prelude.{ℕ, ◌≡◌, ap, ◌∙◌, List, [], ◌++◌, some, arith, length, take, drop}
use sdr_server.Socket.{Recv, done, read_struct}
use sdr_server.Socket.Reading.{payload, IsClean, read_struct-Fills}
use sdr_server.Wire.{
  MessageHeader, Request, encode_request, encode_header, decode_header, decode_request, header_size,
  request_size, encode_u32,
}
use sdr_server.Wire.Order.{Fits, request_bytes, decode_request-request_bytes}

-- The header and then the request can be read, and `rest` is behind them.
pub record Received (h : MessageHeader) (r : Request) (s : List Recv) (rest : List ℕ) : Type 0 where
  pub header : List ℕ
  pub request : List ℕ
  pub header_read : (read_struct header_size [] s).0 ≡ done header
  pub header_decoded : decode_header header ≡ some h
  pub request_read : (read_struct request_size [] (read_struct header_size [] s).1).0 ≡ done request
  pub request_decoded : decode_request request ≡ some r
  pub left : payload (read_struct request_size [] (read_struct header_size [] s).1).1 ≡ rest

-- However the client's bytes are cut up on the way, the server reads the header and the request
-- that the client sent, its numbers being `uint32_t`, and leaves what the client sent behind them.
pub encode_request-Received :
    (h : MessageHeader) (r : Request) (s : List Recv) (rest : List ℕ)
    → IsClean s
    → payload s ≡ encode_request h r ++ rest
    → Fits r
    → Received h r s rest
unfolding encode_request encode_header encode_u32 decode_header
encode_request-Received h r s rest c e f =
    let (a, b, d) = read_struct-Fills header_size [] s c (omega (arith, ap length e)) in
    let e₂ : payload (read_struct header_size [] s).1 ≡ request_bytes r ++ rest =
      b ∙ ap (drop header_size) e in
    let (a₂, b₂, d₂) =
      read_struct-Fills request_size [] (read_struct header_size [] s).1 d
        (omega (arith, ap length e₂)) in
    record {
      header = encode_header h;
      request = request_bytes r;
      header_read = a ∙ ap (λ t. done (take header_size t)) e;
      header_decoded = λ i. some h;
      request_read = a₂ ∙ ap (λ t. done (take request_size t)) e₂;
      request_decoded = decode_request-request_bytes r f;
      left = b₂ ∙ ap (drop request_size) e₂;
    }
