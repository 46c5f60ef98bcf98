-- ===== src/Client/Exchange.antt =====
-- A client of src/client/tcp_client.c and the server of src/tcp_server.c, at the two ends of a
-- socket.
use sdr_server.Prelude.{
  ℕ, zero, suc, ◌≤◌, ◌<◌, ◌≡◌, ◌≢◌, refl, sym, ap, ◌∙◌, Bool, true, some, List, [], ◌∷◌, ◌++◌,
  arith, length, take, drop, u32_mod, append-nil,
}
use sdr_server.Wire.{
  MessageHeader, Request, Response, encode_request, encode_response, encode_header, encode_u32,
  decode_header, decode_response, header_size, response_size, protocol_version, type_response,
}
use sdr_server.Wire.Order.{Fits, decode_u32-encode}
use sdr_server.Wire.Transport.{Received, encode_request-Received}
use sdr_server.Socket.{Recv, Read, done, timed_out, lost, read_struct, Write}
use sdr_server.Socket.Reading.{payload, IsClean, read_struct-Fills}
use sdr_server.Socket.Writing.{Progresses, write_all_whole}
use sdr_server.Socket.Consumption.{stream_size, read_struct-smaller}
use sdr_server.Server.{write_message}
use sdr_server.Client.{
  write_data, write_request, send_message, read_data, received, read_body, read_response, drained,
  gracefully_destroy_client,
}

abbrev pub header_of_response : MessageHeader
header_of_response = record { protocol_version = protocol_version; type = type_response }

response_decoded :
    (r : Response)
    → r.details < u32_mod
    → decode_response (r.status ∷ encode_u32 r.details) ≡ some r
unfolding decode_response encode_u32
response_decoded r h =
    λ i. some (record { status = r.status; details = decode_u32-encode r.details h i })

-- Over a socket whose writes make progress and which cuts the bytes up in any way, the client
-- reads the response that `write_message` was given, if its details are a `uint32_t`.
pub read_response-write_message :
    (r : Response) (ws : List Write) (s : List Recv) (rest : List ℕ)
    → r.details < u32_mod
    → Progresses ws
    → length (encode_response r) ≤ length ws
    → IsClean s
    → payload s ≡ (write_message r ws).0 ++ rest
    → read_response true true s ≡ received header_of_response r
unfolding read_response read_body read_data write_message encode_response encode_header encode_u32
    decode_header
read_response-write_message r ws s rest f p l c e =
    let e₁ : payload s ≡ encode_response r ++ rest =
      e ∙ ap (λ (m : List ℕ × _). m.0 ++ rest) (write_all_whole (encode_response r) ws p l) in
    let (a, b, d) = read_struct-Fills header_size [] s c (omega (arith, ap length e₁)) in
    let e₂ : payload (read_struct header_size [] s).1 ≡ (r.status ∷ encode_u32 r.details) ++ rest =
      b ∙ ap (drop header_size) e₁ in
    let (a₂, b₂, d₂) =
      read_struct-Fills response_size [] (read_struct header_size [] s).1 d
        (omega (arith, ap length e₂)) in
    rw (
      a ∙ ap (λ t. done (take header_size t)) e₁,
      a₂ ∙ ap (λ t. done (take response_size t)) e₂,
      response_decoded r f,
    )

-- What `send_message` puts on the wire is what the server reads, if the numbers are `uint32_t` and
-- every write makes progress: however the bytes are cut up on the way, the server finds the
-- message's header and the request in host order, and nothing behind them.
pub send_message-Received :
    (h : MessageHeader) (r : Request) (ws : List Write) (s : List Recv)
    → Fits r
    → Progresses ws
    → length (encode_request h r) ≤ length ws
    → IsClean s
    → payload s
      ≡ (send_message true h.protocol_version h.type r.center_freq r.sampling_rate r.band_freq
          r.destination ws).0
    → Received h r s []
unfolding send_message write_request write_data
send_message-Received h r ws s f p l c e =
    encode_request-Received h r s [] c
      (e
        ∙ ap (λ (m : List ℕ × _). m.0) (write_all_whole (encode_request h r) ws p l)
        ∙ sym (append-nil _))
      f

drained-true : (r : Read) (again : Bool) → (r ≢ lost → again ≡ true) → drained r again ≡ true
drained-true lost again f = refl
drained-true timed_out again f = f (λ e. cc)
drained-true (done bytes) again f = f (λ e. cc)

-- Whatever the server still sends, `gracefully_destroy_client` gets to close the socket: more
-- rounds than there are outcomes of recv and bytes in them are enough.
gracefully_destroy_client_ends :
    (k : ℕ) (s : List Recv) → stream_size s < k → gracefully_destroy_client k s ≡ true
unfolding gracefully_destroy_client read_data
gracefully_destroy_client_ends zero s h = absurd (omega arith)
gracefully_destroy_client_ends (suc k) s h =
    drained-true (read_struct header_size [] s).0
      (gracefully_destroy_client k (read_struct header_size [] s).1)
      (λ f.
        gracefully_destroy_client_ends k (read_struct header_size [] s).1
          (omega (arith, read_struct-smaller 1 [] s f)))
