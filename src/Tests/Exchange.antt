-- ===== src/Tests/Exchange.antt =====
-- A client's thread on the server, and the client's own functions.
use sdr_server.Prelude.{
  ℕ, ◌+◌, ◌≡◌, replicate, refl, List, [], ◌∷◌, ◌++◌, some, true, arith, length, ◌≤◌,
}
use sdr_server.Wire.{MessageHeader, Response, encode_header, encode_response, encode_request}
use sdr_server.Wire.Transport.{Received}
use sdr_server.Socket.{Recv, chunk, would_block, interrupted, Write, wrote, write_all}
use sdr_server.Socket.Reading.{payload}
use sdr_server.Socket.Writing.{Progresses}
use sdr_server.Server.{write_message}
use sdr_server.Server.Session.{
  Leaving, requested, tcp_worker_loop, tcp_worker_loop_ends, tcp_worker_loop-requested, headers,
}
use sdr_server.Client.{received, read_response, send_message, write_request, write_data}
use sdr_server.Client.Exchange.{
  header_of_response, read_response-write_message, send_message-Received,
}
use sdr_server.Tests.Data.{request, request_header}

abbrev talk : List Recv
talk =
    would_block
    ∷ chunk (0 ∷ [])
    ∷ interrupted
    ∷ chunk (3 ∷ [])
    ∷ would_block
    ∷ chunk (0 ∷ [])
    ∷ chunk (1 ∷ 9 ∷ [])
    ∷ []

tcp_worker_loop_ends_example :
    ((l : Leaving) × (tcp_worker_loop 20 talk ≡ some l))
    × ((n : ℕ)
        → tcp_worker_loop (n + 20) (replicate n would_block ++ talk) ≡ tcp_worker_loop 20 talk)
tcp_worker_loop_ends_example = tcp_worker_loop_ends 20 talk (omega arith)

abbrev ping : MessageHeader
ping = record { protocol_version = 0; type = 3 }

abbrev shutdown : MessageHeader
shutdown = record { protocol_version = 0; type = 1 }

talk_bytes : payload talk ≡ headers (ping ∷ []) ++ (encode_header shutdown ++ 9 ∷ [])
unfolding encode_header
talk_bytes = refl

tcp_worker_loop-requested_example : tcp_worker_loop 4 talk ≡ some requested
tcp_worker_loop-requested_example =
    tcp_worker_loop-requested 4 (ping ∷ []) shutdown (9 ∷ []) talk (refl, tt) refl
      (refl, ((λ e. cc), ((λ e. cc), (refl, ((λ e. cc), ((λ e. cc), tt)))))) talk_bytes
      (omega arith)

abbrev answer : Response
answer = record { status = 0; details = 258 }

abbrev seven_writes : List Write
seven_writes = wrote 1 ∷ wrote 2 ∷ wrote 1 ∷ wrote 9 ∷ wrote 1 ∷ wrote 1 ∷ wrote 1 ∷ []

abbrev answer_pieces : List Recv
answer_pieces = chunk (0 ∷ 2 ∷ 0 ∷ []) ∷ chunk (0 ∷ 0 ∷ 1 ∷ 2 ∷ 5 ∷ []) ∷ []

seven_progress : Progresses seven_writes
seven_progress = (
  omega arith,
  (omega arith, (omega arith, (omega arith, (omega arith, (omega arith, (omega arith, tt)))))),
)

answer_bytes : payload answer_pieces ≡ (write_message answer seven_writes).0 ++ 5 ∷ []
unfolding write_message write_all encode_response
answer_bytes = refl

seven_bytes : length (encode_response answer) ≤ length seven_writes
unfolding encode_response
seven_bytes = omega arith

read_response-write_message_example :
    read_response true true answer_pieces ≡ received header_of_response answer
read_response-write_message_example =
    read_response-write_message answer seven_writes answer_pieces (5 ∷ []) (omega arith)
      seven_progress seven_bytes ((λ e. cc), ((λ e. cc), tt)) answer_bytes

abbrev whole_writes : List Write
whole_writes =
    wrote 20
    ∷ wrote 1
    ∷ wrote 1
    ∷ wrote 1
    ∷ wrote 1
    ∷ wrote 1
    ∷ wrote 1
    ∷ wrote 1
    ∷ wrote 1
    ∷ wrote 1
    ∷ wrote 1
    ∷ wrote 1
    ∷ wrote 1
    ∷ wrote 1
    ∷ wrote 1
    ∷ []

abbrev request_pieces : List Recv
request_pieces =
    chunk (0 ∷ 0 ∷ 26 ∷ 12 ∷ 23 ∷ 64 ∷ 0 ∷ 0 ∷ [])
    ∷ chunk (187 ∷ 128 ∷ 26 ∷ 19 ∷ 184 ∷ 96 ∷ 1 ∷ [])
    ∷ []

whole_progress : Progresses whole_writes
whole_progress = ground arith

whole_enough : length (encode_request request_header request) ≤ length whole_writes
unfolding encode_request
whole_enough = omega arith

sent_bytes :
    payload request_pieces ≡ (send_message true 0 0 437000000 48000 437500000 1 whole_writes).0
unfolding send_message write_request write_data write_all encode_request
sent_bytes = refl

send_message-Received_example : Received request_header request request_pieces []
send_message-Received_example =
    send_message-Received request_header request whole_writes request_pieces
      (record { center_freq = omega arith; sampling_rate = omega arith; band_freq = omega arith })
      whole_progress whole_enough ((λ e. cc), ((λ e. cc), tt)) sent_bytes
