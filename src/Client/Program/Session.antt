-- ===== src/Client/Program/Session.antt =====
-- src/client/tcp_client_main.c against a server: from the request on the wire to the output.
use sdr_server.Prelude.{
  ℕ, ◌+◌, ◌*◌, ◌≤◌, ◌<◌, ◌≡◌, refl, ap, ◌∙◌, true, List, [], ◌∷◌, ◌++◌, length, take, drop, u32_mod,
  arith,
}
use sdr_server.Wire.{
  Response, encode_request, encode_response, header_size, response_size, protocol_version,
  type_request, destination_socket, status_success, encode_header, encode_u32,
}
use sdr_server.Socket.{Recv, read_struct, Write, sent}
use sdr_server.Socket.Reading.{payload, IsClean, read_struct-Fills}
use sdr_server.Socket.Writing.{Progresses, write_all_whole}
use sdr_server.Server.{write_message}
use sdr_server.Client.{send_message, write_request, write_data, read_data}
use sdr_server.Client.Exchange.{read_response-write_message}
use sdr_server.Client.Program.{
  Wanted, SystemAnswers, receiving_failed, buffer_length, after_response, save, response_checked,
  run_client,
}
use sdr_server.Client.Program.Output.{Stores, receive-Whole}

-- The server's answer and the samples that follow it.
abbrev pub accepted : ℕ → Response
accepted details = record { status = status_success; details = details }

abbrev pub message : Wanted → List ℕ
message r =
    encode_request (record { protocol_version = protocol_version; type = type_request })
      (record {
        center_freq = r.center_freq;
        sampling_rate = r.sampling_rate;
        band_freq = r.band_freq;
        destination = destination_socket;
      })

-- The samples are what is left of the stream behind the response.
after-response :
    (details : ℕ) (ws : List Write) (s : List Recv) (samples : List ℕ)
    → Progresses ws
    → length (encode_response (accepted details)) ≤ length ws
    → IsClean s
    → payload s ≡ (write_message (accepted details) ws).0 ++ samples
    → (payload (after_response s) ≡ samples) × IsClean (after_response s)
unfolding write_message read_data encode_response encode_header encode_u32
after-response details ws s samples p l c e =
    let e₁ : payload s ≡ encode_response (accepted details) ++ samples =
      e
      ∙ ap (λ (m : List ℕ × _). m.0 ++ samples)
          (write_all_whole (encode_response (accepted details)) ws p l) in
    let (a, b, d) = read_struct-Fills header_size [] s c (omega (arith, ap length e₁)) in
    let e₂ : payload (read_struct header_size [] s).1
        ≡ (status_success ∷ encode_u32 details) ++ samples =
      b ∙ ap (drop header_size) e₁ in
    let (a₂, b₂, d₂) =
      read_struct-Fills response_size [] (read_struct header_size [] s).1 d
        (omega (arith, ap length e₂)) in
    (b₂ ∙ ap (drop response_size) e₂, d₂)

request-sent :
    (r : Wanted) (ws : List Write)
    → Progresses ws
    → length (message r) ≤ length ws
    → send_message true protocol_version type_request r.center_freq r.sampling_rate r.band_freq
        destination_socket ws
      ≡ (message r, sent)
unfolding send_message write_request write_data
request-sent r ws p l = write_all_whole (message r) ws p l

-- All memory is there, and the output opens.
abbrev pub plenty : List Write → List Recv → List ℕ → ℕ → SystemAnswers
plenty writes recvs fwrites rounds = record {
  connects = true;
  message_memory = true;
  header_memory = true;
  response_memory = true;
  writes = writes;
  recvs = recvs;
  opens_output = true;
  buffer_memory = true;
  fwrites = fwrites;
  rounds = rounds;
}

-- Against a server that accepts the request and sends `whole` buffers of samples and less than
-- another one before it closes, the program puts its request on the wire, stores the whole buffers
-- and nothing else, and ends in failure: if all memory is there, the output opens, every write and
-- every fwrite makes progress, the bytes arrive in pieces of any size, the details of the response
-- are a `uint32_t`, and enough rounds are seen.
pub run_client-Saves :
    (r : Wanted) (writes : List Write) (recvs : List Recv) (fwrites : List ℕ) (rounds : ℕ)
    (details : ℕ) (ws : List Write) (samples : List ℕ) (whole rest : ℕ)
    → Progresses writes
    → length (message r) ≤ length writes
    → details < u32_mod
    → Progresses ws
    → length (encode_response (accepted details)) ≤ length ws
    → IsClean recvs
    → payload recvs ≡ (write_message (accepted details) ws).0 ++ samples
    → length samples ≡ whole * buffer_length + rest
    → rest < buffer_length
    → Stores fwrites
    → length samples ≤ length fwrites
    → whole < rounds
    → run_client r (plenty writes recvs fwrites rounds) ≡ record {
      on_wire = message r;
      in_output = take (whole * buffer_length) samples;
      progress = receiving_failed;
    }
unfolding run_client response_checked save
run_client-Saves r writes recvs fwrites rounds details ws samples whole rest p l d q m c e size r' f
      n k =
    let (left, clean) = after-response details ws recvs samples q m c e in
    rw
      (
        request-sent r writes p l,
        read_response-write_message (accepted details) ws recvs samples d q m c e,
        receive-Whole buffer_length whole rest rounds (after_response recvs) fwrites clean
            (ap length left ∙ size) r' f (omega (arith, ap length left)) k,
        left,
      )
      refl
