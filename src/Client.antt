-- ===== src/Client.antt =====
-- src/client/tcp_client.c: the client's side of the protocol.
pub mod Exchange
pub mod Connect
pub mod Program
use sdr_server.Prelude.{
  ℕ, zero, suc, Bool, true, false, Option, none, some, List, [], ◌∷◌, if◌then◌else◌,
}
use sdr_server.Wire.{
  MessageHeader, Request, Response, encode_request, decode_header, decode_response, header_size,
  response_size,
}
use sdr_server.Socket.{
  Recv, Read, done, timed_out, lost, read_struct, Write, Sent, write_failed, write_all,
}

-- The loop of `write_data` is that of the server's `write_message`.
unfoldable pub write_data : List ℕ → List Write → List ℕ × Sent
write_data = write_all

-- The bytes that go out; without memory for the buffer there are none.
unfoldable pub write_request : Bool → MessageHeader → Request → List Write → List ℕ × Sent
write_request memory header req ws =
    if memory then write_data (encode_request header req) ws else ([], write_failed)

unfoldable pub send_message :
    Bool
    → (protocol type center_freq sampling_rate band_freq destination : ℕ) → List Write
    → List ℕ × Sent
send_message memory protocol type center_freq sampling_rate band_freq destination ws =
    write_request memory (record { protocol_version = protocol; type = type })
      (record {
        center_freq = center_freq;
        sampling_rate = sampling_rate;
        band_freq = band_freq;
        destination = destination;
      })
      ws

-- The loop of `read_data` is that of the server's `read_struct`.
unfoldable pub read_data : ℕ → List Recv → Read × List Recv
read_data n s = read_struct n [] s

-- What `read_response` comes to: 0 with the two structures, -ENOMEM, a timeout, or -1.
pub data Reply : Type 0 where
  received : MessageHeader → Response → Reply
  no_memory waited disconnected : Reply

abbrev pub reply : Option MessageHeader → Option Response → Reply
reply (some h) (some r) = received h r
reply none r = disconnected
reply (some h) none = disconnected

read_body : Bool → Option MessageHeader → List Recv → Reply
read_body memory h s =
    if memory
    then elim (read_data response_size s).0 [
      | done bytes ↦ reply h (decode_response bytes)
      | timed_out ↦ waited
      | lost ↦ disconnected
    ]
    else no_memory

-- The two flags: whether the header and the response can be allocated.
unfoldable pub read_response : (header_memory response_memory : Bool) → List Recv → Reply
unfolding read_body
read_response header_memory response_memory s =
    if header_memory
    then elim (read_data header_size s).0 [
      | done bytes ↦ read_body response_memory (decode_header bytes) (read_data header_size s).1
      | timed_out ↦ waited
      | lost ↦ disconnected
    ]
    else no_memory

abbrev pub drained : Read → Bool → Bool
drained (done bytes) again = again
drained timed_out again = again
drained lost again = true

-- `gracefully_destroy_client` by the rounds of its loop: whether it gets to close the socket.
unfoldable pub gracefully_destroy_client : (rounds : ℕ) → List Recv → Bool
gracefully_destroy_client zero s = false
gracefully_destroy_client (suc k) s =
    drained (read_data header_size s).0 (gracefully_destroy_client k (read_data header_size s).1)
