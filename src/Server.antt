-- ===== src/Server.antt =====
-- src/tcp_server.c: what the acceptor makes of a connection. The client list, its threads and the
-- device are in Server.World.
pub mod Band
pub mod Start
pub mod Program
pub mod Closing
pub mod Admission
pub mod Session
pub mod World
use sdr_server.Prelude.{
  ℕ, zero, suc, ◌+◌, ◌/◌, ◌%◌, Bool, true, false, ◌&&◌, ◌||◌, not, Option, none, some, List, [],
  ◌∷◌, ltb, ◌==◌, if◌then◌else◌, add32, sub32,
}
use sdr_server.Prelude.Int.{ℤ}
use sdr_server.Wire.{
  Request, Response, decode_request, encode_response, request_size, destination_file,
  destination_socket, status_failure,
}
use sdr_server.Socket.{Recv, Read, done, timed_out, lost, read_struct, Write, Sent, write_all}
use sdr_server.Config.{ServerConfig}

-- `client_config` of src/dsp_worker.h.
pub record ClientConfig : Type 0 where
  pub center_freq : ℕ
  pub sampling_rate : ℕ
  pub band_freq : ℕ
  pub destination : ℕ
  pub client_socket : ℕ
  pub id : ℕ
  pub sdr_type : ℤ
  pub is_running : Bool

-- What goes out on a socket, in order.
pub data Action : Type 0 where
  respond : ℕ → Response → Action
  close : ℕ → Action

abbrev pub respond_failure : ℕ → ℕ → ℕ → List Action
respond_failure socket status details =
    respond socket (record { status = status; details = details }) ∷ close socket ∷ []

-- The bytes of `write_message` that reach the peer, and how its loop ends.
unfoldable pub write_message : Response → List Write → List ℕ × Sent
write_message r ws = write_all (encode_response r) ws

-- The request with its numbers in host order, unless its rate does not divide the server's.
unfoldable pub configure : ℕ → ServerConfig → Request → Option ClientConfig
configure socket sc r =
    let config : ClientConfig = record {
      center_freq = r.center_freq;
      sampling_rate = r.sampling_rate;
      band_freq = r.band_freq;
      destination = r.destination;
      client_socket = socket;
      id = 0;
      sdr_type = ℤ.pos 0;
      is_running = false;
    } in
    if ltb 0 r.sampling_rate && not (sc.band_sampling_rate % r.sampling_rate == 0)
    then none
    else some config

decoded : ℕ → ServerConfig → Option Request → Option ClientConfig
decoded socket sc none = none
decoded socket sc (some r) = configure socket sc r

-- `memory`: whether the configuration could be allocated.
unfoldable pub read_client_config :
    Bool → ℕ → ServerConfig → List Recv → Option ClientConfig × List Recv
unfolding decoded
read_client_config memory socket sc s =
    if not memory
    then (none, s)
    else let (r, rest) = read_struct request_size [] s in
      (elim r [ done bytes ↦ decoded socket sc (decode_request bytes) | _ ↦ none ], rest)

-- Why `validate_client_config` returns -1, and that it returned 0.
pub data Verdict : Type 0 where
  accepted missing_center_freq missing_sampling_rate missing_band_freq : Verdict
  unknown_destination below_band above_band : Verdict

-- The frequencies are `uint32_t`, and wrap.
unfoldable pub validate_client_config : ClientConfig → ServerConfig → Verdict
validate_client_config c sc =
    let requested_min = sub32 c.center_freq (c.sampling_rate / 2) in
    let server_min = sub32 c.band_freq (sc.band_sampling_rate / 2) in
    let requested_max = add32 c.center_freq (c.sampling_rate / 2) in
    let server_max = add32 c.band_freq (sc.band_sampling_rate / 2) in
    if c.center_freq == 0
    then missing_center_freq
    else if c.sampling_rate == 0
    then missing_sampling_rate
    else if c.band_freq == 0
    then missing_band_freq
    else if not (c.destination == destination_file) && not (c.destination == destination_socket)
    then unknown_destination
    else if ltb requested_min server_min
    then below_band
    else if ltb server_max requested_max
    then above_band
    else accepted
