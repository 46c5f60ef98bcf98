-- ===== src/Server/Admission/Settled.antt =====
-- What becomes of a connection to src/tcp_server.c.
use sdr_server.Prelude.{
  ℕ, ◌%◌, ◌≡◌, ◌≢◌, refl, Bool, true, false, Option, none, some, List, [], arith, any, ◌==◌,
  eqb_refl, add32,
}
use sdr_server.Wire.{
  MessageHeader, Request, decode_header, decode_request, header_size, request_size,
}
use sdr_server.Socket.{Recv, Read, done, timed_out, lost, read_struct}
use sdr_server.Config.{ServerConfig}
use sdr_server.Queue.{Queue}
use sdr_server.Server.{
  ClientConfig, Action, respond, close, configure, decoded, read_client_config,
  validate_client_config, Verdict, accepted, missing_center_freq, missing_sampling_rate,
  missing_band_freq, unknown_destination, below_band, above_band,
}
use sdr_server.Server.Admission.{
  started, Node, Resources, Admission, answered, admitted, crashed, tcp_node_destroy,
  fail_and_destroy, start_client, judged, validated, admit, dispatch, after_header,
  accept_connection,
}

abbrev pub closes : ℕ → Action → Bool
closes socket (respond s r) = false
closes socket (close s) = s == socket

-- The client that is admitted on a connection.
pub record Welcome (sc : ServerConfig) (socket counter : ℕ) (n : Node) : Type 0 where
  pub valid : validate_client_config n.config sc ≡ accepted
  pub divides : sc.band_sampling_rate % n.config.sampling_rate ≡ 0
  pub socket_kept : n.config.client_socket ≡ socket
  pub numbered : n.config.id ≡ counter
  pub running : n.config.is_running ≡ true
  pub typed : n.config.sdr_type ≡ sc.sdr_type
  pub worker : Queue
  pub working : n.worker ≡ started worker

-- A client is admitted, the socket is closed behind an answer, or, where no worker could be
-- started for a client, the node's stale pointer is followed.
abbrev pub Settled : Resources → ServerConfig → ℕ → ℕ → Admission → Type 0
Settled res sc socket counter (answered actions) = any (closes socket) actions ≡ true
Settled res sc socket counter (admitted n) = Welcome sc socket counter n
Settled res sc socket counter crashed = res.worker_started ≡ none

record Configured (sc : ServerConfig) (socket : ℕ) (c : ClientConfig) : Type 0 where
  socket_kept : c.client_socket ≡ socket
  divides : c.sampling_rate ≢ 0 → sc.band_sampling_rate % c.sampling_rate ≡ 0

configure-Configured :
    (socket : ℕ) (sc : ServerConfig) (r : Request) (c : ClientConfig)
    → configure socket sc r ≡ some c
    → Configured sc socket c
unfolding configure
configure-Configured socket sc r c e = ground arith

decoded-Configured :
    (socket : ℕ) (sc : ServerConfig) (r : Option Request) (c : ClientConfig)
    → decoded socket sc r ≡ some c
    → Configured sc socket c
unfolding decoded
decoded-Configured socket sc none c e = cc
decoded-Configured socket sc (some r) c e = configure-Configured socket sc r c e

read-Configured :
    (socket : ℕ) (sc : ServerConfig) (r : Read) (c : ClientConfig)
    → (elim r [
      | done bytes ↦ decoded socket sc (decode_request bytes)
      | timed_out ↦ none
      | lost ↦ none
    ])
      ≡ some c
    → Configured sc socket c
read-Configured socket sc (done bytes) c e = decoded-Configured socket sc (decode_request bytes) c e
read-Configured socket sc timed_out c e = cc
read-Configured socket sc lost c e = cc

read_client_config-Configured :
    (memory : Bool) (socket : ℕ) (sc : ServerConfig) (s : List Recv) (c : ClientConfig)
    → (read_client_config memory socket sc s).0 ≡ some c
    → Configured sc socket c
unfolding read_client_config
read_client_config-Configured false socket sc s c e = cc
read_client_config-Configured true socket sc s c e =
    read-Configured socket sc (read_struct request_size [] s).0 c e

module _ (res : Resources) (sc : ServerConfig) (socket counter : ℕ) where
  start_client-Settled :
      (c : ClientConfig)
      → Configured sc socket c
      → validate_client_config c sc ≡ accepted
      → Settled res sc socket counter (start_client res sc socket counter c)
  unfolding start_client fail_and_destroy tcp_node_destroy validate_client_config
  start_client-Settled c k v = ground (arith, k.divides)

  judged-Settled :
      (c : ClientConfig) (v : Verdict)
      → Configured sc socket c
      → validate_client_config c sc ≡ v
      → Settled res sc socket counter (judged res sc socket counter c v)
  unfolding judged
  judged-Settled c accepted k e = start_client-Settled c k e
  judged-Settled c missing_center_freq k e = rw (eqb_refl socket)
  judged-Settled c missing_sampling_rate k e = rw (eqb_refl socket)
  judged-Settled c missing_band_freq k e = rw (eqb_refl socket)
  judged-Settled c unknown_destination k e = rw (eqb_refl socket)
  judged-Settled c below_band k e = rw (eqb_refl socket)
  judged-Settled c above_band k e = rw (eqb_refl socket)

  validated-Settled :
      (o : Option ClientConfig)
      → ((c : ClientConfig) → o ≡ some c → Configured sc socket c)
      → Settled res sc socket counter (validated res sc socket counter o)
  unfolding validated
  validated-Settled none f = rw (eqb_refl socket)
  validated-Settled (some c) f = judged-Settled c (validate_client_config c sc) (f c refl) refl

  admit-Settled : (s : List Recv) → Settled res sc socket counter (admit res sc socket counter s)
  unfolding admit
  admit-Settled s =
      validated-Settled (read_client_config res.config_memory socket sc s).0
        (λ c. read_client_config-Configured res.config_memory socket sc s c)

  dispatch-Settled :
      (s : List Recv) (o : Option MessageHeader)
      → Settled res sc socket counter (dispatch res sc socket counter s o)
  unfolding dispatch
  dispatch-Settled s none = rw (eqb_refl socket)
  dispatch-Settled s (some h) = ground (arith, admit-Settled s, eqb_refl socket)

  after_header-Settled :
      (r : Read × List Recv) → Settled res sc socket counter (after_header res sc socket counter r)
  unfolding after_header
  after_header-Settled (done bytes, s) = dispatch-Settled s (decode_header bytes)
  after_header-Settled (timed_out, s) = rw (eqb_refl socket)
  after_header-Settled (lost, s) = rw (eqb_refl socket)

-- Whatever a peer sends and whatever the machine refuses, a connection is settled: its client is
-- admitted with a valid configuration under the next number, its rate dividing the server's, with
-- its worker started; or its socket is closed; or, where no worker could be started, the node's
-- stale pointer is followed.
pub accept_connection-Settled :
    (timeout_set : Bool) (res : Resources) (sc : ServerConfig) (counter socket : ℕ) (s : List Recv)
    → Settled res sc socket
        (add32 counter 1)
        (accept_connection timeout_set res sc counter socket s).1
unfolding accept_connection
accept_connection-Settled true res sc counter socket s =
    after_header-Settled res sc socket (add32 counter 1) (read_struct header_size [] s)
accept_connection-Settled false res sc counter socket s = rw (eqb_refl socket)
