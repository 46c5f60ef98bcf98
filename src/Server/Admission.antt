-- ===== src/Server/Admission.antt =====
-- src/tcp_server.c: the acceptor's work on one connection before it takes the mutex, from
-- `acceptor_worker` into the first half of `handle_new_client`.
pub mod Settled
use sdr_server.Prelude.{
  ℕ, Bool, true, not, Option, none, some, List, [], ◌∷◌, ◌++◌, ◌==◌, if◌then◌else◌, add32,
}
use sdr_server.Wire.{
  MessageHeader, decode_header, header_size, type_request, type_ping, status_success,
  status_failure, invalid_request, internal_error, protocol_version,
}
use sdr_server.Socket.{Recv, Read, done, timed_out, lost, read_struct}
use sdr_server.Config.{ServerConfig}
use sdr_server.Queue.{Queue}
use sdr_server.Server.{
  Verdict, ClientConfig, Action, respond, close, respond_failure, read_client_config,
  validate_client_config, accepted,
}

-- `node->dsp_worker`: what malloc left there, NULL, or a worker with its queue.
pub data Worker : Type 0 where
  uninitialised stopped : Worker
  started : Queue → Worker

-- `struct linked_list_tcp_node`
pub record Node : Type 0 where
  pub config : ClientConfig
  pub worker : Worker

-- What the machine grants: memory for a configuration and for a node, a DSP worker, a thread.
pub record Resources : Type 0 where
  pub config_memory : Bool
  pub node_memory : Bool
  pub worker_started : Option Queue
  pub thread_created : Bool

-- The acceptor is done with the connection, has a node whose thread runs, or dereferences what
-- malloc left in a node.
pub data Admission : Type 0 where
  answered : List Action → Admission
  admitted : Node → Admission
  crashed : Admission

-- `tcp_node_destroy`: closes the socket, then waits for the worker and forgets it.
unfoldable pub tcp_node_destroy : Node → Option (Node × List Action)
tcp_node_destroy n = elim n.worker [
  | uninitialised ↦ none
  | stopped ↦ some (n, close n.config.client_socket ∷ [])
  | started q ↦ some (record n { worker = stopped }, close n.config.client_socket ∷ [])
]

fail_and_destroy : List Action → Node → Admission
fail_and_destroy actions n = elim (tcp_node_destroy n) [
  | none ↦ crashed
  | some (n', closing) ↦ answered (actions ++ closing)
]

-- From a validated configuration to a node with a worker and a client thread.
start_client : Resources → ServerConfig → ℕ → ℕ → ClientConfig → Admission
start_client res sc socket counter c =
    let config = record c { is_running = true; id = counter; sdr_type = sc.sdr_type } in
    let failure = respond_failure socket status_failure internal_error in
    if not res.node_memory then answered failure else elim res.worker_started [
      | none ↦ fail_and_destroy failure (record { config = config; worker = uninitialised })
      | some q ↦
          let node : Node = record { config = config; worker = started q } in
          if res.thread_created then admitted node else fail_and_destroy failure node
    ]

judged : Resources → ServerConfig → ℕ → ℕ → ClientConfig → Verdict → Admission
judged res sc socket counter c accepted = start_client res sc socket counter c
judged res sc socket counter c _ = answered (respond_failure socket status_failure invalid_request)

validated : Resources → ServerConfig → ℕ → ℕ → Option ClientConfig → Admission
validated res sc socket counter none =
    answered (respond_failure socket status_failure invalid_request)
validated res sc socket counter (some c) =
    judged res sc socket counter c (validate_client_config c sc)

-- The first half of `handle_new_client`.
pub admit : Resources → ServerConfig → ℕ → ℕ → List Recv → Admission
admit res sc socket counter s =
    validated res sc socket counter (read_client_config res.config_memory socket sc s).0

dispatch : Resources → ServerConfig → ℕ → ℕ → List Recv → Option MessageHeader → Admission
dispatch res sc socket counter s none =
    answered (respond_failure socket status_failure invalid_request)
dispatch res sc socket counter s (some h) =
    let failure = answered (respond_failure socket status_failure invalid_request) in
    if not (h.protocol_version == protocol_version)
    then failure
    else if h.type == type_request
    then admit res sc socket counter s
    else if h.type == type_ping
    then answered
        (respond socket (record { status = status_success; details = 0 }) ∷ close socket ∷ [])
    else failure

after_header : Resources → ServerConfig → ℕ → ℕ → Read × List Recv → Admission
after_header res sc socket counter (done bytes, s) =
    dispatch res sc socket counter s (decode_header bytes)
after_header res sc socket counter (timed_out, s) =
    answered (respond_failure socket status_failure invalid_request)
after_header res sc socket counter (lost, s) =
    answered (respond_failure socket status_failure invalid_request)

-- One round of `acceptor_worker`: the counter after it, and the outcome. `timeout_set` is whether
-- setsockopt succeeded.
pub accept_connection : Bool → Resources → ServerConfig → ℕ → ℕ → List Recv → ℕ × Admission
accept_connection timeout_set res sc counter socket s =
    let counter' = add32 counter 1 in
    if timeout_set
    then (counter', after_header res sc socket counter' (read_struct header_size [] s))
    else (counter, answered (close socket ∷ []))
