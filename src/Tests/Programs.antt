-- ===== src/Tests/Programs.antt =====
-- Inputs for the programs of src/client/tcp_client_main.c and src/rtltcp_server.c, the logger and the
-- start of the server.
use sdr_server.Prelude.{
  ◌*◌, ◌≤◌, ◌≡◌, refl, true, false, some, none, List, [], ◌∷◌, ◌++◌, length, take, All, arith,
}
use sdr_server.Prelude.Int.{pos}
use sdr_server.Wire.{encode_response, encode_request, encode_header, encode_u32}
use sdr_server.Socket.{Recv, chunk, interrupted, Write, wrote, write_all}
use sdr_server.Socket.Reading.{IsClean}
use sdr_server.Server.{write_message}
use sdr_server.Client.Program as Program
use sdr_server.Client.Program.{run_client, buffer_length, receiving_failed}
use sdr_server.Client.Program.Session.{accepted, message, plenty, run_client-Saves}
use sdr_server.Logger.{Entry, log_init, log_all}
use sdr_server.Logger.Rotation.{IsBounded, log_all-IsBounded}
use sdr_server.Server.Start.{StartAnswers, Left, start_tcp_server, start_tcp_server-Left}
use sdr_server.Server.Program.{Launch, main, Outcome, main-Outcome}
use sdr_server.RtlTcp.Streaming.{
  UsbRound, usb_stream_thread, Handles, usb_stream_thread-Handles, reopen, Reopens,
}

abbrev wanted : Program.Wanted
wanted = record { center_freq = 437000000; band_freq = 437000000; sampling_rate = 48000 }

abbrev one_write : List Write
one_write = wrote 7 ∷ wrote 7 ∷ wrote 7 ∷ wrote 7 ∷ wrote 7 ∷ wrote 7 ∷ wrote 7 ∷ []

abbrev many_writes : List Write
many_writes = one_write ++ (one_write ++ one_write)

abbrev arriving : List Recv
arriving =
    chunk ((write_message (accepted 5) many_writes).0) ∷ interrupted ∷ chunk (1 ∷ 2 ∷ 3 ∷ []) ∷ []

arriving-IsClean : IsClean arriving
unfolding write_message encode_response encode_header encode_u32 write_all
arriving-IsClean = ((λ e. cc), ((λ e. cc), tt))

message-short : length (message wanted) ≤ length many_writes
unfolding encode_request encode_header encode_u32
message-short = omega arith

response-short : length (encode_response (accepted 5)) ≤ length many_writes
unfolding encode_response encode_header encode_u32
response-short = omega arith

-- Three samples are not a whole buffer.
run_client-Saves_example :
    run_client wanted (plenty many_writes arriving (3 ∷ 3 ∷ 3 ∷ []) 1) ≡ record {
      on_wire = message wanted;
      in_output = take (0 * buffer_length) (1 ∷ 2 ∷ 3 ∷ []);
      progress = receiving_failed;
    }
run_client-Saves_example =
    run_client-Saves wanted many_writes arriving (3 ∷ 3 ∷ 3 ∷ []) 1 5 many_writes (1 ∷ 2 ∷ 3 ∷ []) 0
      3 (omega arith) message-short (omega arith) (omega arith) response-short arriving-IsClean refl
      refl (omega arith) (omega arith) (omega arith) (omega arith)

abbrev entries : List Entry
entries =
    record {
      prefix = some 28;
      message = some 40;
      answers = record { renames = true; reopens = true; other = 0 };
    }
    ∷ record {
      prefix = some 28;
      message = none;
      answers = record { renames = true; reopens = false; other = 0 };
    }
    ∷ []

log_all-IsBounded_example : IsBounded 500 0 100 (log_all entries (log_init (some 12) true 50 500 0))
log_all-IsBounded_example = log_all-IsBounded (some 12) true 50 500 0 100 entries refl (omega arith)

abbrev no_bind : StartAnswers
no_bind = record {
  gives_struct = true;
  device_code = pos 0;
  opened = pos 3;
  reuses_address = true;
  reuses_port = true;
  address_valid = true;
  binds = false;
  listens = true;
  thread_code = pos 0;
}

start_tcp_server-Left_example : Left no_bind (start_tcp_server no_bind)
start_tcp_server-Left_example = start_tcp_server-Left no_bind (λ e. cc)

abbrev rounds : List UsbRound
rounds =
    record {
      stops_before = false;
      stops_behind = false;
      attempts =
          record { stopping = false; opens = false }
          ∷ record { stopping = false; opens = true }
          ∷ [];
    }
    ∷ record { stops_before = false; stops_behind = true; attempts = [] }
    ∷ []

rounds-Reopen : All Reopens rounds
unfolding reopen
rounds-Reopen = ((λ a b. refl), ((λ a b. cc), tt))

usb_stream_thread-Handles_example : Handles true (usb_stream_thread rounds)
usb_stream_thread-Handles_example = usb_stream_thread-Handles rounds rounds-Reopen

-- A signal comes before the server is joined.
abbrev launch : Launch
launch = record {
  has_argument = true;
  config_code = pos 0;
  start = record no_bind { binds = true };
  signal_before_join = true;
  shutdown_code = pos 0;
}

main-Outcome_example : Outcome launch (main launch)
main-Outcome_example = main-Outcome launch (λ e. cc)
