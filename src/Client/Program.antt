-- ===== src/Client/Program.antt =====
-- src/client/tcp_client_main.c: the command line client, from its options to the samples in its
-- output. What getopt, the socket, fopen and fwrite answer is an input.
pub mod Output
pub mod Session
use sdr_server.Prelude.{
  ℕ, zero, suc, ◌-◌, Bool, true, false, not, Option, none, some, List, [], ◌∷◌, ◌++◌, ◌==◌,
  if◌then◌else◌, length, take, drop,
}
use sdr_server.Wire.{
  MessageHeader, Response, header_size, response_size, protocol_version, type_request,
  type_response, destination_socket, status_success,
}
use sdr_server.Socket.{Recv, Read, done, timed_out, lost, Write, Sent, sent, write_failed, blocked}
use sdr_server.Client.{
  send_message, read_data, Reply, received, no_memory, waited, disconnected, read_response,
}

-- An option, with the number that atof or atoi makes of its argument. getopt also accepts -r, -m
-- and -n, which the switch does not know.
pub data CommandOption : Type 0 where
  help : CommandOption
  hostname : CommandOption
  band port rate center : ℕ → CommandOption
  unknown : CommandOption

pub record Wanted : Type 0 where
  pub center_freq : ℕ
  pub band_freq : ℕ
  pub sampling_rate : ℕ

-- How the program ends before it connects, or what it is to request.
pub data Command : Type 0 where
  prints_usage exits_failure : Command
  requests : Wanted → Command

abbrev pub defaults : Wanted
defaults = record { center_freq = 0; band_freq = 0; sampling_rate = 48000 }

-- The band is the centre frequency unless it is given.
unfoldable pub checked : (has_filename : Bool) → Wanted → Command
checked has_filename r =
    if not has_filename
    then prints_usage
    else if r.center_freq == 0
    then prints_usage
    else requests (if r.band_freq == 0 then record r { band_freq = r.center_freq } else r)

unfoldable pub parse_options : List CommandOption → (has_filename : Bool) → Wanted → Command
unfolding checked
parse_options [] has_filename r = checked has_filename r
parse_options (help ∷ rest) has_filename r = prints_usage
parse_options (hostname ∷ rest) has_filename r = parse_options rest has_filename r
parse_options (band n ∷ rest) has_filename r =
    parse_options rest has_filename (record r { band_freq = n })
parse_options (port n ∷ rest) has_filename r = parse_options rest has_filename r
parse_options (rate n ∷ rest) has_filename r =
    parse_options rest has_filename (record r { sampling_rate = n })
parse_options (center n ∷ rest) has_filename r =
    parse_options rest has_filename (record r { center_freq = n })
parse_options (unknown ∷ rest) has_filename r = exits_failure

-- `while (left > 0)` around fwrite, by what its calls return; the list's end is a call that
-- returns 0. What is stored, and whether all is.
unfoldable pub store : List ℕ → List ℕ → List ℕ × Bool × List ℕ
store [] fwrites = ([], true, fwrites)
store (b ∷ bs) [] = ([], false, [])
store (b ∷ bs) (zero ∷ fwrites) = ([], false, fwrites)
store (b ∷ bs) (suc k ∷ fwrites) =
    let (out, stored, rest) = store (drop k bs) fwrites in (b ∷ take k bs ++ out, stored, rest)

-- How the loop ends: `EXIT_FAILURE` after a read or a store that failed, or not yet.
pub data Ending : Type 0 where
  exit_failure still_running : Ending

abbrev pub read_then : Read → (List ℕ → List ℕ × Ending) → List ℕ × Ending
read_then (done bytes) next = next bytes
read_then timed_out next = ([], exit_failure)
read_then lost next = ([], exit_failure)

abbrev pub store_then : List ℕ × Bool × List ℕ → (List ℕ → List ℕ × Ending) → List ℕ × Ending
store_then (out, true, fwrites) next = let (later, end) = next fwrites in (out ++ later, end)
store_then (out, false, fwrites) next = (out, exit_failure)

-- `while (!do_exit)`, by the rounds. Nothing sets `do_exit`: its handler is never installed.
unfoldable pub receive : (rounds buffer_length : ℕ) → List Recv → List ℕ → List ℕ × Ending
unfolding store
receive zero buffer_length s fwrites = ([], still_running)
receive (suc rounds) buffer_length s fwrites = read_then (read_data buffer_length s).0 λ bytes.
    store_then (store bytes fwrites)
      λ fwrites'. receive rounds buffer_length (read_data buffer_length s).1 fwrites'

abbrev pub buffer_length : ℕ
buffer_length = 262144

-- What the system answers. `rounds` bounds what is seen of the last loop.
pub record SystemAnswers : Type 0 where
  pub connects : Bool
  pub message_memory : Bool
  pub header_memory : Bool
  pub response_memory : Bool
  pub writes : List Write
  pub recvs : List Recv
  pub opens_output : Bool
  pub buffer_memory : Bool
  pub fwrites : List ℕ
  pub rounds : ℕ

-- The bytes on the wire and in the output, and how far the program got. A refusal leaves by
-- ERROR_CHECK, which closes nothing; a failure has closed the connection.
pub data Progress : Type 0 where
  refused failed receiving_failed receiving : Progress

pub record Run : Type 0 where
  pub on_wire : List ℕ
  pub in_output : List ℕ
  pub progress : Progress

abbrev pub stopped : List ℕ → Progress → Run
stopped on_wire progress = record { on_wire = on_wire; in_output = []; progress = progress }

-- The stream behind the response.
abbrev pub after_response : List Recv → List Recv
after_response s = (read_data response_size (read_data header_size s).1).1

abbrev pub progress_of : Ending → Progress
progress_of exit_failure = receiving_failed
progress_of still_running = receiving

unfoldable pub save : SystemAnswers → List ℕ → Run
unfolding receive
save a on_wire =
    if not a.opens_output
    then stopped on_wire failed
    else if not a.buffer_memory
    then stopped on_wire failed
    else let (out, end) = receive a.rounds buffer_length (after_response a.recvs) a.fwrites in
      record { on_wire = on_wire; in_output = out; progress = progress_of end }

unfoldable pub response_checked : SystemAnswers → List ℕ → Reply → Run
unfolding save
response_checked a on_wire (received h r) =
    if not (h.type == type_response)
    then stopped on_wire failed
    else if not (r.status == status_success)
    then stopped on_wire failed
    else save a on_wire
response_checked a on_wire no_memory = stopped on_wire refused
response_checked a on_wire waited = stopped on_wire refused
response_checked a on_wire disconnected = stopped on_wire refused

abbrev pub requested : SystemAnswers → List ℕ × Sent → Run
requested a (out, sent) =
    response_checked a out (read_response a.header_memory a.response_memory a.recvs)
requested a (out, write_failed) = stopped out refused
requested a (out, blocked) = stopped out receiving

-- `main` from `create_client` on.
unfoldable pub run_client : Wanted → SystemAnswers → Run
unfolding response_checked
run_client r a =
    if not a.connects
    then stopped [] refused
    else requested a (
        send_message a.message_memory protocol_version type_request r.center_freq r.sampling_rate
          r.band_freq destination_socket a.writes)
