-- ===== src/RtlTcp/Program.antt =====
-- src/rtltcp_server.c, main and on_signal: the options, the acceptor's loop and the way
-- down. What getopt, the system and the device answer is an input.
use sdr_server.Prelude.{
  ℕ, Bool, true, false, Option, none, some, List, [], ◌∷◌, ◌++◌, if◌then◌else◌,
}
use sdr_server.Prelude.Int.{ℤ, pos}
use sdr_server.Config.{to_u32}
use sdr_server.RtlTcp.{DeviceState}
use sdr_server.RtlTcp.Slots.{Slot, accept_client, shut_down}

-- An option, with the number that atoi makes of its argument.
pub data CommandOption : Type 0 where
  port device gain rate center : ℤ → CommandOption
  logfile : CommandOption
  unknown : CommandOption

pub record ProgramSettings : Type 0 where
  pub port : ℤ
  pub device_index : ℤ
  pub device : DeviceState
  pub logs_to_file : Bool

unfoldable pub defaults : ProgramSettings
defaults = record {
  port = pos 1234;
  device_index = pos 0;
  device = record {
    opened = false;
    center_freq = 100000000;
    sample_rate = 2400000;
    gain_mode = pos 1;
    gain = pos 40;
  };
  logs_to_file = false;
}

-- `none`: the usage is printed, and main returns 1.
unfoldable pub parse_options : List CommandOption → ProgramSettings → Option ProgramSettings
parse_options [] s = some s
parse_options (port n ∷ rest) s = parse_options rest (record s { port = n })
parse_options (device n ∷ rest) s = parse_options rest (record s { device_index = n })
parse_options (gain n ∷ rest) s =
    parse_options rest (record s { device = record s.device { gain = n } })
parse_options (rate n ∷ rest) s =
    parse_options rest (record s { device = record s.device { sample_rate = to_u32 n } })
parse_options (center n ∷ rest) s =
    parse_options rest (record s { device = record s.device { center_freq = to_u32 n } })
parse_options (logfile ∷ rest) s = parse_options rest (record s { logs_to_file = true })
parse_options (unknown ∷ rest) s = none

-- The process as the signal handler sees it.
pub record Process : Type 0 where
  pub stopping : Bool
  pub has_device : Bool
  pub slots : List Slot
  pub lsock_for_signal : Option ℕ

pub data SignalCall : Type 0 where
  cancel_async : SignalCall
  shuts_down : ℕ → SignalCall
  closes : ℕ → SignalCall

abbrev pub shutdowns : List ℕ → List SignalCall
shutdowns [] = []
shutdowns (s ∷ ss) = shuts_down s ∷ shutdowns ss

abbrev pub closing : Option ℕ → List SignalCall
closing none = []
closing (some s) = closes s ∷ []

unfoldable pub on_signal : Process → Process × List SignalCall
unfolding shut_down
on_signal p = (
  record p { stopping = true; lsock_for_signal = none },
  (if p.has_device then cancel_async ∷ [] else [])
      ++ (shutdowns (shut_down p.slots) ++ closing p.lsock_for_signal),
)

-- What accept gives: a socket, and whether the greeting of twelve bytes is written whole; or an
-- error, which ends the loop if it is EINTR, EBADF or EINVAL or if `g_stop` is set.
pub data Accepted : Type 0 where
  client : ℕ → Bool → Accepted
  interrupted other_error : Accepted

-- What the acceptor does with a socket.
pub data Accepting : Type 0 where
  serves rejects : ℕ → Accepting

abbrev pub greeted_slots : ℕ → Bool → List Slot → Option (List Slot) → List Slot × List Accepting
greeted_slots csock greeted slots none = (slots, rejects csock ∷ [])
greeted_slots csock greeted slots (some slots') =
    if greeted then (slots', serves csock ∷ []) else (slots', rejects csock ∷ [])

-- `while (!g_stop)` in main; where the list ends, `g_stop` is seen.
unfoldable pub accept_loop : List Accepted → List Slot → List Slot × List Accepting
unfolding accept_client
accept_loop [] slots = (slots, [])
accept_loop (interrupted ∷ rest) slots = (slots, [])
accept_loop (other_error ∷ rest) slots = accept_loop rest slots
accept_loop (client csock greeted ∷ rest) slots =
    let (slots', action) = greeted_slots csock greeted slots (accept_client csock greeted slots) in
    let (last, actions) = accept_loop rest slots' in (last, action ++ actions)
