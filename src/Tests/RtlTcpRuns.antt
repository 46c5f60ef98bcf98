-- ===== src/Tests/RtlTcpRuns.antt =====
-- The rtl_tcp server's commands, samples and clients.
use sdr_server.Prelude.{ℕ, ◌≡◌, refl, true, false, List, [], ◌∷◌, ◌==◌, if◌then◌else◌, arith}
use sdr_server.Prelude.Int.{pos}
use sdr_server.RtlTcp.{DeviceState, open_attempts, device_open_and_configure, run_commands}
use sdr_server.RtlTcp.Commands.{Tuning, Follows, obey_all, device_open_and_configure-Follows}
use sdr_server.RtlTcp.Slots.{Slot, empty, occupied, Send, took, would_block, failed}
use sdr_server.RtlTcp.Slots.Reuse.{Event, accepts, exits, broadcasts}
use sdr_server.RtlTcp.Joining as Joining
use sdr_server.RtlTcp.Joining.{stop_clients, seats_after, no_seats}
use sdr_server.RtlTcp.Joining.Joins.{Stuck, Missed, stop_clients-joined}

abbrev device : DeviceState
device = record {
  opened = true;
  center_freq = 100000000;
  sample_rate = 2400000;
  gain_mode = pos 1;
  gain = pos 40;
}

abbrev untuned : Tuning
untuned = record { freq = 0; rate = 0; mode = pos 0; gain = pos 0 }

abbrev commands : List (ℕ × ℕ)
commands = (1, 433000000) ∷ (2, 100) ∷ (3, 1) ∷ (4, 400) ∷ (7, 1) ∷ (8, 0) ∷ []

third_opens : open_attempts 5 0 (λ _. false) (λ i. i == 2) ≡ true
unfolding open_attempts
third_opens = refl

device_open_and_configure-Follows_example :
    let (s', calls) = device_open_and_configure (λ _. false) (λ i. i == 2) device in
    let (s₂, more) = run_commands commands s' in Follows s₂ (obey_all more (obey_all calls untuned))
device_open_and_configure-Follows_example =
    device_open_and_configure-Follows (λ _. false) (λ i. i == 2) device untuned commands third_opens

abbrev automatic : DeviceState
automatic = record device { gain_mode = pos 0 }

abbrev table : List Slot
table = occupied 7 ∷ empty ∷ occupied 9 ∷ empty ∷ []

abbrev sends : ℕ → List Send
sends i = took 1 ∷ (if i == 2 then failed else would_block) ∷ []

abbrev events : List Event
events =
    accepts 7 true ∷ accepts 8 false ∷ accepts 9 true ∷ broadcasts (1 ∷ 2 ∷ []) sends ∷ exits 0 ∷ []

abbrev comings : List Joining.Event
comings =
    Joining.accepts 7
    ∷ Joining.accepts 8
    ∷ Joining.exits 0
    ∷ Joining.accepts 9
    ∷ Joining.accepts 10
    ∷ []

stop_clients-joined_example :
    (stop_clients (seats_after comings no_seats) ≡ Joining.joined)
    × ((csock : ℕ) → Stuck csock no_seats)
    × ((csock : ℕ) → Missed csock no_seats)
stop_clients-joined_example = stop_clients-joined comings (omega arith)
