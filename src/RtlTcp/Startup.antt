-- ===== src/RtlTcp/Startup.antt =====
-- src/rtltcp_server.c, main: the listening socket and the device, and what is left when one of them
-- is refused.
use sdr_server.Prelude.{◌≡◌, Bool, true, false, not, List, [], ◌∷◌, if◌then◌else◌, arith}
use sdr_server.Prelude.Int.{ℤ, pos, ltb_ℤ}

pub data Resource : Type 0 where
  log listening_socket device : Resource

-- What the calls answer: the descriptor of socket, and whether the device opens within the attempts.
pub record StartupAnswers : Type 0 where
  pub opened : ℤ
  pub binds : Bool
  pub listens : Bool
  pub device_opens : Bool

-- `lsock_seen`: whether the signal handler has the listening socket. A refusal makes main return 1.
pub record Startup : Type 0 where
  pub refused : Bool
  pub held : List Resource
  pub lsock_seen : Bool

unfoldable pub open_device : StartupAnswers → Startup
open_device a =
    if not a.device_opens
    then record { refused = true; held = log ∷ []; lsock_seen = true }
    else record { refused = false; held = device ∷ listening_socket ∷ log ∷ []; lsock_seen = true }

-- The options of the socket are set without a test.
unfoldable pub start_up : StartupAnswers → Startup
unfolding open_device
start_up a =
    if ltb_ℤ a.opened (pos 0)
    then record { refused = true; held = log ∷ []; lsock_seen = false }
    else if not a.binds
    then record { refused = true; held = listening_socket ∷ log ∷ []; lsock_seen = false }
    else if not a.listens
    then record { refused = true; held = listening_socket ∷ log ∷ []; lsock_seen = false }
    else open_device a

abbrev holds_socket : List Resource → Bool
holds_socket [] = false
holds_socket (log ∷ rs) = holds_socket rs
holds_socket (listening_socket ∷ rs) = true
holds_socket (device ∷ rs) = holds_socket rs

-- A start that goes on holds the socket, and the handler can close it. One that is refused keeps the
-- socket only if bind or listen has failed; if the device is missing, the handler is left with the
-- number of the closed socket.
start_up-lsock :
    (a : StartupAnswers)
    → ((start_up a).refused ≡ false
        → (holds_socket (start_up a).held ≡ true) × ((start_up a).lsock_seen ≡ true))
      × ((start_up a).refused ≡ true
          → (start_up a).lsock_seen ≡ true
          → (a.device_opens ≡ false) × (holds_socket (start_up a).held ≡ false))
unfolding start_up open_device
start_up-lsock a = ground arith
