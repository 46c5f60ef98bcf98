-- ===== src/Server/Start.antt =====
-- src/tcp_server.c, start_tcp_server and stop_tcp_server: what a start
-- acquires, in its order, and what is left of it when the start is refused.
use sdr_server.Prelude.{
  ◌≡◌, ◌≢◌, Bool, true, false, not, List, [], ◌∷◌, if◌then◌else◌, keep, arith, ◌&&◌,
}
use sdr_server.Prelude.Int.{ℤ, pos, negsuc, eqb_ℤ}

pub data Resource : Type 0 where
  server_struct device server_socket acceptor_thread : Resource

-- What the calls answer; `opened` is the descriptor that socket returns, -1 included.
pub record StartAnswers : Type 0 where
  pub gives_struct : Bool
  pub device_code : ℤ
  pub opened : ℤ
  pub reuses_address : Bool
  pub reuses_port : Bool
  pub address_valid : Bool
  pub binds : Bool
  pub listens : Bool
  pub thread_code : ℤ

-- The code of a refusal with what is still held after it, or a running server with what it holds.
pub data StartResult : Type 0 where
  refused : ℤ → List Resource → StartResult
  running : List Resource → StartResult

abbrev pub is_struct : Resource → Bool
is_struct server_struct = true
is_struct device = false
is_struct server_socket = false
is_struct acceptor_thread = false

-- A descriptor is not negative.
abbrev pub is_descriptor : ℤ → Bool
is_descriptor (pos n) = true
is_descriptor (negsuc n) = false

abbrev pub held : StartAnswers → List Resource
held a =
    if is_descriptor a.opened
    then server_socket ∷ device ∷ server_struct ∷ []
    else device ∷ server_struct ∷ []

-- `free(result)`
abbrev pub free_struct : List Resource → List Resource
free_struct = keep (λ r. not (is_struct r))

-- From the options of the socket on.
unfoldable pub listen_and_accept : StartAnswers → StartResult
listen_and_accept a =
    if not a.reuses_address
    then refused (negsuc 0) (free_struct (held a))
    else if not a.reuses_port
    then refused (negsuc 0) (free_struct (held a))
    else if not a.address_valid
    then refused (negsuc 0) (free_struct (held a))
    else if not a.binds
    then refused (negsuc 0) (free_struct (held a))
    else if not a.listens
    then refused (negsuc 0) (free_struct (held a))
    else if not (eqb_ℤ a.thread_code (pos 0))
    then refused (negsuc 0) (free_struct (held a))
    else running (acceptor_thread ∷ held a)

-- Only the descriptor 0 is taken for an error of socket.
unfoldable pub start_tcp_server : StartAnswers → StartResult
unfolding listen_and_accept
start_tcp_server a =
    if not a.gives_struct
    then refused (negsuc 11) []
    else if not (eqb_ℤ a.device_code (pos 0))
    then refused (negsuc 0) (free_struct (server_struct ∷ []))
    else if eqb_ℤ a.opened (pos 0)
    then refused (negsuc 0) (free_struct (held a))
    else listen_and_accept a

-- `stop_tcp_server`: whether the socket is closed after `shutdown`, which wakes accept.
pub data Stopping : Type 0 where
  no_server : Stopping
  woken closed : Stopping

unfoldable pub stop_tcp_server : (has_server : Bool) → (shutdown_code : ℤ) → Stopping
stop_tcp_server has_server shutdown_code =
    if has_server then (if eqb_ℤ shutdown_code (pos 0) then woken else closed) else no_server

-- Every call of the start succeeds: socket returns a descriptor, and not -1.
abbrev pub AllGranted : StartAnswers → Type 0
AllGranted a =
    (a.gives_struct ≡ true)
    × (a.device_code ≡ pos 0)
    × (is_descriptor a.opened ≡ true)
    × (a.reuses_address ≡ true)
    × (a.reuses_port ≡ true)
    × (a.address_valid ≡ true)
    × (a.binds ≡ true)
    × (a.listens ≡ true)
    × (a.thread_code ≡ pos 0)

-- setsockopt fails on what is no descriptor.
abbrev pub Posix : StartAnswers → Type 0
Posix a = is_descriptor a.opened ≡ false → a.reuses_address ≡ false

abbrev pub Left : StartAnswers → StartResult → Type 0
Left a (refused code left) =
    ¬ (AllGranted a × (a.opened ≢ pos 0))
    × (left ≡ (
        if a.gives_struct && eqb_ℤ a.device_code (pos 0)
        then if is_descriptor a.opened then server_socket ∷ device ∷ [] else device ∷ []
        else []))
Left a (running left) =
    (AllGranted a × (a.opened ≢ pos 0))
    × (left ≡ acceptor_thread ∷ server_socket ∷ device ∷ server_struct ∷ [])

-- A start runs exactly if every call succeeds and the socket's descriptor is not 0, if setsockopt
-- fails on what is no descriptor; it then holds all it acquired. One that is refused frees its
-- structure and nothing else: a device that was created is not destroyed, and a socket that was
-- opened is not closed.
pub start_tcp_server-Left : (a : StartAnswers) → Posix a → Left a (start_tcp_server a)
unfolding start_tcp_server listen_and_accept
start_tcp_server-Left a posix = ground arith
