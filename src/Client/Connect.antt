-- ===== src/Client/Connect.antt =====
-- src/client/tcp_client.c, create_client and destroy_client: what a connection holds.
use sdr_server.Prelude.{◌≡◌, Bool, true, false, not, List, [], ◌∷◌, ◌++◌, if◌then◌else◌, arith}
use sdr_server.Prelude.Int.{ℤ, pos, negsuc, eqb_ℤ}

pub data ClientEvent : Type 0 where
  allocates frees opens_socket closes_socket connects : ClientEvent

-- What malloc, socket and connect answer.
pub record ConnectAnswers : Type 0 where
  pub gives_struct : Bool
  pub client_socket : ℤ
  pub connect_code : ℤ

pub data Connection : Type 0 where
  connected : List ClientEvent → Connection
  refused : ℤ → List ClientEvent → Connection

unfoldable pub create_client : ConnectAnswers → Connection
create_client a =
    if not a.gives_struct
    then refused (negsuc 11) []
    else if eqb_ℤ a.client_socket (negsuc 0)
    then refused (negsuc 0) (allocates ∷ frees ∷ [])
    else if not (eqb_ℤ a.connect_code (pos 0))
    then refused (negsuc 0) (allocates ∷ opens_socket ∷ frees ∷ [])
    else connected (allocates ∷ opens_socket ∷ connects ∷ [])

unfoldable pub destroy_client : Bool → List ClientEvent
destroy_client has_client = if has_client then closes_socket ∷ frees ∷ [] else []

-- Whether the structure and the socket are held behind these events.
record Held : Type 0 where
  struct : Bool
  socket : Bool

abbrev after : Held → List ClientEvent → Held
after h [] = h
after h (allocates ∷ es) = after (record h { struct = true }) es
after h (frees ∷ es) = after (record h { struct = false }) es
after h (opens_socket ∷ es) = after (record h { socket = true }) es
after h (closes_socket ∷ es) = after (record h { socket = false }) es
after h (connects ∷ es) = after h es

abbrev nothing : Held
nothing = record { struct = false; socket = false }

-- A refusal holds no structure, but the socket if connect has failed.
abbrev Leaves : ConnectAnswers → Connection → Type 0
Leaves a (connected es) = after nothing (es ++ destroy_client true) ≡ nothing
Leaves a (refused code es) = after nothing es ≡ (record {
  struct = false;
  socket = if not a.gives_struct then false else not (eqb_ℤ a.client_socket (negsuc 0));
})

-- destroy_client releases what create_client holds; a connection that is refused holds its socket
-- still.
create_client-Leaves : (a : ConnectAnswers) → Leaves a (create_client a)
unfolding create_client destroy_client
create_client-Leaves a = ground arith
