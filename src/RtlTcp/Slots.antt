-- ===== src/RtlTcp/Slots.antt =====
-- The clients of src/rtltcp_server.c: a table of slots that the acceptor fills, that a client's
-- command thread empties when it ends, and that `msisdr_callback` empties when a send fails.
pub mod Broadcast
pub mod Reuse
use sdr_server.Prelude.{
  ℕ, zero, suc, ◌+◌, Bool, true, false, Option, none, some, List, [], ◌∷◌, ◌++◌, length, take, drop,
  if◌then◌else◌, replicate,
}

-- `g_clients[i].sock`, and the copy in `g_client_fds[i]` that the signal handler reads. The
-- number -1 is `none`.
pub record Slot : Type 0 where
  pub sock : Option ℕ
  pub fd : Option ℕ

abbrev pub empty : Slot
empty = record { sock = none; fd = none }

abbrev pub occupied : ℕ → Slot
occupied s = record { sock = some s; fd = some s }

-- The two stores of an entry, `g_clients[i].sock` first.
abbrev pub store_sock : Option ℕ → Slot → Slot
store_sock s slot = record slot { sock = s }

abbrev pub store_fd : Option ℕ → Slot → Slot
store_fd s slot = record slot { fd = s }

abbrev pub max_clients : ℕ
max_clients = 4

unfoldable pub no_clients : List Slot
no_clients = empty ∷ empty ∷ empty ∷ empty ∷ []

-- What one `send` does: it takes a number of bytes, would block, or fails.
pub data Send : Type 0 where
  took : ℕ → Send
  would_block failed : Send

-- The loop around `send` for one client: the bytes that are sent, and whether it keeps its slot.
-- Where the outcomes run out, the next one would block.
unfoldable pub send_loop : List ℕ → List Send → List ℕ × Bool
send_loop [] xs = ([], true)
send_loop (b ∷ bs) [] = ([], true)
send_loop (b ∷ bs) (would_block ∷ xs) = ([], true)
send_loop (b ∷ bs) (failed ∷ xs) = ([], false)
send_loop (b ∷ bs) (took zero ∷ xs) = ([], false)
send_loop (b ∷ bs) (took (suc k) ∷ xs) =
    let (out, kept) = send_loop (drop k bs) xs in (b ∷ take k bs ++ out, kept)

send_to : List ℕ → Option ℕ → Slot → List Send → List ℕ × Slot
send_to data_left none slot xs = ([], slot)
send_to data_left (some s) slot xs =
    let (out, kept) = send_loop data_left xs in
    (out, if kept then slot else store_fd none (store_sock none slot))

-- One client of the broadcast: the bytes for its socket, and its slot after it.
unfoldable pub serve : List ℕ → Slot → List Send → List ℕ × Slot
unfolding send_to
serve bytes slot xs = send_to bytes slot.sock slot xs

-- The broadcast: `answers i` is what the sends to slot `i` do.
unfoldable pub broadcast : List ℕ → (ℕ → List Send) → (i : ℕ) → List Slot → List (List ℕ × Slot)
broadcast bytes answers i [] = []
broadcast bytes answers i (slot ∷ slots) =
    serve bytes slot (answers i) ∷ broadcast bytes answers (suc i) slots

-- The acceptor's search for an empty slot, and the entry of the socket if its greeting went out.
claim_slot : ℕ → Bool → Option ℕ → Slot → Option (List Slot) → List Slot → Option (List Slot)
claim_slot csock greeted none slot later rest =
    some ((if greeted then store_fd (some csock) (store_sock (some csock) slot) else slot) ∷ rest)
claim_slot csock greeted (some s) slot none rest = none
claim_slot csock greeted (some s) slot (some slots) rest = some (slot ∷ slots)

-- `none` where all the slots are taken and the socket is closed.
unfoldable pub accept_client : (csock : ℕ) (greeted : Bool) → List Slot → Option (List Slot)
unfolding claim_slot
accept_client csock greeted [] = none
accept_client csock greeted (slot ∷ slots) =
    claim_slot csock greeted slot.sock slot (accept_client csock greeted slots) slots

-- The end of `client_cmd_thread`: its slot is emptied, whatever is in it.
unfoldable pub client_exit : ℕ → List Slot → List Slot
client_exit i [] = []
client_exit zero (slot ∷ slots) = store_fd none (store_sock none slot) ∷ slots
client_exit (suc i) (slot ∷ slots) = slot ∷ client_exit i slots

abbrev pub add_socket : Option ℕ → List ℕ → List ℕ
add_socket none ss = ss
add_socket (some s) ss = s ∷ ss

-- The sockets that the signal handler shuts down.
unfoldable pub shut_down : List Slot → List ℕ
shut_down [] = []
shut_down (slot ∷ slots) = add_socket slot.fd (shut_down slots)
