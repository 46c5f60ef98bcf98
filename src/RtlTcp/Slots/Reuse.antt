-- ===== src/RtlTcp/Slots/Reuse.antt =====
-- Histories of the table of clients of src/rtltcp_server.c, and the reuse of a slot.
use sdr_server.Prelude.{
  ℕ, zero, suc, ◌≡◌, refl, ap, Bool, true, Option, none, some, List, [], ◌∷◌, ◌++◌, length, map,
  All,
}
use sdr_server.RtlTcp.Slots.{
  Slot, empty, occupied, Send, failed, send_loop, serve, send_to, broadcast, store_sock, claim_slot,
  accept_client, client_exit, add_socket,
}

pub data Event : Type 0 where
  accepts : (csock : ℕ) (greeted : Bool) → Event
  exits : (slot : ℕ) → Event
  broadcasts : (bytes : List ℕ) (answers : ℕ → List Send) → Event

abbrev pub slots_after : List (List ℕ × Slot) → List Slot
slots_after = map (λ r. r.1)

abbrev pub or_unchanged : Option (List Slot) → List Slot → List Slot
or_unchanged none slots = slots
or_unchanged (some slots) old = slots

pub happens : Event → List Slot → List Slot
happens (accepts csock greeted) slots = or_unchanged (accept_client csock greeted slots) slots
happens (exits i) slots = client_exit i slots
happens (broadcasts bytes answers) slots = slots_after (broadcast bytes answers 0 slots)

pub run_events : List Event → List Slot → List Slot
run_events [] slots = slots
run_events (e ∷ es) slots = run_events es (happens e slots)

-- The sockets of the broadcast.
abbrev pub sockets : List Slot → List ℕ
sockets [] = []
sockets (slot ∷ slots) = add_socket slot.sock (sockets slots)

-- Both copies of each socket agree, in a table of a size.
pub record Mirrored (count : ℕ) (slots : List Slot) : Type 0 where
  pub size : length slots ≡ count
  pub copies : All (λ s. s.fd ≡ s.sock) slots

abbrev MirroredIfSome : ℕ → Option (List Slot) → Type 0
MirroredIfSome n none = Unit {0}
MirroredIfSome n (some slots) = Mirrored n slots

-- The first of the two stores of an event, to the i-th slot.
abbrev pub half_stored : ℕ → Option ℕ → List Slot → List Slot
half_stored i v [] = []
half_stored zero v (slot ∷ slots) = store_sock v slot ∷ slots
half_stored (suc i) v (slot ∷ slots) = slot ∷ half_stored i v slots

abbrev pub Taken : Slot → Type 0
Taken slot = (s : ℕ) × (slot.sock ≡ some s)

accept_client-first :
    (csock : ℕ) (before after : List Slot)
    → All Taken before
    → accept_client csock true (before ++ empty ∷ after) ≡ some (before ++ occupied csock ∷ after)
unfolding accept_client claim_slot
accept_client-first csock [] after t = refl
accept_client-first csock (slot ∷ before) after ((s, e), t) =
    rw (e, accept_client-first csock before after t)

client_exit-at :
    (slot : Slot) (before after : List Slot)
    → client_exit (length before) (before ++ slot ∷ after) ≡ before ++ empty ∷ after
unfolding client_exit
client_exit-at slot [] after = refl
client_exit-at slot (b ∷ before) after = ap (◌∷◌ b) (client_exit-at slot before after)

-- A send that fails empties the slot of a client whose command thread still runs. The next client
-- gets that slot, and the end of the old thread then empties it again: the new client, connected
-- and greeted, is in no slot, so no sample reaches it.
client_exit_evicts :
    (bytes : List ℕ) (b : ℕ) (old new : ℕ) (before after : List Slot)
    → All Taken before
    → ((serve (b ∷ bytes) (occupied old) (failed ∷ [])).1 ≡ empty)
      × (accept_client new true (before ++ empty ∷ after) ≡ some (before ++ occupied new ∷ after))
      × (client_exit (length before) (before ++ occupied new ∷ after) ≡ before ++ empty ∷ after)
unfolding serve send_to send_loop
client_exit_evicts bytes b old new before after t =
    (refl, accept_client-first new before after t, client_exit-at (occupied new) before after)
