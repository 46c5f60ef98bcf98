-- ===== src/RtlTcp/Joining.antt =====
-- src/rtltcp_server.c: the clients' command threads, from the acceptor's pthread_create to the joins
-- at the end of main. Here a slot keeps the thread whose id it holds.
pub mod Joins
use sdr_server.Prelude.{
  ℕ, zero, suc, Bool, true, false, Option, none, some, List, [], ◌∷◌, ◌++◌, map, any, ◌==◌,
  if◌then◌else◌,
}
use sdr_server.RtlTcp.Slots.{Slot, empty, occupied, shut_down}

-- A command thread: the socket in its argument, and whether it has not ended.
pub record Command : Type 0 where
  pub sock : ℕ
  pub running : Bool

-- A slot with the thread of `g_clients[i].tid`, if that is not 0.
pub record Seat : Type 0 where
  pub slot : Slot
  pub tid : Option Command

-- What changes the table before the signal: a greeted client gets the first empty slot and a thread,
-- the thread of a slot ends, or a send to the client of a slot fails.
pub data Event : Type 0 where
  accepts exits fails : ℕ → Event

seat_client : ℕ → Option ℕ → Seat → List Seat → List Seat → List Seat
seat_client csock none seat later seats =
    record { slot = occupied csock; tid = some (record { sock = csock; running = true }) } ∷ seats
seat_client csock (some s) seat later seats = seat ∷ later

-- With all the slots taken the client is turned away.
unfoldable pub accept_seat : ℕ → List Seat → List Seat
unfolding seat_client
accept_seat csock [] = []
accept_seat csock (seat ∷ seats) =
    seat_client csock seat.slot.sock seat (accept_seat csock seats) seats

leaves : Option Command → Seat → Seat
leaves none seat = seat
leaves (some t) seat =
    if t.running then record { slot = empty; tid = some (record t { running = false }) } else seat

-- The end of `client_cmd_thread`.
unfoldable pub thread_exit : ℕ → List Seat → List Seat
unfolding leaves
thread_exit i [] = []
thread_exit zero (seat ∷ seats) = leaves seat.tid seat ∷ seats
thread_exit (suc i) (seat ∷ seats) = seat ∷ thread_exit i seats

-- `msisdr_callback` empties the slot and leaves the thread alone.
unfoldable pub send_fails : ℕ → List Seat → List Seat
send_fails i [] = []
send_fails zero (seat ∷ seats) = record seat { slot = empty } ∷ seats
send_fails (suc i) (seat ∷ seats) = seat ∷ send_fails i seats

unfoldable pub seats_after : List Event → List Seat → List Seat
unfolding accept_seat thread_exit send_fails
seats_after [] seats = seats
seats_after (accepts csock ∷ es) seats = seats_after es (accept_seat csock seats)
seats_after (exits i ∷ es) seats = seats_after es (thread_exit i seats)
seats_after (fails i ∷ es) seats = seats_after es (send_fails i seats)

abbrev pub no_seats : List Seat
no_seats =
    record { slot = empty; tid = none }
    ∷ record { slot = empty; tid = none }
    ∷ record { slot = empty; tid = none }
    ∷ record { slot = empty; tid = none }
    ∷ []

-- The joins of main: all return, or one waits for a thread that is in recv on this socket.
pub data Joining : Type 0 where
  joined : Joining
  waits_for : ℕ → Joining

-- A thread ends by itself if its socket has been shut down.
ends : List ℕ → Command → Bool
ends sockets t = if t.running then any (λ s. s == t.sock) sockets else true

join_thread : List ℕ → Option Command → Joining → Joining
join_thread sockets none rest = rest
join_thread sockets (some t) rest = if ends sockets t then rest else waits_for t.sock

-- The loop over the slots, behind a signal that has shut these sockets down.
unfoldable pub join_clients : List ℕ → List Seat → Joining
unfolding join_thread ends
join_clients sockets [] = joined
join_clients sockets (seat ∷ seats) = join_thread sockets seat.tid (join_clients sockets seats)

-- The signal and then the joins.
unfoldable pub stop_clients : List Seat → Joining
unfolding join_clients
stop_clients seats = join_clients (shut_down (map (λ seat. seat.slot) seats)) seats
