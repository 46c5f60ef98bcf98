-- ===== src/RtlTcp/Joining/Joins.antt =====
-- src/rtltcp_server.c: when the joins at the end of main return.
use sdr_server.Prelude.{
  ℕ, zero, suc, ◌≡◌, refl, sym, subst, ◌∙◌, Bool, true, false, Option, none, some, List, [], ◌∷◌,
  map, any, ◌==◌, if◌then◌else◌, All, arith, eqb_refl, Bool-cases, inl, inr,
}
use sdr_server.RtlTcp.Slots.{Slot, empty, shut_down, add_socket}
use sdr_server.RtlTcp.Joining.{
  Command, Seat, Event, accepts, exits, fails, seat_client, accept_seat, leaves, thread_exit,
  send_fails, seats_after, no_seats, Joining, joined, waits_for, ends, join_thread, join_clients,
  stop_clients,
}

-- A thread that runs has its socket in its slot, where the signal handler sees it.
abbrev Seen : Option Command → Slot → Type 0
Seen none slot = Unit {0}
Seen (some t) slot = t.running ≡ true → slot.fd ≡ some t.sock

abbrev Settled : Seat → Type 0
Settled seat = Seen seat.tid seat.slot

-- No send fails.
abbrev pub Sends : Event → Type 0
Sends (accepts csock) = Unit {0}
Sends (exits i) = Unit {0}
Sends (fails i) = ⊥

accept_seat-Settled :
    (csock : ℕ) (seats : List Seat) → All Settled seats → All Settled (accept_seat csock seats)
unfolding accept_seat
accept_seat-Settled csock [] h = tt
accept_seat-Settled csock (seat ∷ seats) h =
    chosen seat.slot.sock (accept_seat-Settled csock seats h.1)
  where
    chosen :
        (o : Option ℕ)
        → All Settled (accept_seat csock seats)
        → All Settled (seat_client csock o seat (accept_seat csock seats) seats)
    chosen none later = ((λ r. refl), h.1)
    chosen (some s) later = (h.0, later)

leaves-Settled : (o : Option Command) (seat : Seat) → Settled seat → Settled (leaves o seat)
unfolding leaves
leaves-Settled none seat h = h
leaves-Settled (some t) seat h = chosen t.running
  where
    chosen :
        (b : Bool)
        → Settled
            (if b then record { slot = empty; tid = some (record t { running = false }) } else seat)
    chosen true = λ r. cc
    chosen false = h

thread_exit-Settled :
    (i : ℕ) (seats : List Seat) → All Settled seats → All Settled (thread_exit i seats)
unfolding thread_exit
thread_exit-Settled i [] h = tt
thread_exit-Settled zero (seat ∷ seats) h = (leaves-Settled seat.tid seat h.0, h.1)
thread_exit-Settled (suc i) (seat ∷ seats) h = (h.0, thread_exit-Settled i seats h.1)

seats_after-Settled :
    (es : List Event) (seats : List Seat)
    → All Sends es
    → All Settled seats
    → All Settled (seats_after es seats)
unfolding seats_after
seats_after-Settled [] seats h s = s
seats_after-Settled (accepts csock ∷ es) seats h s =
    seats_after-Settled es (accept_seat csock seats) h.1 (accept_seat-Settled csock seats s)
seats_after-Settled (exits i ∷ es) seats h s =
    seats_after-Settled es (thread_exit i seats) h.1 (thread_exit-Settled i seats s)
seats_after-Settled (fails i ∷ es) seats h s = absurd h.0

abbrev Listed : List ℕ → ℕ → Type 0
Listed sockets s = any (λ x. x == s) sockets ≡ true

-- Each slot's socket is among those that are shut down.
abbrev Shut : List ℕ → Seat → Type 0
Shut sockets seat = (s : ℕ) → seat.slot.fd ≡ some s → Listed sockets s

Shut-add :
    (o : Option ℕ) (sockets : List ℕ) (seats : List Seat)
    → All (Shut sockets) seats
    → All (Shut (add_socket o sockets)) seats
Shut-add none sockets seats h = h
Shut-add (some x) sockets [] h = tt
Shut-add (some x) sockets (seat ∷ seats) h =
    ((λ s e. ground (arith, h.0 s e)), Shut-add (some x) sockets seats h.1)

injective : {x y : ℕ} → some x ≡ some y → x ≡ y
injective e = cc

shut_down-Shut : (seats : List Seat) → All (Shut (shut_down (map (λ x. x.slot) seats))) seats
unfolding shut_down
shut_down-Shut [] = tt
shut_down-Shut (seat ∷ seats) =
    (first seat.slot.fd refl, Shut-add seat.slot.fd _ seats (shut_down-Shut seats))
  where
    first :
        (o : Option ℕ)
        → seat.slot.fd ≡ o
        → (s : ℕ) → seat.slot.fd ≡ some s
        → Listed (add_socket o (shut_down (map (λ x. x.slot) seats))) s
    first none e s f = cc
    first (some x) e s f =
        let same : x ≡ s = injective (sym e ∙ f) in
        subst (λ y. any (λ z. z == s) (y ∷ shut_down (map (λ t. t.slot) seats)) ≡ true) (sym same)
          (rw (eqb_refl s) refl)

thread-joined :
    (sockets : List ℕ) (o : Option Command) (slot : Slot) (rest : Joining)
    → Seen o slot
    → ((s : ℕ) → slot.fd ≡ some s → Listed sockets s)
    → rest ≡ joined
    → join_thread sockets o rest ≡ joined
unfolding join_thread ends
thread-joined sockets none slot rest v h e = e
thread-joined sockets (some t) slot rest v h e = elim (Bool-cases t.running) [
  | inl r ↦ rw (r, h t.sock (v r), e) refl
  | inr r ↦ rw (r, e) refl
]

clients-joined :
    (sockets : List ℕ) (seats : List Seat)
    → All Settled seats
    → All (Shut sockets) seats
    → join_clients sockets seats ≡ joined
unfolding join_clients
clients-joined sockets [] v h = refl
clients-joined sockets (seat ∷ seats) v h =
    thread-joined sockets seat.tid seat.slot (join_clients sockets seats) v.0 h.0
      (clients-joined sockets seats v.1 h.1)

-- A send to the client of the first slot has failed, and its thread is in recv.
abbrev pub Stuck : ℕ → List Seat → Type 0
Stuck csock seats = stop_clients (send_fails 0 (accept_seat csock seats)) ≡ waits_for csock

-- The signal finds the table as it is, while a client has been accepted but not entered.
abbrev pub Missed : ℕ → List Seat → Type 0
Missed csock seats =
    join_clients (shut_down (map (λ seat. seat.slot) seats)) (accept_seat csock seats)
    ≡ waits_for csock

-- After any history of clients that come and go with no send failing, every join of a client's
-- thread returns once a signal has come while main waits for a connection. But a client that came
-- first and whose send has failed leaves its slot empty: the signal does not reach its thread, and
-- main waits for it. It waits as well for a client that came first and was accepted, but not
-- entered, when the signal came.
pub stop_clients-joined :
    (es : List Event)
    → All Sends es
    → (stop_clients (seats_after es no_seats) ≡ joined)
      × ((csock : ℕ) → Stuck csock no_seats)
      × ((csock : ℕ) → Missed csock no_seats)
unfolding stop_clients seats_after accept_seat send_fails shut_down join_clients
stop_clients-joined es h = (
  clients-joined _ (seats_after es no_seats)
      (seats_after-Settled es no_seats h (tt, (tt, (tt, (tt, tt)))))
      (shut_down-Shut (seats_after es no_seats)),
  (λ csock. refl),
  (λ csock. refl),
)
