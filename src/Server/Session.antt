-- ===== src/Server/Session.antt =====
-- src/tcp_server.c: the loop of `tcp_worker`, which reads what a listed client still sends.
use sdr_server.Prelude.{
  ℕ, zero, suc, ◌+◌, ◌≤◌, ◌<◌, ◌≡◌, ◌≢◌, refl, ap, ◌∙◌, Bool, true, false, ◌&&◌, Option, none, some,
  List, [], ◌∷◌, ◌++◌, ◌==◌, if◌then◌else◌, arith, length, take, drop, replicate, All, Bool-cases,
  inl, inr,
}
use sdr_server.Wire.{
  MessageHeader, decode_header, encode_header, header_size, type_shutdown, protocol_version,
}
use sdr_server.Socket.{Recv, chunk, would_block, Read, done, timed_out, lost, read_struct}
use sdr_server.Socket.Reading.{payload}
use sdr_server.Socket.Waiting.{IsPatient, timeouts, Turn, waited, filled, read_struct-Turn}
use sdr_server.Socket.Consumption.{stream_size, read_struct-smaller}

-- Why the loop ends.
pub data Leaving : Type 0 where
  disconnected requested : Leaving

abbrev pub is_shutdown : Option MessageHeader → Bool
is_shutdown none = false
is_shutdown (some h) = h.protocol_version == protocol_version && h.type == type_shutdown

-- One round, by what was read: the loop ends, or goes on to `again`.
abbrev pub after_read : Read → (again : Option Leaving) → Option Leaving
after_read timed_out again = again
after_read lost again = some disconnected
after_read (done bytes) again = if is_shutdown (decode_header bytes) then some requested else again

-- The loop by the number of its rounds. Nothing else clears `is_running` while it runs.
unfoldable pub tcp_worker_loop : (rounds : ℕ) → List Recv → Option Leaving
tcp_worker_loop zero s = none
tcp_worker_loop (suc k) s =
    after_read (read_struct header_size [] s).0 (tcp_worker_loop k (read_struct header_size [] s).1)

round_ends :
    (r : Read) (again : Option Leaving)
    → (r ≢ lost → (l : Leaving) × (again ≡ some l))
    → (l : Leaving) × (after_read r again ≡ some l)
round_ends lost again f = (disconnected, refl)
round_ends timed_out again f = f (λ e. cc)
round_ends (done bytes) again f = elim (Bool-cases (is_shutdown (decode_header bytes))) [
  | inl t ↦ (requested, rw t)
  | inr t ↦ let (l, e) = f (λ g. cc) in (l, rw t e)
]

loop_ends :
    (k : ℕ) (s : List Recv) → stream_size s < k → (l : Leaving) × (tcp_worker_loop k s ≡ some l)
unfolding tcp_worker_loop
loop_ends zero s h = absurd (omega arith)
loop_ends (suc k) s h =
    round_ends (read_struct header_size [] s).0 (tcp_worker_loop k (read_struct header_size [] s).1)
      (λ f.
        loop_ends k (read_struct header_size [] s).1 (omega (arith, read_struct-smaller 1 [] s f)))

silent_rounds :
    (n k : ℕ) (s : List Recv)
    → tcp_worker_loop (n + k) (replicate n would_block ++ s) ≡ tcp_worker_loop k s
unfolding tcp_worker_loop read_struct
silent_rounds zero k s = ap (λ m. tcp_worker_loop m s) {x = 0 + k} (omega arith)
silent_rounds (suc n) k s =
    ap (λ m. tcp_worker_loop m (would_block ∷ (replicate n would_block ++ s))) {x = suc n + k}
      {y = suc (n + k)} (omega arith)
    ∙ silent_rounds n k s

-- When a client's connection ends, after any finite history of bytes, signals and read timeouts,
-- its thread leaves the loop: more rounds than there are outcomes of recv and bytes in them are
-- enough. A client that stays connected is not dropped for its silence: however many timeouts come
-- first, one round is spent on each, and the loop goes on with what comes then.
pub tcp_worker_loop_ends :
    (k : ℕ) (s : List Recv)
    → stream_size s < k
    → ((l : Leaving) × (tcp_worker_loop k s ≡ some l))
      × ((n : ℕ) → tcp_worker_loop (n + k) (replicate n would_block ++ s) ≡ tcp_worker_loop k s)
tcp_worker_loop_ends k s h = (loop_ends k s h, λ n. silent_rounds n k s)

abbrev pub headers : List MessageHeader → List ℕ
headers [] = []
headers (h ∷ hs) = h.protocol_version ∷ h.type ∷ headers hs

abbrev pub Ignored : MessageHeader → Type 0
Ignored h = is_shutdown (some h) ≡ false

-- One round, by what its read finds; `later` is what the rounds behind it do.
requested_round :
    (k : ℕ) (hs : List MessageHeader) (h : MessageHeader) (rest : List ℕ) (s : List Recv)
    → All Ignored hs
    → is_shutdown (some h) ≡ true
    → payload s ≡ headers hs ++ (encode_header h ++ rest)
    → length hs + timeouts s < suc k
    → Turn 2 [] s (read_struct header_size [] s)
    → (later : (hs' : List MessageHeader)
        → All Ignored hs'
        → IsPatient 0 (read_struct header_size [] s).1
        → payload (read_struct header_size [] s).1 ≡ headers hs' ++ (encode_header h ++ rest)
        → length hs' + timeouts (read_struct header_size [] s).1 < k
        → tcp_worker_loop k (read_struct header_size [] s).1 ≡ some requested)
    → after_read
        (read_struct header_size [] s).0
        (tcp_worker_loop k (read_struct header_size [] s).1)
      ≡ some requested
unfolding encode_header decode_header
requested_round k hs h rest s a t e l (waited f g d m) later =
    ap (λ r. after_read r (tcp_worker_loop k (read_struct header_size [] s).1)) f
    ∙ later hs a d (g ∙ e) (omega (arith, m, l))
requested_round k [] h rest s a t e l (filled f g d m) later =
    ap (λ r. after_read r (tcp_worker_loop k (read_struct header_size [] s).1))
      (f ∙ ap (λ x. done (take header_size x)) e)
    ∙ rw t
requested_round k (i ∷ hs) h rest s a t e l (filled f g d m) later =
    ap (λ r. after_read r (tcp_worker_loop k (read_struct header_size [] s).1))
      (f ∙ ap (λ x. done (take header_size x)) e)
    ∙ rw a.0 (later hs a.1 d (g ∙ ap (drop header_size) e) (omega (arith, m, l)))

-- However its bytes are cut up, a client's shutdown message ends the loop, whatever other messages
-- come before it and however long the client is silent between messages, if no read timeout comes
-- inside a message and there is no error: one round for each message and each timeout is enough.
pub tcp_worker_loop-requested :
    (k : ℕ) (hs : List MessageHeader) (h : MessageHeader) (rest : List ℕ) (s : List Recv)
    → All Ignored hs
    → is_shutdown (some h) ≡ true
    → IsPatient 0 s
    → payload s ≡ headers hs ++ (encode_header h ++ rest)
    → length hs + timeouts s < k
    → tcp_worker_loop k s ≡ some requested
unfolding tcp_worker_loop encode_header decode_header
tcp_worker_loop-requested zero hs h rest s a t p e l = absurd (omega arith)
tcp_worker_loop-requested (suc k) hs h rest s a t p e l =
    requested_round k hs h rest s a t e l
      (read_struct-Turn s p (omega (arith, ap length e, more hs)))
      (λ hs' a' p' e' l'.
        tcp_worker_loop-requested k hs' h rest (read_struct header_size [] s).1 a' t p' e' l')
  where
    more : (hs : List MessageHeader) → 2 ≤ length (headers hs ++ (encode_header h ++ rest))
    more [] = omega arith
    more (i ∷ hs) = omega arith

-- A byte that arrives alone before the read timeout is lost to the loop.
pub tcp_worker_loop-would_block :
    (k b : ℕ) (s : List Recv)
    → tcp_worker_loop (suc k) (chunk (b ∷ []) ∷ would_block ∷ s) ≡ tcp_worker_loop k s
unfolding tcp_worker_loop read_struct
tcp_worker_loop-would_block k b s = refl
