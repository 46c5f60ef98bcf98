-- ===== src/Server/Program.antt =====
-- src/main.c: the server's main function and its signal handler, around src/config.c and
-- src/tcp_server.c. The configuration is known here by the code that its loading returns.
use sdr_server.Prelude.{
  ◌≡◌, ◌≢◌, refl, sym, ap, subst, Bool, true, false, not, ◌&&◌, List, [], ◌∷◌, ◌++◌, if◌then◌else◌,
  arith,
}
use sdr_server.Prelude.Int.{ℤ, pos, negsuc, eqb_ℤ}
use sdr_server.Server.Start.{
  StartAnswers, StartResult, refused, running, start_tcp_server, start_tcp_server-Left, AllGranted,
  Posix, Left, Stopping, no_server, woken, closed, stop_tcp_server,
}

-- What main meets: its argument, the code of create_server_config, the answers to the start, and
-- whether a signal arrives between the start's return and the call that joins the acceptor.
pub record Launch : Type 0 where
  pub has_argument : Bool
  pub config_code : ℤ
  pub start : StartAnswers
  pub signal_before_join : Bool
  pub shutdown_code : ℤ

pub data ProgramEvent : Type 0 where
  loads_config stops_server joins_server destroys_config : ProgramEvent

-- The status with which the process exits, and what was done.
pub record Exit : Type 0 where
  pub success : Bool
  pub events : List ProgramEvent

abbrev stopping_events : Stopping → List ProgramEvent
stopping_events no_server = []
stopping_events woken = stops_server ∷ []
stopping_events closed = stops_server ∷ []

-- `sdrserver_stop_async`, by whether `server` is set: what is done, and `server` afterwards.
unfoldable pub sdrserver_stop_async : Bool → ℤ → List ProgramEvent × Bool
unfolding stop_tcp_server
sdrserver_stop_async has_server shutdown_code =
    (stopping_events (stop_tcp_server has_server shutdown_code), false)

-- `join_tcp_server_thread`
unfoldable pub join_tcp_server_thread : Bool → List ProgramEvent
join_tcp_server_thread has_server = if has_server then joins_server ∷ [] else []

-- What a signal does before the join, and whether `server` is still set.
abbrev before_join : Bool → ℤ → List ProgramEvent × Bool
before_join true shutdown_code = sdrserver_stop_async true shutdown_code
before_join false shutdown_code = ([], true)

-- From the start of the server on, by its result.
unfoldable pub serve : Launch → StartResult → Exit
unfolding sdrserver_stop_async join_tcp_server_thread
serve l (refused code left) = record {
  success = false;
  events = loads_config ∷ destroys_config ∷ [];
}
serve l (running held) =
    let signalled = before_join l.signal_before_join l.shutdown_code in
    record {
      success = true;
      events =
          loads_config ∷ signalled.0
          ++ (join_tcp_server_thread signalled.1 ++ (destroys_config ∷ []));
    }

unfoldable pub main : Launch → Exit
unfolding serve
main l =
    if not l.has_argument
    then record { success = false; events = [] }
    else if not (eqb_ℤ l.config_code (pos 0))
    then record { success = false; events = [] }
    else serve l (start_tcp_server l.start)

-- The program gets as far as to a running server.
abbrev pub Serving : Launch → Type 0
Serving l =
    (l.has_argument ≡ true)
    × (l.config_code ≡ pos 0)
    × AllGranted l.start
    × (l.start.opened ≢ pos 0)

abbrev pub Outcome : Launch → Exit → Type 0
Outcome l e =
    (e.success ≡ true
      → Serving l
        × (e.events ≡ (
            loads_config
            ∷ (if l.signal_before_join then stops_server else joins_server)
            ∷ destroys_config
            ∷ [])))
    × (e.success ≡ false
        → ¬ Serving l
          × (e.events ≡ (
              if l.has_argument && eqb_ℤ l.config_code (pos 0)
              then loads_config ∷ destroys_config ∷ []
              else [])))

stopping : (k : Bool) → stopping_events (if k then woken else closed) ≡ stops_server ∷ []
stopping true = refl
stopping false = refl

joined_or_not :
    (b : Bool) (code : ℤ)
    → (before_join b code).0
        ++ (join_tcp_server_thread (before_join b code).1 ++ (destroys_config ∷ []))
      ≡ (if b then stops_server else joins_server) ∷ destroys_config ∷ []
unfolding sdrserver_stop_async join_tcp_server_thread stop_tcp_server
joined_or_not true code = ap (λ es. es ++ (destroys_config ∷ [])) (stopping (eqb_ℤ code (pos 0)))
joined_or_not false code = refl

is_zero : (z : ℤ) → eqb_ℤ z (pos 0) ≡ true → z ≡ pos 0
is_zero (pos n) e = ap pos (ground arith)
is_zero (negsuc n) e = absurd (ground arith)

differs : {z : ℤ} → z ≡ pos 0 → eqb_ℤ z (pos 0) ≢ false
differs e h = subst (λ w. eqb_ℤ w (pos 0) ≢ false) (sym e) (λ k. cc) h

serve-Outcome :
    (l : Launch) (r : StartResult)
    → l.has_argument ≡ true
    → l.config_code ≡ pos 0
    → Left l.start r
    → Outcome l (serve l r)
unfolding serve
serve-Outcome l (refused code left) a c n =
    ((λ e. cc), (λ e. ((λ s. n.0 (s.2, s.3)), rw (a, c) refl)))
serve-Outcome l (running held) a c n = (
  (λ e. (
    (a, c, n.0.0, n.0.1),
    ap (λ es. loads_config ∷ es) (joined_or_not l.signal_before_join l.shutdown_code),
  )),
  (λ e. cc),
)

-- The program succeeds exactly if it has its argument, the configuration loads, every call of the
-- start succeeds and the socket's descriptor is not 0, if setsockopt fails on what is no
-- descriptor. A configuration that was loaded is destroyed once at the end. A running server
-- is joined before that, unless a signal falls between the start and the join: the handler then
-- clears the pointer that the join uses, and nothing is joined.
pub main-Outcome : (l : Launch) → Posix l.start → Outcome l (main l)
unfolding main
main-Outcome l posix = chosen l.has_argument (eqb_ℤ l.config_code (pos 0)) refl refl
  where
    chosen :
        (a c : Bool)
        → l.has_argument ≡ a
        → eqb_ℤ l.config_code (pos 0) ≡ c
        → Outcome l (
            if not a
            then record { success = false; events = [] }
            else if not c
            then record { success = false; events = [] }
            else serve l (start_tcp_server l.start))
    chosen false c p q = ((λ e. cc), (λ e. ((λ s. cc), rw p refl)))
    chosen true false p q = ((λ e. cc), (λ e. ((λ s. differs s.1 q), rw (p, q) refl)))
    chosen true true p q =
        serve-Outcome l _ p (is_zero l.config_code q) (start_tcp_server-Left l.start posix)
