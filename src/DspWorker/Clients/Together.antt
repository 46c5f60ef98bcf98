-- ===== src/DspWorker/Clients/Together.antt =====
-- Several clients of src/tcp_server.c: which of the device's buffers each one's thread deals with.
use sdr_server.Prelude.{
  ℕ, zero, suc, ◌≤◌, ◌≡◌, refl, ap, subst, Bool, true, false, List, [], ◌∷◌, if◌then◌else◌, length,
  All,
}
use sdr_server.Server.{ClientConfig}
use sdr_server.Queue.{Queue, ok}
use sdr_server.Queue.View.{Represents}
use sdr_server.DspWorker.{Filter}
use sdr_server.DspWorker.Thread.{begun, run_thread}
use sdr_server.DspWorker.Thread.Promise.{promise, starting}
use sdr_server.DspWorker.Thread.Refines.{Fits, Keeps}
use sdr_server.DspWorker.Thread.Losses.{arrivals, Accounts, run_thread-Accounts}
use sdr_server.DspWorker.Clients.{
  asks, returns, Happening, delivers, turns, ends, Client, run_clients,
}
use sdr_server.DspWorker.Clients.Seen.{seen, later, config_after}
use sdr_server.DspWorker.Clients.Isolated.{Isolated, run_clients-Isolated}

abbrev pub FitsAll : ℕ → Happening → Type 0
FitsAll size (delivers bytes) = length bytes ≤ size
FitsAll size (turns i t) = Unit {0}
FitsAll size (ends i) = Unit {0}

-- The buffers that the device delivers while the first client runs.
abbrev pub while_running : Bool → List Happening → List (List ℕ)
while_running running [] = []
while_running running (delivers bytes ∷ hs) =
    let rest = while_running running hs in if running then bytes ∷ rest else rest
while_running running (turns i t ∷ hs) = while_running running hs
while_running running (ends zero ∷ hs) = while_running false hs
while_running running (ends (suc i) ∷ hs) = while_running running hs

arrivals-seen :
    (running : Bool) (hs : List Happening) → arrivals (seen running hs) ≡ while_running running hs
arrivals-seen running [] = refl
arrivals-seen true (delivers bytes ∷ hs) = ap (λ bs. bytes ∷ bs) (arrivals-seen true hs)
arrivals-seen false (delivers bytes ∷ hs) = arrivals-seen false hs
arrivals-seen running (turns zero (asks a) ∷ hs) = arrivals-seen running hs
arrivals-seen running (turns zero returns ∷ hs) = arrivals-seen running hs
arrivals-seen running (turns (suc i) t ∷ hs) = arrivals-seen running hs
arrivals-seen running (ends zero ∷ hs) = arrivals-seen false hs
arrivals-seen running (ends (suc i) ∷ hs) = arrivals-seen running hs

seen-Fits :
    (size : ℕ) (running : Bool) (hs : List Happening)
    → All (FitsAll size) hs
    → All (Fits size) (seen running hs)
seen-Fits size running [] h = tt
seen-Fits size true (delivers bytes ∷ hs) h = (h.0, seen-Fits size true hs h.1)
seen-Fits size false (delivers bytes ∷ hs) h = seen-Fits size false hs h.1
seen-Fits size running (turns zero (asks a) ∷ hs) h = (tt, seen-Fits size running hs h.1)
seen-Fits size running (turns zero returns ∷ hs) h = (tt, seen-Fits size running hs h.1)
seen-Fits size running (turns (suc i) t ∷ hs) h = seen-Fits size running hs h.1
seen-Fits size running (ends zero ∷ hs) h = (tt, seen-Fits size false hs h.1)
seen-Fits size running (ends (suc i) ∷ hs) h = seen-Fits size running hs h.1

later-FitsAll :
    (size : ℕ) (hs : List Happening) → All (FitsAll size) hs → All (FitsAll size) (later hs)
later-FitsAll size [] h = tt
later-FitsAll size (delivers bytes ∷ hs) h = (h.0, later-FitsAll size hs h.1)
later-FitsAll size (turns zero t ∷ hs) h = later-FitsAll size hs h.1
later-FitsAll size (turns (suc i) t ∷ hs) h = (tt, later-FitsAll size hs h.1)
later-FitsAll size (ends zero ∷ hs) h = later-FitsAll size hs h.1
later-FitsAll size (ends (suc i) ∷ hs) h = (tt, later-FitsAll size hs h.1)

module _ (f : Filter) (size : ℕ) where
  -- A client whose worker has just started, with a queue of two buffers or more.
  pub record Fresh : Type 0 where
    pub config : ClientConfig
    pub queue : Queue
    pub count : ℕ
    pub state : f.State
    pub represents : Represents size count queue (starting count).view
    pub enough : 2 ≤ count

  abbrev pub client_of : Fresh → Client f
  client_of n = record { config = n.config; thread = begun f n.queue n.state }

  -- What became of a client: as if it were alone, it dealt with buffers that were delivered while it
  -- ran, in their order; of the others, each is waiting or was overwritten in its own full queue.
  pub record Own (hs : List Happening) (n : Fresh) (n' : Client f) : Type 0 where
    pub thread :
        run_thread f n.config (seen n.config.is_running hs) (begun f n.queue n.state) ≡ ok n'.thread
    pub config : n'.config ≡ config_after hs n.config
    pub keeps :
        Keeps f n.config size n.count n.state n'.thread
          (promise (seen n.config.is_running hs) (starting n.count))
    pub accounts :
        Accounts
          (while_running n.config.is_running hs)
          (promise (seen n.config.is_running hs) (starting n.count))

  abbrev pub Each : List Happening → List Fresh → List (Client f) → Type 0
  Each hs [] [] = Unit {0}
  Each hs [] (n' ∷ ns') = ⊥
  Each hs (n ∷ ns) [] = ⊥
  Each hs (n ∷ ns) (n' ∷ ns') = Own hs n n' × Each (later hs) ns ns'

  abbrev pub clients_of : List Fresh → List (Client f)
  clients_of [] = []
  clients_of (n ∷ ns) = client_of n ∷ clients_of ns

  own : (hs : List Happening) (n : Fresh) → All (FitsAll size) hs → (n' : Client f) × Own hs n n'
  own hs n fits =
      let (w, runs, k, a) =
        run_thread-Accounts f n.config size n.count n.queue n.state (seen n.config.is_running hs)
          n.represents n.enough (seen-Fits size n.config.is_running hs fits) in
      (
        record { config = config_after hs n.config; thread = w },
        record {
          thread = runs;
          config = refl;
          keeps = k;
          accounts =
              subst (λ bs. Accounts bs (promise (seen n.config.is_running hs) (starting n.count)))
                (arrivals-seen n.config.is_running hs) a;
        },
      )

  all_own :
      (hs : List Happening) (ns : List Fresh)
      → All (FitsAll size) hs
      → (ns' : List (Client f)) × Each hs ns ns'
  all_own hs [] fits = ([], tt)
  all_own hs (n ∷ ns) fits =
      let (n', o) = own hs n fits in
      let (ns', os) = all_own (later hs) ns (later-FitsAll size hs fits) in (n' ∷ ns', (o, os))

  Each-Isolated :
      (hs : List Happening) (ns : List Fresh) (ns' : List (Client f))
      → Each hs ns ns'
      → Isolated f hs (clients_of ns) ns'
  Each-Isolated hs [] [] h = tt
  Each-Isolated hs [] (n' ∷ ns') h = elim h [ ]
  Each-Isolated hs (n ∷ ns) [] h = elim h [ ]
  Each-Isolated hs (n ∷ ns) (n' ∷ ns') (o, os) =
      (record { thread = o.thread; config = o.config }, Each-Isolated (later hs) ns ns' os)

  -- Clients do not disturb each other: if their workers have just started, with queues of two
  -- buffers or more, and every buffer fits, then however the device's thread, the clients' threads
  -- and the ends of clients take turns, nothing faults, and each client's thread ends as if the
  -- client were alone. What it dealt with are buffers that were delivered while the client ran, in
  -- their order, and each of the others is waiting or was overwritten in the client's own queue.
  pub run_clients-Own :
      (hs : List Happening) (ns : List Fresh)
      → All (FitsAll size) hs
      → (ns' : List (Client f)) × (run_clients f hs (clients_of ns) ≡ ok ns') × Each hs ns ns'
  run_clients-Own hs ns fits =
      let (ns', os) = all_own hs ns fits in
      (ns', run_clients-Isolated f hs (clients_of ns) ns' (Each-Isolated hs ns ns' os), os)
