-- ===== src/DspWorker/Clients/Isolated.antt =====
-- Several clients of src/tcp_server.c: each is served as if it were alone.
use mathlib.Core.Path.{fun_ext}
use sdr_server.Prelude.{
  subst, ℕ, zero, suc, ◌≡◌, refl, ap, sym, ◌∙◌, Bool, true, false, List, [], ◌∷◌,
}
use sdr_server.Server.{ClientConfig}
use sdr_server.Queue.{Run, ok, fault, ◌>>=◌}
use sdr_server.DspWorker.{Filter, filtered, deliver}
use sdr_server.DspWorker.Thread.{
  Event, arrives, takes, completes, interrupts, Thread, dsp_worker_process, happens, run_thread,
  round,
}
use sdr_server.DspWorker.Clients.{
  Turn, event, Happening, delivers, turns, ends, Client, give, sdr_callback, take_turn, ended,
  end_client, step, run_clients,
}
use sdr_server.DspWorker.Clients.Seen.{seen, later, config_after}

bind-ok :
    {A B : Type 0} (r : Run A) (k : A → Run B) (b : B)
    → (r >>= k) ≡ ok b
    → (a : A) × (r ≡ ok a) × (k a ≡ ok b)
bind-ok (ok a) k b e = (a, refl, e)
bind-ok fault k b e = absurd cc

module _ (f : Filter) where
  -- A client as it would be if it were the only one.
  pub record Alone (hs : List Happening) (n n' : Client f) : Type 0 where
    pub thread : run_thread f n.config (seen n.config.is_running hs) n.thread ≡ ok n'.thread
    pub config : n'.config ≡ config_after hs n.config

  abbrev pub Isolated : List Happening → List (Client f) → List (Client f) → Type 0
  Isolated hs [] [] = Unit {0}
  Isolated hs [] (n' ∷ ns') = ⊥
  Isolated hs (n ∷ ns) [] = ⊥
  Isolated hs (n ∷ ns) (n' ∷ ns') = Alone hs n n' × Isolated (later hs) ns ns'

  abbrev Stepped : Happening → List Happening → List (Client f) → List (Client f) → Type 0
  Stepped h hs ns ns' = (ns₁ : List (Client f)) × (step f h ns ≡ ok ns₁) × Isolated hs ns₁ ns'

  first_event :
      (c : ClientConfig) (e : Event) (es : List Event) (w w' : Thread f)
      → run_thread f c (e ∷ es) w ≡ ok w'
      → (w₁ : Thread f) × (happens f c e w ≡ ok w₁) × (run_thread f c es w₁ ≡ ok w')
  unfolding run_thread
  first_event c e es w w' r = bind-ok (happens f c e w) (λ w₁. run_thread f c es w₁) w' r

  -- The flag is nothing that the thread reads.
  happens_stopped :
      (c : ClientConfig) (e : Event) (w : Thread f)
      → happens f c e w ≡ happens f (record c { is_running = false }) e w
  unfolding happens round dsp_worker_process deliver filtered
  happens_stopped c (arrives bytes) w = refl
  happens_stopped c (takes a) w = refl
  happens_stopped c completes w = refl
  happens_stopped c interrupts w = refl

  run_stopped :
      (c : ClientConfig) (es : List Event) (w : Thread f)
      → run_thread f c es w ≡ run_thread f (record c { is_running = false }) es w
  unfolding run_thread
  run_stopped c [] w = refl
  run_stopped c (e ∷ es) w =
      ap (λ r. r >>= λ w'. run_thread f c es w') (happens_stopped c e w)
      ∙ ap (λ k. happens f (record c { is_running = false }) e w >>= k)
          (fun_ext (λ w'. run_stopped c es w'))

  give-Alone :
      (bytes : List ℕ) (hs : List Happening) (n n' : Client f)
      → Alone (delivers bytes ∷ hs) n n'
      → (n₁ : Client f) × (give f bytes n ≡ ok n₁) × Alone hs n₁ n'
  unfolding give happens dsp_worker_process
  give-Alone bytes hs n n' a = by_flag n.config.is_running refl a.thread
    where
      by_flag :
          (b : Bool)
          → n.config.is_running ≡ b
          → run_thread f n.config (seen b (delivers bytes ∷ hs)) n.thread ≡ ok n'.thread
          → (n₁ : Client f) × (give f bytes n ≡ ok n₁) × Alone hs n₁ n'
      by_flag false e r = (
        n,
        rw e refl,
        record {
          thread = subst (λ b. run_thread f n.config (seen b hs) n.thread ≡ ok n'.thread) (sym e) r;
          config = a.config;
        },
      )
      by_flag true e r =
          let (w, given, rest) =
            first_event n.config (arrives bytes) (seen true hs) n.thread n'.thread r in
          (
            record n { thread = w },
            rw (e, given) refl,
            record {
              thread = subst (λ b. run_thread f n.config (seen b hs) w ≡ ok n'.thread) (sym e) rest;
              config = a.config;
            },
          )

  turn-Alone :
      (t : Turn) (hs : List Happening) (n n' : Client f)
      → Alone (turns zero t ∷ hs) n n'
      → (w : Thread f) × (happens f n.config (event t) n.thread ≡ ok w)
        × Alone hs (record n { thread = w }) n'
  turn-Alone t hs n n' a =
      let (w, e, rest) =
        first_event n.config (event t) (seen n.config.is_running hs) n.thread n'.thread a.thread in
      (w, e, record { thread = rest; config = a.config })

  sdr_callback-Stepped :
      (bytes : List ℕ) (hs : List Happening) (ns ns' : List (Client f))
      → Isolated (delivers bytes ∷ hs) ns ns'
      → (ns₁ : List (Client f)) × (sdr_callback f bytes ns ≡ ok ns₁) × Isolated hs ns₁ ns'
  unfolding sdr_callback
  sdr_callback-Stepped bytes hs [] [] h = ([], refl, tt)
  sdr_callback-Stepped bytes hs [] (n' ∷ ns') h = elim h [ ]
  sdr_callback-Stepped bytes hs (n ∷ ns) [] h = elim h [ ]
  sdr_callback-Stepped bytes hs (n ∷ ns) (n' ∷ ns') (a, h) =
      let (n₁, e, a₁) = give-Alone bytes hs n n' a in
      let (ns₁, e', h₁) = sdr_callback-Stepped bytes (later hs) ns ns' h in
      (n₁ ∷ ns₁, rw (e, e') refl, (a₁, h₁))

  take_turn-Stepped :
      (i : ℕ) (t : Turn) (hs : List Happening) (ns ns' : List (Client f))
      → Isolated (turns i t ∷ hs) ns ns'
      → (ns₁ : List (Client f)) × (take_turn f i t ns ≡ ok ns₁) × Isolated hs ns₁ ns'
  unfolding take_turn
  take_turn-Stepped i t hs [] [] h = ([], refl, tt)
  take_turn-Stepped i t hs [] (n' ∷ ns') h = elim h [ ]
  take_turn-Stepped zero t hs (n ∷ ns) [] h = elim h [ ]
  take_turn-Stepped (suc i) t hs (n ∷ ns) [] h = elim h [ ]
  take_turn-Stepped zero t hs (n ∷ ns) (n' ∷ ns') (a, h) =
      let (w, e, a₁) = turn-Alone t hs n n' a in (record n { thread = w } ∷ ns, rw e refl, (a₁, h))
  take_turn-Stepped (suc i) t hs (n ∷ ns) (n' ∷ ns') (a, h) =
      let (ns₁, e, h₁) = take_turn-Stepped i t (later hs) ns ns' h in
      (n ∷ ns₁, rw e refl, (record { thread = a.thread; config = a.config }, h₁))

  ended-Alone :
      (hs : List Happening) (n n' : Client f)
      → Alone (ends zero ∷ hs) n n'
      → Alone hs (ended f n) n'
  unfolding run_thread happens
  ended-Alone hs n n' a = record {
    thread = sym (run_stopped n.config (seen false hs) _) ∙ a.thread;
    config = a.config;
  }

  end_client-Stepped :
      (i : ℕ) (hs : List Happening) (ns ns' : List (Client f))
      → Isolated (ends i ∷ hs) ns ns'
      → Isolated hs (end_client f i ns) ns'
  unfolding end_client
  end_client-Stepped i hs [] [] h = tt
  end_client-Stepped i hs [] (n' ∷ ns') h = elim h [ ]
  end_client-Stepped zero hs (n ∷ ns) [] h = elim h [ ]
  end_client-Stepped (suc i) hs (n ∷ ns) [] h = elim h [ ]
  end_client-Stepped zero hs (n ∷ ns) (n' ∷ ns') (a, h) = (ended-Alone hs n n' a, h)
  end_client-Stepped (suc i) hs (n ∷ ns) (n' ∷ ns') (a, h) =
      (record { thread = a.thread; config = a.config }, end_client-Stepped i (later hs) ns ns' h)

  stepped :
      (h : Happening) (hs : List Happening) (ns ns' : List (Client f))
      → Isolated (h ∷ hs) ns ns'
      → Stepped h hs ns ns'
  unfolding step
  stepped (delivers bytes) hs ns ns' k = sdr_callback-Stepped bytes hs ns ns' k
  stepped (turns i t) hs ns ns' k = take_turn-Stepped i t hs ns ns' k
  stepped (ends i) hs ns ns' k = (end_client f i ns, refl, end_client-Stepped i hs ns ns' k)

  same_client :
      {c c' : ClientConfig} {w w' : Thread f}
      → c' ≡ c
      → ◌≡◌ {A = Run (Thread f)} (ok w) (ok w')
      → ◌≡◌ {A = Client f} (record { config = c; thread = w }) (record { config = c'; thread = w' })
  same_client e e' = cc

  no_happening : (ns ns' : List (Client f)) → Isolated [] ns ns' → ns ≡ ns'
  unfolding run_thread
  no_happening [] [] k = refl
  no_happening [] (n' ∷ ns') k = elim k [ ]
  no_happening (n ∷ ns) [] k = elim k [ ]
  no_happening (n ∷ ns) (n' ∷ ns') (a, k) =
      consed (same_client a.config a.thread) (no_happening ns ns' k)
    where
      consed : {n n' : Client f} {ns ns' : List (Client f)} → n ≡ n' → ns ≡ ns' → n ∷ ns ≡ n' ∷ ns'
      consed e e' = cc

  -- However the threads of the clients and of the device take turns, each client is served as if it
  -- were alone: if each one's thread, run alone on what it sees, ends without a fault, so do all
  -- together, and with the same result for each.
  pub run_clients-Isolated :
      (hs : List Happening) (ns ns' : List (Client f))
      → Isolated hs ns ns'
      → run_clients f hs ns ≡ ok ns'
  unfolding run_clients
  run_clients-Isolated [] ns ns' k = ap ok (no_happening ns ns' k)
  run_clients-Isolated (h ∷ hs) ns ns' k =
      let (ns₁, e, k₁) = stepped h hs ns ns' k in rw e (run_clients-Isolated hs ns₁ ns' k₁)
