-- ===== src/DspWorker/Samples/Received.antt =====
-- From the device's buffers to the client's socket: src/queue.c, src/dsp_worker.c and src/xlating.c
-- together.
use sdr_server.Prelude.{
  ℕ, ◌/◌, ◌≤◌, ◌≡◌, sym, ap, subst, ◌∙◌, false, List, [], ◌∷◌, ◌++◌, map, length, All, append-nil,
  arith,
}
use sdr_server.Prelude.Int.{ℤ}
use sdr_server.Wire.{destination_socket}
use sdr_server.Server.{ClientConfig}
use sdr_server.Queue.{Queue, ok}
use sdr_server.Queue.View.{Represents}
use sdr_server.Xlating.Taps.{Complex}
use sdr_server.Xlating.Refine.{history}
use sdr_server.Xlating.Cf32 as Cf32
use sdr_server.Xlating.Cf32.{FilterCf32, process_native_cf32, window_cf32}
use sdr_server.DspWorker.Stream.{received, Drains, callback-received}
use sdr_server.DspWorker.Thread.{
  Event, arrives, takes, completes, interrupts, Thread, begun, run_thread,
}
use sdr_server.DspWorker.Thread.Promise.{promise, starting}
use sdr_server.DspWorker.Thread.Refines.{Fits}
use sdr_server.DspWorker.Thread.Losses.{arrivals, inputs, run_thread-Accounts, handled_all}
use sdr_server.DspWorker.Samples.{EntryPoints, encode, worker_filter, converted}
use sdr_server.DspWorker.Samples.Entries.{native}
use sdr_server.DspWorker.Samples.Calls.{
  Known, length-converted, outputs-calls, call_all, plain_calls, call_all-plain,
}

arrivals-All :
    (size : ℕ) (es : List Event) → All (Fits size) es → All (λ b. length b ≤ size) (arrivals es)
arrivals-All size [] h = tt
arrivals-All size (arrives bytes ∷ es) h = (h.0, arrivals-All size es h.1)
arrivals-All size (takes a ∷ es) h = arrivals-All size es h.1
arrivals-All size (completes ∷ es) h = arrivals-All size es h.1
arrivals-All size (interrupts ∷ es) h = arrivals-All size es h.1

module _ (c : Complex) (bytes_of : c.Sample → List ℕ) where
  open c use {Sample, Phase}

  converted-All :
      (kind : ℤ) (size : ℕ) (bs : List (List ℕ))
      → All (λ b. length b ≤ size) bs
      → All (λ xs. length xs ≤ size / 2) (map (converted c kind) bs)
  converted-All kind size [] h = tt
  converted-All kind size (b ∷ bs) h = (
    omega (arith, h.0, length-converted c kind b, div_le (length b) size h.0),
    converted-All kind size bs h.1,
  )
    where
      div_le : (a b : ℕ) → a ≤ b → a / 2 ≤ b / 2
      div_le a b h = omega arith

  -- What a client gets from a thread that runs the events `es`: what the plain filter makes of the
  -- device's buffers, one after the other. Nothing faults and the socket stays open.
  abbrev pub Delivers :
      EntryPoints c → ClientConfig → Queue → List Sample → FilterCf32 c → List Event → Type 0
  Delivers points config q taps s es =
      (w : Thread (worker_filter c bytes_of points)) × (run_thread (worker_filter c bytes_of points)
          config es (begun (worker_filter c bytes_of points) q s)
        ≡ ok w)
      × (received (worker_filter c bytes_of points) w.rounds
          ≡ encode c bytes_of (
              plain_calls c bytes_of taps s.phase_incr s.state.decimation (history s.state)
                s.state.phase (map (converted c config.sdr_type) (arrivals es))))
      × All (λ r. r.closes_socket ≡ false) w.rounds

  pub run_native-Received :
      ((x : Sample) → c.add c.zero (c.mul x c.zero) ≡ c.zero)
      → (size count : ℕ) (config : ClientConfig) (q : Queue) (taps : List Sample) (s : FilterCf32 c)
        (es : List Event)
      → config.destination ≡ destination_socket
      → Known config.sdr_type
      → Represents size count q (starting count).view
      → 2 ≤ count
      → Cf32.IsMade c (size / 2) taps s
      → All (Fits size) es
      → let p = promise es (starting count) in
        p.lost ≡ 0
        → p.view.filled ≡ []
        → Drains (worker_filter c bytes_of (native c)) config.sdr_type p.done s
        → Delivers (native c) config q taps s es
  run_native-Received zero_tap size count config q taps s es d known r two made fits none drained
        writes =
      let (w, runs, k, accounts) =
        run_thread-Accounts (worker_filter c bytes_of (native c)) config size count q s es r two
          fits in
      let p = promise es (starting count) in
      let all : inputs p.done ≡ arrivals es =
        sym (append-nil (inputs p.done))
        ∙ (ap (λ ys. inputs p.done ++ ys) (sym drained)
            ∙ handled_all p (arrivals es) accounts none) in
      let (bytes, kept_open) =
        callback-received (worker_filter c bytes_of (native c)) config p.done s d writes in
      (
        w,
        runs,
        ap (received (worker_filter c bytes_of (native c))) k.rounds
            ∙ (bytes
                ∙ (outputs-calls c bytes_of config.sdr_type p.done s known
                    ∙ (ap (λ bs. call_all c bytes_of (map (converted c config.sdr_type) bs) s) all
                        ∙ call_all-plain c bytes_of zero_tap (size / 2) taps
                            (map (converted c config.sdr_type) (arrivals es)) s made
                            (converted-All config.sdr_type size (arrivals es)
                              (arrivals-All size es fits))))),
        subst (All (λ r. r.closes_socket ≡ false)) (sym k.rounds) kept_open,
      )
