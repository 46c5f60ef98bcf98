-- ===== src/Tests/Deliveries.antt =====
-- Inputs for a worker's thread from its queue to its client, src/dsp_worker.c.
use sdr_server.Prelude.{ℕ, suc, ◌≡◌, List, [], ◌∷◌, arith, true}
use sdr_server.Socket.{wrote}
use sdr_server.Queue.{ok}
use sdr_server.DspWorker.{Filter, Answers, no_sink}
use sdr_server.DspWorker.Thread.{
  Event, arrives, takes, completes, interrupts, Thread, begun, run_thread,
}
use sdr_server.DspWorker.Thread.Promise.{starting, promise}
use sdr_server.DspWorker.Thread.Refines.{Keeps}
use sdr_server.DspWorker.Thread.Losses.{arrivals, Accounts, run_thread-Accounts}
use sdr_server.DspWorker.Clients.{
  asks, returns, Happening, delivers, turns, ends, Client, run_clients,
}
use sdr_server.DspWorker.Clients.Together.{Fresh, clients_of, Each, run_clients-Own}
use sdr_server.Tests.Data.{client, two_buffers, two_buffers-Represents}

-- A filter that counts its buffers and hands them on.
abbrev counting : Filter
counting = record {
  State = ℕ;
  process_cu8 = λ bs n. (n ∷ bs, suc n);
  process_cs8 = λ bs n. (bs, suc n);
  process_cs16 = λ bs n. (bs, suc n);
}

abbrev pub answers : Answers
answers = record { sink = no_sink; writes = wrote 1 ∷ wrote 1 ∷ wrote 1 ∷ [] }

-- Four buffers come while the thread holds the first: the queue of two keeps the last.
abbrev crowded : List Event
crowded =
    arrives (1 ∷ [])
    ∷ takes answers
    ∷ takes answers
    ∷ arrives (2 ∷ [])
    ∷ arrives (3 ∷ [])
    ∷ arrives (4 ∷ [])
    ∷ completes
    ∷ interrupts
    ∷ takes answers
    ∷ []

run_thread-Accounts_example :
    (w : Thread counting) × (run_thread counting client crowded (begun counting two_buffers 0)
      ≡ ok w)
    × Keeps counting client 4 2 0 w (promise crowded (starting 2))
    × Accounts (arrivals crowded) (promise crowded (starting 2))
run_thread-Accounts_example =
    run_thread-Accounts counting client 4 2 two_buffers 0 crowded two_buffers-Represents
      (omega arith) (omega arith)

-- Two clients: the second one's thread holds its buffer for long, and the first ends meanwhile.
abbrev shared : List Happening
shared =
    delivers (1 ∷ [])
    ∷ turns 1 (asks answers)
    ∷ turns 0 (asks answers)
    ∷ delivers (2 ∷ [])
    ∷ turns 0 returns
    ∷ ends 0
    ∷ delivers (3 ∷ [])
    ∷ turns 0 (asks answers)
    ∷ turns 1 returns
    ∷ []

abbrev fresh : Fresh counting 4
fresh = record {
  config = record client { is_running = true };
  queue = two_buffers;
  count = 2;
  state = 0;
  represents = two_buffers-Represents;
  enough = omega arith;
}

run_clients-Own_example :
    (ns' : List (Client counting)) × (run_clients counting shared
        (clients_of counting 4 (fresh ∷ fresh ∷ []))
      ≡ ok ns')
    × Each counting 4 shared (fresh ∷ fresh ∷ []) ns'
run_clients-Own_example = run_clients-Own counting 4 shared (fresh ∷ fresh ∷ []) (omega arith)

abbrev pub one_byte : ℕ → List ℕ
one_byte n = n ∷ []

abbrev pub calm : List Event
calm =
    arrives (128 ∷ 128 ∷ 200 ∷ 1 ∷ [])
    ∷ takes answers
    ∷ arrives (130 ∷ 127 ∷ 255 ∷ 0 ∷ [])
    ∷ completes
    ∷ takes answers
    ∷ completes
    ∷ []
