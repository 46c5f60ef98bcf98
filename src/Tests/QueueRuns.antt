-- ===== src/Tests/QueueRuns.antt =====
-- The queue of src/queue.c with two buffers, and with one.
use sdr_server.Prelude.{refl, List, [], ◌∷◌, arith}
use sdr_server.Queue.History.{Call, puts, takes, completes, interrupts, Runs, run-refines}
use sdr_server.Tests.Data.{two_buffers, two_free, two_buffers-Represents}

-- Three messages for two buffers: the third overwrites the second.
abbrev history : List Call
history =
    puts (1 ∷ 2 ∷ [])
    ∷ puts (3 ∷ [])
    ∷ takes
    ∷ puts (4 ∷ 5 ∷ [])
    ∷ completes
    ∷ interrupts
    ∷ takes
    ∷ []

run-refines_example : Runs 4 2 history two_buffers two_free
run-refines_example =
    run-refines 4 2 history two_buffers two_free two_buffers-Represents (omega arith)
      (omega arith, (omega arith, (refl, (omega arith, (refl, (refl, tt))))))
