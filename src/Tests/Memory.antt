-- ===== src/Tests/Memory.antt =====
-- The allocation and the release of queues.
use sdr_server.Prelude.{ℕ, List, refl, [], ◌∷◌, ◌++◌, arith, true, ltb, ◌⊎◌}
use sdr_server.Queue.Memory.{NodeMemory, create_queue}
use sdr_server.Queue.Memory.Create.{Built, create_queue-Built}
use sdr_server.Queue.Memory.Destroy.{Released, destroy_queue-Released}
use sdr_server.Queue.Memory.Lifecycle.{Lives, Fails, create_queue-Lives}
use sdr_server.Queue.History.{Call, puts, takes}
use sdr_server.Tests.Data.{two_buffers, two_buffers-Layout}

-- The third node cannot be allocated.
abbrev two_nodes_only : ℕ → NodeMemory
two_nodes_only i = record { node = ltb i 2; buffer = true }

create_queue-Built_example : Built two_nodes_only 4 5 (create_queue two_nodes_only 4 true 5)
create_queue-Built_example = create_queue-Built two_nodes_only 4 5

destroy_queue-Released_example : Released 3 two_buffers ((1 ∷ 2 ∷ []) ++ ([] ++ []))
destroy_queue-Released_example =
    destroy_queue-Released 4 two_buffers (1 ∷ 2 ∷ []) [] [] 3 two_buffers-Layout (omega arith)

abbrev calls : List Call
calls = puts (1 ∷ []) ∷ takes ∷ puts (2 ∷ []) ∷ puts (3 ∷ []) ∷ []

create_queue-Lives_example : Lives two_nodes_only 4 2 calls ⊎ Fails two_nodes_only 4 2
create_queue-Lives_example =
    create_queue-Lives two_nodes_only 4 2 calls (omega arith)
      (omega arith, (refl, (omega arith, (omega arith, tt))))
