-- ===== src/Queue/Memory.antt =====
-- src/queue.c: the allocation of a queue and its release. The `i`-th node is allocated at the
-- address i + 1; what malloc answers is a parameter.
pub mod Destroy
pub mod Create
pub mod Lifecycle
use sdr_server.Prelude.{
  ℕ, zero, suc, ◌+◌, Bool, true, false, not, Option, none, some, List, [], ◌∷◌, ◌==◌, if◌then◌else◌,
  replicate,
}
use sdr_server.Queue.{
  Ptr, null, QueueNode, Heap, write, Queue, Run, ok, fault, ◌>>=◌, load, link_last,
}

-- Frees the nodes that `p` leads to. Enough steps are more than there are nodes.
unfoldable pub destroy_nodes : (steps : ℕ) → Heap → Ptr → Run Heap
destroy_nodes zero h p = fault
destroy_nodes (suc k) h p =
    if p == null then ok h else load h p >>= λ n. destroy_nodes k (write h p none) n.next

unfoldable pub destroy_detached : Heap → Ptr → Run Heap
destroy_detached h p = if p == null then ok h else load h p >>= λ n. ok (write h p none)

unfoldable pub destroy_queue : (steps : ℕ) → Queue → Run Heap
destroy_queue k q = do
  h ← destroy_nodes k q.heap q.first_free_node
  h' ← destroy_nodes k h q.first_filled_node
  destroy_detached h' q.detached_node

-- A queue, or -ENOMEM with what is left: whether the queue's structure is, and the nodes.
pub data Creation : Type 0 where
  created : Queue → Creation
  no_memory : (has_struct : Bool) → Heap → Creation

-- The contents of a new buffer are never read.
abbrev pub new_node : ℕ → QueueNode
new_node size = record { buffer = replicate size 0; len = 0; next = null }

abbrev pub free_queue : Heap → Ptr → Ptr → Queue
free_queue h first last = record {
  first_free_node = first;
  last_free_node = last;
  first_filled_node = null;
  last_filled_node = null;
  detached_node = null;
  poison_pill = false;
  heap = h;
}

-- Whether malloc succeeds for a node, and for its buffer.
pub record NodeMemory : Type 0 where
  pub node : Bool
  pub buffer : Bool

module _ (memory : ℕ → NodeMemory) (size : ℕ) where
  -- `destroy_nodes(first_node); free(result);` after `i` nodes.
  unfoldable pub give_up : ℕ → Heap → Ptr → Run Creation
  give_up i h first = destroy_nodes (suc i) h first >>= λ h'. ok (no_memory false h')

  -- `cur` before it has a buffer.
  abbrev pub without_buffer : QueueNode
  without_buffer = record { buffer = []; len = 0; next = null }

  -- `destroy_nodes(first_node); free(cur); free(result);`
  unfoldable pub give_up_node : ℕ → Heap → Ptr → Run Creation
  give_up_node i h first =
      destroy_nodes (suc i) (write h (suc i) (some without_buffer)) first >>= λ h'.
      ok (no_memory false (write h' (suc i) none))

  -- The loop: `k` nodes to go, `i` made.
  unfoldable pub create_nodes : (k i : ℕ) → Heap → (first last : Ptr) → Run Creation
  create_nodes zero i h first last = ok (created (free_queue h first last))
  create_nodes (suc k) i h first last =
      if not (memory i).node
      then give_up i h first
      else if not (memory i).buffer
      then give_up_node i h first
      else (link_last (write h (suc i) (some (new_node size))) last (suc i) >>= λ h'.
          create_nodes k (suc i) h' (if last == null then suc i else first) (suc i))

  -- `memory_for_queue`: whether the queue itself could be allocated.
  unfoldable pub create_queue : (memory_for_queue : Bool) → ℕ → Run Creation
  create_queue memory_for_queue queue_size =
      if memory_for_queue
      then create_nodes queue_size 0 (λ _. none) null null
      else ok (no_memory false (λ _. none))
