-- ===== src/Queue/View.antt =====
-- What the queue of src/queue.c promises: a pool of free buffers, a FIFO of filled ones, and at
-- most one that is being processed. The pointers of a `Queue` represent such a view.
use sdr_server.Prelude.{
  ℕ, ◌+◌, ◌-◌, ◌≤◌, ◌≡◌, Bool, true, false, List, [], ◌∷◌, ◌++◌, length, ◌==◌, if◌then◌else◌,
}
use sdr_server.Queue.{Ptr, Queue, Taken, waits, finished, buffer}
use sdr_server.Queue.Chain.{Chain, Apart, last, messages}
use sdr_server.Queue.Links.{overwrite_last}

pub record QueueView : Type 0 where
  pub free : ℕ
  pub filled : List (List ℕ)
  pub detached : Bool
  pub poisoned : Bool

-- With no free buffer the newest filled one is overwritten.
abbrev pub put : List ℕ → QueueView → QueueView
put bytes v =
    if v.free == 0
    then record v { filled = overwrite_last v.filled bytes }
    else record v { free = v.free - 1; filled = v.filled ++ bytes ∷ [] }

-- The oldest filled buffer is handed out, poisoned or not; an empty queue waits until it is
-- poisoned.
abbrev pub take_first : List (List ℕ) → QueueView → Taken × QueueView
take_first [] v = (if v.poisoned then finished else waits, v)
take_first (bytes ∷ rest) v = (buffer bytes, record v { filled = rest; detached = true })

abbrev pub complete : QueueView → QueueView
complete v = record v { free = v.free + 1; detached = false }

-- How the nodes of a queue are shared out: each in one place, `D` the detached one if any.
pub record Layout (size : ℕ) (q : Queue) (F G D : List Ptr) : Type 0 where
  pub free : Chain q.heap size q.first_free_node F
  pub free_end : q.last_free_node ≡ last F
  pub filled : Chain q.heap size q.first_filled_node G
  pub filled_end : q.last_filled_node ≡ last G
  pub detached : Chain q.heap size q.detached_node D
  pub single : length D ≤ 1
  pub free_filled : Apart F G
  pub free_detached : Apart F D
  pub filled_detached : Apart G D

abbrev pub view : Queue → List Ptr → List Ptr → List Ptr → QueueView
view q F G D = record {
  free = length F;
  filled = messages q.heap G;
  detached = length D == 1;
  poisoned = q.poison_pill;
}

-- A queue of `size`-byte buffers represents a view, with `count` buffers in all.
abbrev pub Represents : ℕ → ℕ → Queue → QueueView → Type 0
Represents size count q v =
    (F : List Ptr) × (G : List Ptr) × (D : List Ptr) × Layout size q F G D
    × (view q F G D ≡ v)
    × (length F + length G + length D ≡ count)
