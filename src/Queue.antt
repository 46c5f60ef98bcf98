-- ===== src/Queue.antt =====
-- src/queue.c: the buffers that a client's DSP thread works through. Nodes are cells of an
-- explicit heap, pointers are numbers with NULL as 0, and a call is what happens between locking
-- and unlocking the mutex. A dereference of NULL or of a free cell, or a copy past the end of a
-- buffer, is a fault.
pub mod Chain
pub mod Links
pub mod View
pub mod Claim
pub mod Put
pub mod Take
pub mod Single
pub mod Complete
pub mod History
pub mod Memory
use sdr_server.Prelude.{
  ℕ, zero, suc, ◌+◌, ◌≡◌, Bool, true, false, ◌&&◌, Option, none, some, List, [], ◌∷◌, ◌++◌, leb,
  ◌==◌, if◌then◌else◌, length, take, drop, replicate,
}

abbrev pub Ptr : Type 0
Ptr = ℕ

abbrev pub null : Ptr
null = 0

-- `struct queue_node`. The list is the allocated buffer, `len` how much of it is in use.
pub record QueueNode : Type 0 where
  pub buffer : List ℕ
  pub len : ℕ
  pub next : Ptr

abbrev pub Heap : Type 0
Heap = Ptr → Option QueueNode

abbrev pub write : Heap → Ptr → Option QueueNode → Heap
write h p c a = if a == p then c else h a

-- `struct queue_t`, with the heap that its pointers lead into.
pub record Queue : Type 0 where
  pub first_free_node : Ptr
  pub last_free_node : Ptr
  pub first_filled_node : Ptr
  pub last_filled_node : Ptr
  pub detached_node : Ptr
  pub poison_pill : Bool
  pub heap : Heap

pub data Run {ℓ} (A : Type ℓ) : Type ℓ where
  ok : A → Run A
  fault : Run A

infixl 5 ◌>>=◌ ◌>>◌
abbrev pub ◌>>=◌ {ℓ κ} : {A : Type ℓ} {B : Type κ} → Run A → (A → Run B) → Run B
ok a >>= f = f a
fault >>= f = fault

abbrev pub ◌>>◌ {ℓ κ} : {A : Type ℓ} {B : Type κ} → Run A → Run B → Run B
m >> k = m >>= λ _. k

-- `*p`; nothing is ever allocated at NULL.
unfoldable pub load : Heap → Ptr → Run QueueNode
load h p = if p == null then fault else elim (h p) [ none ↦ fault | some n ↦ ok n ]

-- `p->next = q`
unfoldable pub set_next : Heap → Ptr → Ptr → Run Heap
set_next h p q = do n ← load h p; ok (write h p (some (record n { next = q })))

-- `memcpy(p->buffer, bytes, len); p->len = len`
unfoldable pub fill : Heap → Ptr → List ℕ → Run Heap
fill h p bytes = do
  n ← load h p
  let filled = bytes ++ drop (length bytes) n.buffer
  let h' = write h p (some (record n { buffer = filled; len = length bytes }))
  if leb (length bytes) (length n.buffer) then ok h' else fault

-- `if (last == NULL) first = node; else last->next = node;`
unfoldable pub link_last : Heap → (last node : Ptr) → Run Heap
link_last h last node = if last == null then ok h else set_next h last node

-- The free node that `queue_put` moves to the end of the filled nodes.
unfoldable pub claim_free : Queue → Run Queue
claim_free q = do
  n ← load q.heap q.first_free_node
  h ← set_next q.heap q.first_free_node null
  h' ← link_last h q.last_filled_node q.first_free_node
  ok (record q {
    first_free_node = n.next;
    last_free_node = if n.next == null then null else q.last_free_node;
    first_filled_node =
        if q.last_filled_node == null then q.first_free_node else q.first_filled_node;
    last_filled_node = q.first_free_node;
    heap = h';
  })

-- With no free node the last filled one is overwritten.
unfoldable pub queue_put : List ℕ → Queue → Run Queue
queue_put bytes q = do
  q' ← if q.first_free_node == null then ok q else claim_free q
  h ← fill q'.heap q'.last_filled_node bytes
  ok (record q' { heap = h })

-- What `take_buffer_for_processing` comes to: the thread waits for a signal (and will make the
-- call's tests again), it gets NULL, or it gets the first `len` bytes of a buffer.
pub data Taken : Type 0 where
  waits finished : Taken
  buffer : List ℕ → Taken

unfoldable pub detach_first : Queue → Run (Taken × Queue)
detach_first q = do
  n ← load q.heap q.first_filled_node
  h ← set_next q.heap q.first_filled_node null
  ok (
    buffer (take n.len n.buffer),
    record q {
      detached_node = q.first_filled_node;
      first_filled_node = n.next;
      last_filled_node = if n.next == null then null else q.last_filled_node;
      heap = h;
    },
  )

unfoldable pub take_buffer_for_processing : Queue → Run (Taken × Queue)
take_buffer_for_processing q =
    if q.first_filled_node == null
    then ok (if q.poison_pill then finished else waits, q)
    else detach_first q

unfoldable pub complete_buffer_processing : Queue → Run Queue
complete_buffer_processing q = do
  h ← link_last q.heap q.last_free_node q.detached_node
  ok (record q {
    first_free_node = if q.last_free_node == null then q.detached_node else q.first_free_node;
    last_free_node = q.detached_node;
    detached_node = null;
    heap = h;
  })

unfoldable pub interrupt_waiting_the_data : Queue → Queue
interrupt_waiting_the_data q = record q { poison_pill = true }
