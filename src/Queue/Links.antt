-- ===== src/Queue/Links.antt =====
-- What writing a link or a message does to the linked nodes of src/queue.c.
use sdr_server.Prelude.{
  ℕ, ◌≤◌, ◌≡◌, refl, ap, ◌∙◌, true, false, some, List, [], ◌∷◌, ◌++◌, arith, ◌==◌, if◌then◌else◌,
  length, take-append_le, take_all, length-append, length-drop, eqb_refl, leb, drop,
}
use sdr_server.Queue.{Ptr, null, QueueNode, Heap, write, ok, fill, link_last}
use sdr_server.Queue.Chain.{
  has, Live, Chain, last, message_at, messages, not_null, load-ok, set_next-ok, Live-write,
  SameOutside, has-append, Chain-frame, last-Live, has-last,
}

-- The message of a node does not depend on where it points.
abbrev pub SameMessages : Heap → Heap → Type 0
SameMessages h g = (a : Ptr) → message_at (g a) ≡ message_at (h a)

-- The chain behind `node` is added to a chain: `last->next = node`.
Chain-link :
    (h : Heap) (size : ℕ) (p : Ptr) (a : Ptr) (xs : List Ptr) (node : Ptr) (m : QueueNode)
    → Chain h size p (a ∷ xs)
    → Live h size (last (a ∷ xs)) m
    → Chain h size node (node ∷ [])
    → has node (a ∷ xs) ≡ false
    → Chain
        (write h (last (a ∷ xs)) (some (record m { next = node })))
        size
        p
        ((a ∷ xs) ++ node ∷ [])
Chain-link h size p a [] node m (e, fresh, (n, live, rest)) lm single out = (
  e,
  ground arith,
  (
    record m { next = node },
    Live-write lm (record m { next = node }) lm.capacity,
    Chain-frame h _ size node (node ∷ []) (λ b i. ground arith) single,
  ),
)
Chain-link h size p a (b ∷ xs) node m (e, fresh, (n, live, rest)) lm single out = (
  e,
  ground (arith, has-append a (b ∷ xs) (node ∷ [])),
  (
    n,
    record {
      ne_null = live.ne_null;
      holds = ground (arith, has-last b xs, live.holds);
      capacity = live.capacity;
    },
    Chain-link h size n.next b xs node m rest lm single (ground arith),
  ),
)

-- What `link_last` must do with a chain that starts at `p`.
pub record Linked (h : Heap) (size : ℕ) (p : Ptr) (xs : List Ptr) (node : Ptr) (g : Heap)
    : Type 0 where
  pub ran : link_last h (last xs) node ≡ ok g
  pub chain : Chain g size (if last xs == null then node else p) (xs ++ node ∷ [])
  pub same : SameOutside xs h g
  pub kept : SameMessages h g

kept-write :
    (h : Heap) (p : Ptr) (m : QueueNode) (node : Ptr)
    → h p ≡ some m
    → SameMessages h (write h p (some (record m { next = node })))
kept-write h p m node e b = ground arith

pub link_last-Linked :
    (h : Heap) (size : ℕ) (p : Ptr) (xs : List Ptr) (node : Ptr)
    → Chain h size p xs
    → Chain h size node (node ∷ [])
    → has node xs ≡ false
    → (g : Heap) × Linked h size p xs node g
unfolding link_last
link_last-Linked h size p [] node v single out =
    (h, record { ran = refl; chain = single; same = λ a _. refl; kept = λ a. refl })
link_last-Linked h size p (a ∷ xs) node v single out =
    let (m, lm, e) = last-Live h size p a xs v in
    (
      write h (last (a ∷ xs)) (some (record m { next = node })),
      record {
        ran = rw (not_null lm) (set_next-ok lm node);
        chain = rw (not_null lm) (Chain-link h size p a xs node m v lm single out);
        same = λ b o. ground (arith, has-last a xs);
        kept = kept-write h (last (a ∷ xs)) m node lm.holds;
      },
    )

-- The last of a list of messages replaced.
abbrev pub overwrite_last : List (List ℕ) → List ℕ → List (List ℕ)
overwrite_last [] bytes = []
overwrite_last (m ∷ []) bytes = bytes ∷ []
overwrite_last (m ∷ m' ∷ ms) bytes = m ∷ overwrite_last (m' ∷ ms) bytes

-- The node after `fill`.
abbrev pub filled_node : QueueNode → List ℕ → QueueNode
filled_node n bytes = record n {
  buffer = bytes ++ drop (length bytes) n.buffer;
  len = length bytes;
}

pub length-filled_node :
    (n : QueueNode) (bytes : List ℕ)
    → length bytes ≤ length n.buffer
    → length (filled_node n bytes).buffer ≡ length n.buffer
length-filled_node n bytes h =
    omega (
      arith,
      length-append bytes (drop (length bytes) n.buffer),
      length-drop (length bytes) n.buffer,
    )

pub message-filled_node :
    (n : QueueNode) (bytes : List ℕ) → message_at (some (filled_node n bytes)) ≡ bytes
message-filled_node n bytes =
    take-append_le (length bytes) bytes (drop (length bytes) n.buffer) (omega arith)
    ∙ take_all bytes

pub record Filled (h : Heap) (size : ℕ) (p : Ptr) (xs : List Ptr) (bytes : List ℕ) (g : Heap)
    : Type 0 where
  pub ran : fill h (last xs) bytes ≡ ok g
  pub chain : Chain g size p xs
  pub same : SameOutside xs h g
  pub stored : messages g xs ≡ overwrite_last (messages h xs) bytes

Chain-fill :
    (h : Heap) (size : ℕ) (p : Ptr) (a : Ptr) (xs : List Ptr) (m : QueueNode) (bytes : List ℕ)
    → Chain h size p (a ∷ xs)
    → Live h size (last (a ∷ xs)) m
    → m.next ≡ null
    → length bytes ≤ size
    → let g = write h (last (a ∷ xs)) (some (filled_node m bytes)) in
      Chain g size p (a ∷ xs) × (messages g (a ∷ xs) ≡ overwrite_last (messages h (a ∷ xs)) bytes)
Chain-fill h size p a [] m bytes (e, fresh, (n, live, rest)) lm end h' = (
  (
    e,
    fresh,
    (
      filled_node m bytes,
      Live-write lm (filled_node m bytes) (omega (arith, length-filled_node m bytes, lm.capacity)),
      end,
    ),
  ),
  rw (eqb_refl a) (ap (λ t. t ∷ []) (message-filled_node m bytes)),
)
Chain-fill h size p a (b ∷ xs) m bytes (e, fresh, (n, live, rest)) lm end h' =
    let (c, s) = Chain-fill h size n.next b xs m bytes rest lm end h' in
    let other : (a == last (b ∷ xs)) ≡ false = ground (arith, has-last b xs) in
    (
      (
        e,
        fresh,
        (
          n,
          record { ne_null = live.ne_null; holds = rw other live.holds; capacity = live.capacity },
          c,
        ),
      ),
      rw other (ap (◌∷◌ (message_at (h a))) s),
    )

-- A message that fits replaces that of the last node.
pub fill-Filled :
    (h : Heap) (size : ℕ) (p : Ptr) (a : Ptr) (xs : List Ptr) (bytes : List ℕ)
    → Chain h size p (a ∷ xs)
    → length bytes ≤ size
    → (g : Heap) × Filled h size p (a ∷ xs) bytes g
unfolding fill
fill-Filled h size p a xs bytes v fits =
    let (m, lm, end) = last-Live h size p a xs v in
    let (c, s) = Chain-fill h size p a xs m bytes v lm end fits in
    let room : leb (length bytes) (length m.buffer) ≡ true = ground (arith, lm.capacity) in
    (
      write h (last (a ∷ xs)) (some (filled_node m bytes)),
      record {
        ran = rw (load-ok lm, room) refl;
        chain = c;
        same = λ b o. ground (arith, has-last a xs);
        stored = s;
      },
    )
