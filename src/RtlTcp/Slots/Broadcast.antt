-- ===== src/RtlTcp/Slots/Broadcast.antt =====
-- What the clients of src/rtltcp_server.c receive, and who they are.
use sdr_server.Prelude.{
  ℕ, zero, suc, ◌≡◌, refl, ap, ◌∙◌, Option, none, some, List, [], ◌∷◌, ◌++◌, take, drop,
  append_assoc, take-append-drop, Bool-cases, inl, inr,
}
use sdr_server.RtlTcp.Slots.{
  Slot, empty, Send, took, would_block, failed, send_loop, serve, send_to, broadcast,
}

-- The bytes that went out are the first ones.
abbrev pub Front : List ℕ → List ℕ → Type 0
Front out bytes = (rest : List ℕ) × (out ++ rest ≡ bytes)

send_loop-Front : (bytes : List ℕ) (xs : List Send) → Front (send_loop bytes xs).0 bytes
unfolding send_loop
send_loop-Front [] xs = ([], refl)
send_loop-Front (b ∷ bs) [] = (b ∷ bs, refl)
send_loop-Front (b ∷ bs) (would_block ∷ xs) = (b ∷ bs, refl)
send_loop-Front (b ∷ bs) (failed ∷ xs) = (b ∷ bs, refl)
send_loop-Front (b ∷ bs) (took zero ∷ xs) = (b ∷ bs, refl)
send_loop-Front (b ∷ bs) (took (suc k) ∷ xs) =
    let (rest, e) = send_loop-Front (drop k bs) xs in
    (
      rest,
      ap (◌∷◌ b) (
          append_assoc (take k bs) (send_loop (drop k bs) xs).0 rest
          ∙ ap (◌++◌ (take k bs)) e
          ∙ take-append-drop k bs),
    )

-- A client after a broadcast: it is where it was, or its slot is empty.
pub data Stays (before after : Slot) : Type 0 where
  same : after ≡ before → Stays before after
  gone : after ≡ empty → Stays before after

pub record Served (bytes : List ℕ) (slot : Slot) (r : List ℕ × Slot) : Type 0 where
  pub front : Front r.0 bytes
  pub stays : Stays slot r.1

send_to-Served :
    (bytes : List ℕ) (slot : Slot) (xs : List Send) (o : Option ℕ)
    → Served bytes slot (send_to bytes o slot xs)
unfolding send_to
send_to-Served bytes slot xs none = record { front = (bytes, refl); stays = same refl }
send_to-Served bytes slot xs (some s) = record {
  front = send_loop-Front bytes xs;
  stays = elim (Bool-cases (send_loop bytes xs).1) [ inl e ↦ same (rw e) | inr e ↦ gone (rw e) ];
}

serve-Served :
    (bytes : List ℕ) (slot : Slot) (xs : List Send) → Served bytes slot (serve bytes slot xs)
unfolding serve
serve-Served bytes slot xs = send_to-Served bytes slot xs slot.sock

abbrev pub AllServed : List ℕ → List Slot → List (List ℕ × Slot) → Type 0
AllServed bytes [] [] = Unit {0}
AllServed bytes [] (r ∷ rs) = ⊥
AllServed bytes (s ∷ ss) [] = ⊥
AllServed bytes (s ∷ ss) (r ∷ rs) = Served bytes s r × AllServed bytes ss rs

-- Every client receives a front part of the samples, and keeps its slot or loses it; nobody moves.
pub broadcast-AllServed :
    (bytes : List ℕ) (answers : ℕ → List Send) (i : ℕ) (slots : List Slot)
    → AllServed bytes slots (broadcast bytes answers i slots)
unfolding broadcast
broadcast-AllServed bytes answers i [] = tt
broadcast-AllServed bytes answers i (slot ∷ slots) =
    (serve-Served bytes slot (answers i), broadcast-AllServed bytes answers (suc i) slots)
