-- ===== src/Socket/Writing.antt =====
-- What the loop around `write` puts on the wire.
use sdr_server.Prelude.{
  ℕ, ◌≤◌, ◌<◌, ◌≡◌, refl, sym, ap, ◌∙◌, List, [], ◌∷◌, ◌++◌, arith, length, take, drop,
  append_assoc, take-append-drop, length-drop, append-nil,
}
use sdr_server.Socket.{Write, wrote, failed, sent, write_all}

-- The outcomes of calls that each make progress.
abbrev pub Progresses : List Write → Type 0
Progresses [] = Unit {0}
Progresses (wrote k ∷ ws) = (0 < k) × Progresses ws
Progresses (failed ∷ ws) = ⊥

-- What went out and some rest make up the message; nothing is left when the loop is done.
pub write_all-prefix :
    (m : List ℕ) (ws : List Write)
    → (rest : List ℕ) × ((write_all m ws).0 ++ rest ≡ m) × ((write_all m ws).1 ≡ sent → rest ≡ [])
unfolding write_all
write_all-prefix [] ws = ([], refl, λ _. refl)
write_all-prefix (b ∷ bs) [] = (b ∷ bs, refl, λ e. cc)
write_all-prefix (b ∷ bs) (failed ∷ ws) = (b ∷ bs, refl, λ e. cc)
write_all-prefix (b ∷ bs) (wrote k ∷ ws) =
    let (rest, e, f) = write_all-prefix (drop k (b ∷ bs)) ws in
    (
      rest,
      append_assoc (take k (b ∷ bs)) _ rest
          ∙ ap (◌++◌ (take k (b ∷ bs))) e
          ∙ take-append-drop k (b ∷ bs),
      f,
    )

-- With as many progressing calls as there are bytes, the loop ends.
pub write_all_ends :
    (m : List ℕ) (ws : List Write)
    → Progresses ws
    → length m ≤ length ws
    → (write_all m ws).1 ≡ sent
unfolding write_all
write_all_ends [] ws p h = refl
write_all_ends (b ∷ bs) [] p h = absurd (omega arith)
write_all_ends (b ∷ bs) (failed ∷ ws) p h = absurd p
write_all_ends (b ∷ bs) (wrote k ∷ ws) p h =
    write_all_ends (drop k (b ∷ bs)) ws p.1 (omega (arith, length-drop k (b ∷ bs)))

-- If every call of write makes progress and there are as many of them as bytes, the loop ends and
-- the whole message is on the wire.
pub write_all_whole :
    (m : List ℕ) (ws : List Write)
    → Progresses ws
    → length m ≤ length ws
    → write_all m ws ≡ (m, sent)
write_all_whole m ws p h =
    let (rest, e, f) = write_all-prefix m ws in
    λ i. (front rest e (f (write_all_ends m ws p h)) i, write_all_ends m ws p h i)
  where
    front : (rest : List ℕ) → (write_all m ws).0 ++ rest ≡ m → rest ≡ [] → (write_all m ws).0 ≡ m
    front rest e n = sym (append-nil _) ∙ ap (◌++◌ (write_all m ws).0) (sym n) ∙ e
