-- ===== src/DspWorker/Stream.antt =====
-- The stream of bytes that a client of src/dsp_worker.c receives.
use sdr_server.Prelude.{ℕ, ◌≤◌, ◌≡◌, refl, false, List, [], ◌∷◌, ◌++◌, arith, length, All}
use sdr_server.Prelude.Int.{ℤ, pos}
use sdr_server.Socket.{write_all}
use sdr_server.Socket.Writing.{Progresses, write_all_whole}
use sdr_server.Server.{ClientConfig}
use sdr_server.DspWorker.{Filter, Answers, Round, filtered, deliver, callback, write_to_socket}

module _ (f : Filter) where
  -- The filter run over all the buffers: its outputs, one for each.
  abbrev pub outputs : ℤ → List (List ℕ × Answers) → f.State → List (List ℕ)
  outputs kind [] s = []
  outputs kind ((input, a) ∷ rest) s =
      (filtered f kind input s).0 ∷ outputs kind rest (filtered f kind input s).1

  abbrev pub concat : List (List ℕ) → List ℕ
  concat [] = []
  concat (x ∷ xs) = x ++ concat xs

  abbrev pub received : List Round → List ℕ
  received [] = []
  received (r ∷ rs) = r.to_client ++ received rs

  -- Each output is written in full.
  abbrev pub Drains : ℤ → List (List ℕ × Answers) → f.State → Type 0
  Drains kind [] s = Unit {0}
  Drains kind ((input, a) ∷ rest) s =
      Progresses a.writes
      × (length (filtered f kind input s).0 ≤ length a.writes)
      × Drains kind rest (filtered f kind input s).1

  -- While every write to the socket makes progress, its client receives the outputs of the filter,
  -- in order, whole, with nothing between them, and the socket stays open.
  pub callback-received :
      (c : ClientConfig) (bs : List (List ℕ × Answers)) (s : f.State)
      → c.destination ≡ 1
      → Drains c.sdr_type bs s
      → (received (callback f c bs s) ≡ concat (outputs c.sdr_type bs s))
        × All (λ r. r.closes_socket ≡ false) (callback f c bs s)
  unfolding callback deliver write_to_socket
  callback-received c [] s d h = (refl, tt)
  callback-received c ((input, a) ∷ rest) s d h =
      let (e, o) = callback-received c rest (filtered f c.sdr_type input s).1 d h.2 in
      let w = write_all_whole (filtered f c.sdr_type input s).0 a.writes h.0 h.1 in
      (simp (d, w, e), (simp (d, w), o))

  -- An MSi receiver's clients get nothing: `callback` has no case for their kind, so whatever the
  -- device delivers, not a byte goes to the socket or the file.
  pub callback_msi_silent :
      (c : ClientConfig) (bs : List (List ℕ × Answers)) (s : f.State)
      → c.sdr_type ≡ pos 3
      → All (λ r. (r.to_client ≡ []) × (r.to_disk ≡ [])) (callback f c bs s)
  unfolding callback deliver filtered write_to_socket write_all
  callback_msi_silent c [] s k = tt
  callback_msi_silent c ((input, a) ∷ rest) s k = (
    silent c a (filtered_msi c.sdr_type input s k),
    rw (filtered_kept c.sdr_type input s k) (callback_msi_silent c rest s k),
  )
    where
      filtered_msi :
          (kind : ℤ) (input : List ℕ) (s : f.State)
          → kind ≡ pos 3
          → (filtered f kind input s).0 ≡ []
      filtered_msi kind input s k = rw k

      filtered_kept :
          (kind : ℤ) (input : List ℕ) (s : f.State) → kind ≡ pos 3 → (filtered f kind input s).1 ≡ s
      filtered_kept kind input s k = rw k

      silent :
          (c : ClientConfig) (a : Answers) {output : List ℕ}
          → output ≡ []
          → ((deliver f c a output).to_client ≡ []) × ((deliver f c a output).to_disk ≡ [])
      silent c a e = rw e (ground arith)
