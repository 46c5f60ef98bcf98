-- ===== src/DspWorker/Thread/Losses.antt =====
-- src/dsp_worker.c with src/queue.c: which of the device's buffers the thread deals with.
use sdr_server.Prelude.{
  ℕ, ◌+◌, ◌-◌, ◌≡◌, ◌≤◌, All, refl, sym, ap, subst, ◌∙◌, List, [], ◌∷◌, ◌++◌, map, length,
  length-append, append_assoc, ◌==◌, ◌||◌, if◌then◌else◌, arith, Bool, true, false, IsSublist,
  nothing, kept, dropped, whole, IsSublist-append, IsSublist-trans, IsSublist-full, append-nil,
}
use sdr_server.Server.{ClientConfig}
use sdr_server.Queue.{Queue, ok, waits, finished}
use sdr_server.Queue.Links.{overwrite_last}
use sdr_server.Queue.View.{complete, take_first, Represents}
use sdr_server.DspWorker.{Filter, Answers, callback}
use sdr_server.DspWorker.Thread.{
  Event, arrives, takes, completes, interrupts, Thread, begun, run_thread,
}
use sdr_server.DspWorker.Thread.Promise.{Promise, starting, taken, promised, promise}
use sdr_server.DspWorker.Thread.Refines.{Fits, Keeps, run_thread-Keeps}

abbrev pub arrivals : List Event → List (List ℕ)
arrivals [] = []
arrivals (arrives bytes ∷ es) = bytes ∷ arrivals es
arrivals (takes a ∷ es) = arrivals es
arrivals (completes ∷ es) = arrivals es
arrivals (interrupts ∷ es) = arrivals es

abbrev pub inputs : List (List ℕ × Answers) → List (List ℕ)
inputs done = map (λ d. d.0) done

-- What was dealt with, and what still waits.
abbrev pub handled : Promise → List (List ℕ)
handled p = inputs p.done ++ p.view.filled

-- Of the buffers that arrived, the handled ones are some, in order, and the others were lost.
abbrev pub Accounts : List (List ℕ) → Promise → Type 0
Accounts xs p = IsSublist (handled p) xs × (length (handled p) + p.lost ≡ length xs)

overwrite_last-IsSublist :
    (filled : List (List ℕ)) (bytes : List ℕ)
    → IsSublist (overwrite_last filled bytes) (filled ++ (bytes ∷ []))
overwrite_last-IsSublist [] bytes = dropped nothing
overwrite_last-IsSublist (m ∷ []) bytes = dropped (kept nothing)
overwrite_last-IsSublist (m ∷ m' ∷ ms) bytes = kept (overwrite_last-IsSublist (m' ∷ ms) bytes)

length-overwrite_last :
    (filled : List (List ℕ)) (bytes : List ℕ) → length (overwrite_last filled bytes) ≡ length filled
length-overwrite_last [] bytes = refl
length-overwrite_last (m ∷ []) bytes = refl
length-overwrite_last (m ∷ m' ∷ ms) bytes = omega (arith, length-overwrite_last (m' ∷ ms) bytes)

-- A buffer behind the handled ones.
behind :
    (done filled : List (List ℕ)) (later : List (List ℕ)) (bytes : List ℕ) (xs : List (List ℕ))
    → IsSublist later (filled ++ (bytes ∷ []))
    → IsSublist (done ++ filled) xs
    → IsSublist (done ++ later) (xs ++ (bytes ∷ []))
behind done filled later bytes xs l h =
    IsSublist-trans _ _
      (subst (λ ys. IsSublist ys (xs ++ (bytes ∷ []))) (append_assoc done filled (bytes ∷ []))
        (IsSublist-append (done ++ filled) xs h (whole (bytes ∷ []))))
      _ (IsSublist-append done done (whole done) l)

arrives-Accounts :
    (bytes : List ℕ) (p : Promise) (xs : List (List ℕ))
    → Accounts xs p
    → Accounts (xs ++ (bytes ∷ [])) (promised (arrives bytes) p)
arrives-Accounts bytes p xs (h, n) = chosen (p.view.free == 0)
  where
    chosen :
        (b : Bool)
        → Accounts (xs ++ (bytes ∷ [])) (record p {
          view =
              if b
              then record p.view { filled = overwrite_last p.view.filled bytes }
              else record p.view { free = p.view.free - 1; filled = p.view.filled ++ bytes ∷ [] };
          lost = p.lost + (if b then 1 else 0);
        })
    chosen true = (
      behind (inputs p.done) p.view.filled _ bytes xs (overwrite_last-IsSublist p.view.filled bytes)
          h,
      omega (
        arith,
        n,
        length-append (inputs p.done) p.view.filled,
        length-append (inputs p.done) (overwrite_last p.view.filled bytes),
        length-overwrite_last p.view.filled bytes,
        length-append xs (bytes ∷ []),
      ),
    )
    chosen false = (
      behind (inputs p.done) p.view.filled _ bytes xs (whole _) h,
      omega (
        arith,
        n,
        length-append (inputs p.done) p.view.filled,
        length-append (inputs p.done) (p.view.filled ++ (bytes ∷ [])),
        length-append p.view.filled (bytes ∷ []),
        length-append xs (bytes ∷ []),
      ),
    )

inputs-snoc :
    (done : List (List ℕ × Answers)) (input : List ℕ) (a : Answers) (rest : List (List ℕ))
    → inputs done ++ (input ∷ rest) ≡ inputs (done ++ ((input, a) ∷ [])) ++ rest
inputs-snoc [] input a rest = refl
inputs-snoc ((x, b) ∷ done) input a rest = ap (λ xs. x ∷ xs) (inputs-snoc done input a rest)

takes-Accounts :
    (a : Answers) (p : Promise) (xs : List (List ℕ))
    → Accounts xs p
    → Accounts xs (promised (takes a) p)
takes-Accounts a p xs h = chosen (p.view.detached || p.ended)
  where
    waited : (b : Bool) → Accounts xs (taken a p (if b then finished else waits, p.view))
    waited true = h
    waited false = h

    took :
        (filled : List (List ℕ))
        → p.view.filled ≡ filled
        → Accounts xs (taken a p (take_first filled p.view))
    took [] e = waited p.view.poisoned
    took (input ∷ rest) e =
        subst (λ ys. IsSublist ys xs × (length ys + p.lost ≡ length xs))
          (ap (λ ys. inputs p.done ++ ys) e ∙ inputs-snoc p.done input a rest) h

    chosen : (b : Bool) → Accounts xs (if b then p else taken a p (take_first p.view.filled p.view))
    chosen true = h
    chosen false = took p.view.filled refl

completes-Accounts :
    (p : Promise) (xs : List (List ℕ)) → Accounts xs p → Accounts xs (promised completes p)
completes-Accounts p xs h = chosen p.view.detached
  where
    chosen : (b : Bool) → Accounts xs (if b then record p { view = complete p.view } else p)
    chosen true = h
    chosen false = h

-- Of all the buffers that arrive, the thread deals with some, in their order, and the queue holds
-- the last of those; each of the others was overwritten in a full queue.
pub promise-Accounts :
    (es : List Event) (p : Promise) (xs : List (List ℕ))
    → Accounts xs p
    → Accounts (xs ++ arrivals es) (promise es p)
unfolding promise
promise-Accounts [] p xs h = subst (λ ys. Accounts ys p) (sym (append-nil xs)) h
promise-Accounts (arrives bytes ∷ es) p xs h =
    subst (λ ys. Accounts ys (promise es (promised (arrives bytes) p)))
      (append_assoc xs (bytes ∷ []) (arrivals es))
      (promise-Accounts es (promised (arrives bytes) p) (xs ++ (bytes ∷ []))
        (arrives-Accounts bytes p xs h))
promise-Accounts (takes a ∷ es) p xs h =
    promise-Accounts es (promised (takes a) p) xs (takes-Accounts a p xs h)
promise-Accounts (completes ∷ es) p xs h =
    promise-Accounts es (promised completes p) xs (completes-Accounts p xs h)
promise-Accounts (interrupts ∷ es) p xs h = promise-Accounts es (promised interrupts p) xs h

-- With nothing lost, every buffer is handled.
pub handled_all : (p : Promise) (xs : List (List ℕ)) → Accounts xs p → p.lost ≡ 0 → handled p ≡ xs
handled_all p xs (h, n) e = IsSublist-full (handled p) xs h (omega (arith, n, e))

-- Whatever the interleaving of the device's buffers, the thread and its interruption, if the queue
-- starts empty with two buffers or more and every buffer fits: nothing faults; the rounds are those
-- of `callback` over the buffers that the thread took; these and the ones that still wait are among
-- those that arrived, in their order; and each of the others was overwritten by a newer one when the
-- queue was full.
pub run_thread-Accounts :
    (f : Filter) (c : ClientConfig) (size count : ℕ) (q : Queue) (s : f.State) (es : List Event)
    → Represents size count q (starting count).view
    → 2 ≤ count
    → All (Fits size) es
    → let p = promise es (starting count) in
      (w : Thread f) × (run_thread f c es (begun f q s) ≡ ok w)
      × Keeps f c size count s w p
      × Accounts (arrivals es) p
unfolding callback
run_thread-Accounts f c size count q s es r two fits =
    let (w, runs, k) =
      run_thread-Keeps f c size count s es (begun f q s) (starting count)
        (record { represents = r; holds = refl; ended = refl; rounds = refl; filter = refl }) fits
        two in
    (w, runs, k, promise-Accounts es (starting count) [] (nothing, refl))
