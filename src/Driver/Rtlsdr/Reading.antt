-- ===== src/Driver/Rtlsdr/Reading.antt =====
-- src/sdr/rtlsdr_device.c, rtlsdr_callback and rtlsdr_device_stop_rx: the thread that reads the
-- device, and the stop that runs beside it.
use sdr_server.Prelude.{ℕ, ◌+◌, ◌≡◌, ◌≢◌, ◌∙◌, refl, sym, subst, Bool, true, false}

-- `device->dev`: an open device, one that has been closed, or NULL.
pub data Handle : Type 0 where
  opened closed null : Handle

-- Where the reading thread is: before it sets `running`, before it tests it, before it calls
-- rtlsdr_read_sync, or at its end.
pub data Reader : Type 0 where
  starting testing entering ended : Reader

-- What the stop does next, and its return.
pub data Stopper : Type 0 where
  clears_running closes clears_dev joins returned : Stopper

pub record Receiver : Type 0 where
  pub running : Bool
  pub handle : Handle
  pub reader : Reader
  pub stopper : Stopper
  pub delivered : ℕ

pub data Step (r u : Receiver) : Type 0 where
  sets_running : r.reader ≡ starting → u ≡ record r { running = true; reader = testing } → Step r u
  goes_on : r.reader ≡ testing → r.running ≡ true → u ≡ record r { reader = entering } → Step r u
  leaves : r.reader ≡ testing → r.running ≡ false → u ≡ record r { reader = ended } → Step r u
  -- rtlsdr_read_sync answers 0, and its buffer is handed on; or it fails.
  reads :
      r.reader ≡ entering
      → u ≡ record r { reader = testing; delivered = r.delivered + 1 }
      → Step r u
  fails : r.reader ≡ entering → u ≡ record r { reader = ended } → Step r u
  clearing :
      r.stopper ≡ clears_running → u ≡ record r { running = false; stopper = closes } → Step r u
  closing : r.stopper ≡ closes → u ≡ record r { handle = closed; stopper = clears_dev } → Step r u
  nulling : r.stopper ≡ clears_dev → u ≡ record r { handle = null; stopper = joins } → Step r u
  joining : r.stopper ≡ joins → r.reader ≡ ended → u ≡ record r { stopper = returned } → Step r u

pub data Reach (r : Receiver) : Receiver → Type 0 where
  here : Reach r r
  next : {u v : Receiver} → Reach r u → Step u v → Reach r v

-- A device that has been started: its thread was created. The flag is as the last reception left
-- it.
abbrev pub begun : Bool → Receiver
begun running = record {
  running = running;
  handle = opened;
  reader = starting;
  stopper = clears_running;
  delivered = 0;
}

-- The handle follows the stop, and a stop that has returned has seen the end of the thread.
abbrev Follows : Stopper → Handle → Reader → Type 0
Follows clears_running h r = h ≡ opened
Follows closes h r = h ≡ opened
Follows clears_dev h r = h ≡ closed
Follows joins h r = h ≡ null
Follows returned h r = (h ≡ null) × (r ≡ ended)

abbrev Sound : Receiver → Type 0
Sound r = Follows r.stopper r.handle r.reader

moves :
    (s : Stopper) (h : Handle) (r t v : Reader) → r ≡ v → v ≢ ended → Follows s h r → Follows s h t
moves clears_running h r t v e n f = f
moves closes h r t v e n f = f
moves clears_dev h r t v e n f = f
moves joins h r t v e n f = f
moves returned h r t v e n f = absurd (n (sym e ∙ f.1))

Step-Sound : (r u : Receiver) → Step r u → Sound r → Sound u
Step-Sound r u (sets_running p e) v =
    rw e (moves r.stopper r.handle r.reader testing starting p (λ h. cc) v)
Step-Sound r u (goes_on p q e) v =
    rw e (moves r.stopper r.handle r.reader entering testing p (λ h. cc) v)
Step-Sound r u (leaves p q e) v =
    rw e (moves r.stopper r.handle r.reader ended testing p (λ h. cc) v)
Step-Sound r u (reads p e) v =
    rw e (moves r.stopper r.handle r.reader testing entering p (λ h. cc) v)
Step-Sound r u (fails p e) v = rw e (moves r.stopper r.handle r.reader ended entering p (λ h. cc) v)
Step-Sound r u (clearing p e) v = rw e (subst (λ s. Follows s r.handle r.reader) p v)
Step-Sound r u (closing p e) v = rw e refl
Step-Sound r u (nulling p e) v = rw e refl
Step-Sound r u (joining p q e) v = rw e (subst (λ s. Follows s r.handle r.reader) p v, q)

Reach-Sound : (b : Bool) (r : Receiver) → Reach (begun b) r → Sound r
Reach-Sound b r here = refl
Reach-Sound b r (next {u} s t) = Step-Sound u r t (Reach-Sound b u s)

still : (r u : Receiver) → r.stopper ≡ returned → r.reader ≡ ended → ¬ Step r u
still r u s e (sets_running p d) = cc
still r u s e (goes_on p q d) = cc
still r u s e (leaves p q d) = cc
still r u s e (reads p d) = cc
still r u s e (fails p d) = cc
still r u s e (clearing p d) = cc
still r u s e (closing p d) = cc
still r u s e (nulling p d) = cc
still r u s e (joining p q d) = cc

-- The thread is about to read from a handle that has been closed.
abbrev pub ReadsClosed : Receiver → Type 0
ReadsClosed r = (u : Receiver) × Reach r u × (u.reader ≡ entering) × (u.handle ≡ closed)

abbrev pub Over : Receiver → Type 0
Over r = (r.reader ≡ ended) × (r.handle ≡ null) × ((u : Receiver) → ¬ Step r u)

closed_under : (r : Receiver) → r.stopper ≡ clears_running → r.reader ≡ entering → ReadsClosed r
closed_under r s e = (_, next (next here (clearing s refl)) (closing refl refl), e, refl)

-- In every interleaving of a started device's thread with the stop: when the stop returns, the
-- thread has ended, the handle is NULL, and nothing more happens, so no buffer is handed on. But if
-- the thread has made its test and the stop then begins, the thread can read from a closed handle.
pub rtlsdr_device_stop_rx-Over :
    (b : Bool) (r : Receiver)
    → Reach (begun b) r
    → (r.stopper ≡ returned → Over r)
      × (r.stopper ≡ clears_running → r.reader ≡ entering → ReadsClosed r)
rtlsdr_device_stop_rx-Over b r h = (
  (λ s.
      let v = subst (λ t. Follows t r.handle r.reader) s (Reach-Sound b r h) in
      (v.1, v.0, λ u. still r u s v.1)),
  closed_under r,
)
