-- ===== src/Driver/Msisdr/Reading.antt =====
-- src/sdr/msisdr_device.c, msisdr_rx_thread_fn, msisdr_async_callback and msisdr_device_stop_rx: the
-- thread inside msisdr_read_async, and the stop that runs beside it.
use sdr_server.Prelude.{
  ℕ, ◌+◌, ◌≡◌, ◌≢◌, ◌∙◌, refl, sym, subst, Bool, true, false, if◌then◌else◌, arith,
}

-- Where the thread is: before its call of msisdr_read_async, inside it, in msisdr_async_callback
-- behind the test of `running`, or behind its call.
pub data Reader : Type 0 where
  starting inside passed ended : Reader

-- What the stop does next, and its return.
pub data Stopper : Type 0 where
  clears_running cancels joins closes returned : Stopper

-- `handle` says whether `device->dev` is open, and not NULL.
pub record Receiver : Type 0 where
  pub running : Bool
  pub handle : Bool
  pub reader : Reader
  pub stopper : Stopper
  pub delivered : ℕ

-- `msisdr_async_callback`: the test, and the hand-on behind it.
unfoldable pub tests_running : Receiver → Receiver
tests_running r = record r { reader = if r.running then passed else inside }

unfoldable pub hands_on : Receiver → Receiver
hands_on r = record r { reader = inside; delivered = r.delivered + 1 }

pub data Step (r u : Receiver) : Type 0 where
  enters : r.reader ≡ starting → u ≡ record r { reader = inside } → Step r u
  calls_back : r.reader ≡ inside → u ≡ tests_running r → Step r u
  delivers : r.reader ≡ passed → u ≡ hands_on r → Step r u
  -- The call is cancelled, or fails.
  leaves : r.reader ≡ inside → u ≡ record r { reader = ended } → Step r u
  clearing :
      r.stopper ≡ clears_running → u ≡ record r { running = false; stopper = cancels } → Step r u
  cancelling : r.stopper ≡ cancels → u ≡ record r { stopper = joins } → Step r u
  joining : r.stopper ≡ joins → r.reader ≡ ended → u ≡ record r { stopper = closes } → Step r u
  closing : r.stopper ≡ closes → u ≡ record r { handle = false; stopper = returned } → Step r u

pub data Reach (r : Receiver) : Receiver → Type 0 where
  here : Reach r r
  next : {u v : Receiver} → Reach r u → Step u v → Reach r v

-- A device that has been started: `running` is set before its thread is created.
abbrev pub begun : Receiver
begun = record {
  running = true;
  handle = true;
  reader = starting;
  stopper = clears_running;
  delivered = 0;
}

-- The handle is closed by a stop that has seen the end of the thread, and no sooner.
abbrev Follows : Stopper → Bool → Bool → Reader → Type 0
Follows clears_running running h r = h ≡ true
Follows cancels running h r = (h ≡ true) × (running ≡ false)
Follows joins running h r = (h ≡ true) × (running ≡ false)
Follows closes running h r = (h ≡ true) × (running ≡ false) × (r ≡ ended)
Follows returned running h r = (h ≡ false) × (running ≡ false) × (r ≡ ended)

abbrev Sound : Receiver → Type 0
Sound r = Follows r.stopper r.running r.handle r.reader

moves :
    (s : Stopper) (b h : Bool) (r t v : Reader)
    → r ≡ v
    → v ≢ ended
    → Follows s b h r
    → Follows s b h t
moves clears_running b h r t v e n f = f
moves cancels b h r t v e n f = f
moves joins b h r t v e n f = f
moves closes b h r t v e n f = absurd (n (sym e ∙ f.2))
moves returned b h r t v e n f = absurd (n (sym e ∙ f.2))

clears : (b h : Bool) (r : Reader) → Follows clears_running b h r → Follows cancels false h r
clears b h r v = (v, refl)

Step-Sound : (r u : Receiver) → Step r u → Sound r → Sound u
unfolding tests_running hands_on
Step-Sound r u (enters p e) v =
    rw e (moves r.stopper r.running r.handle r.reader inside starting p (λ h. cc) v)
Step-Sound r u (calls_back p e) v = rw e (
    moves r.stopper r.running r.handle r.reader (if r.running then passed else inside) inside p
      (λ h. cc) v)
Step-Sound r u (delivers p e) v =
    rw e (moves r.stopper r.running r.handle r.reader inside passed p (λ h. cc) v)
Step-Sound r u (leaves p e) v =
    rw e (moves r.stopper r.running r.handle r.reader ended inside p (λ h. cc) v)
Step-Sound r u (clearing p e) v =
    rw e (subst (λ s. Follows s r.running r.handle r.reader) p v, refl)
Step-Sound r u (cancelling p e) v = rw e (subst (λ s. Follows s r.running r.handle r.reader) p v)
Step-Sound r u (joining p q e) v =
    let f = subst (λ s. Follows s r.running r.handle r.reader) p v in rw e (f.0, f.1, q)
Step-Sound r u (closing p e) v =
    let f = subst (λ s. Follows s r.running r.handle r.reader) p v in rw e (refl, f.1, f.2)

Reach-Sound : (r : Receiver) → Reach begun r → Sound r
Reach-Sound r here = refl
Reach-Sound r (next {u} s t) = Step-Sound u r t (Reach-Sound u s)

-- A buffer whose test has passed is still to be handed on.
abbrev pub on_its_way : Reader → ℕ
on_its_way starting = 0
on_its_way inside = 0
on_its_way passed = 1
on_its_way ended = 0

abbrev pub promised : Receiver → ℕ
promised r = r.delivered + on_its_way r.reader

-- Behind the stop's first store no further test passes.
abbrev Silent : Receiver → Receiver → Type 0
Silent r u = (u.running ≡ false) × (promised u ≡ promised r)

Step-Silent : (r u : Receiver) → Step r u → r.running ≡ false → Silent r u
unfolding tests_running hands_on
Step-Silent r u (enters p e) n = rw (e, p) (n, refl)
Step-Silent r u (calls_back p e) n = rw (e, n, p) (refl, refl)
Step-Silent r u (delivers p e) n = rw (e, p) (n, omega arith)
Step-Silent r u (leaves p e) n = rw (e, p) (n, refl)
Step-Silent r u (clearing p e) n = rw e (refl, refl)
Step-Silent r u (cancelling p e) n = rw e (n, refl)
Step-Silent r u (joining p q e) n = rw e (n, refl)
Step-Silent r u (closing p e) n = rw e (n, refl)

Reach-Silent : (r u : Receiver) → Reach r u → r.running ≡ false → Silent r u
Reach-Silent r u here n = (n, refl)
Reach-Silent r u (next {u = w} s t) n =
    let before = Reach-Silent r w s n in
    let after = Step-Silent w u t before.0 in (after.0, after.1 ∙ before.1)

handle_open : (s : Stopper) (b h : Bool) (r : Reader) → Follows s b h r → r ≢ ended → h ≡ true
handle_open clears_running b h r v n = v
handle_open cancels b h r v n = v.0
handle_open joins b h r v n = v.0
handle_open closes b h r v n = v.0
handle_open returned b h r v n = absurd (n v.2)

cleared : (s : Stopper) (b h : Bool) (r : Reader) → Follows s b h r → s ≢ clears_running → b ≡ false
cleared clears_running b h r v n = absurd (n refl)
cleared cancels b h r v n = v.1
cleared joins b h r v n = v.1
cleared closes b h r v n = v.1
cleared returned b h r v n = v.1

abbrev pub Guarded : Receiver → Type 0
Guarded r =
    (r.reader ≢ ended → r.handle ≡ true)
    × (r.stopper ≢ clears_running → (u : Receiver) → Reach r u → promised u ≡ promised r)
    × (r.stopper ≡ returned → (r.reader ≡ ended) × (r.handle ≡ false))

-- In every interleaving of a started receiver's thread with the stop: the handle is open while the
-- thread has not ended; from the stop's first store on no buffer is handed on but the one, if any,
-- whose test of `running` came before; and when the stop returns, the thread has ended and the
-- handle is closed.
pub msisdr_device_stop_rx-Guarded : (r : Receiver) → Reach begun r → Guarded r
msisdr_device_stop_rx-Guarded r h =
    let v = Reach-Sound r h in
    (
      handle_open r.stopper r.running r.handle r.reader v,
      (λ n u s. (Reach-Silent r u s (cleared r.stopper r.running r.handle r.reader v n)).1),
      (λ s. let f = subst (λ t. Follows t r.running r.handle r.reader) s v in (f.2, f.0)),
    )
