-- ===== src/Driver.antt =====
-- The receivers' drivers, src/sdr: a driver starts its device by calls of a library, each checked
-- by a macro ERROR_CHECK that cleans up and returns the code. What the library answers is a
-- parameter of the driver.
pub mod Loader
pub mod Plugin
pub mod Handles
pub mod Rtlsdr
pub mod Airspy
pub mod Hackrf
pub mod Msisdr
use sdr_server.Prelude.{ℕ, Bool, true, false, List, [], ◌∷◌, ◌++◌, if◌then◌else◌}
use sdr_server.Prelude.Int.{ℤ}

-- The calls that were made, oldest first, and the code that stopped them, if one did.
pub data Startup (C : Type 0) : Type 0 where
  started : List C → Startup C
  refused : ℤ → List C → Startup C

module _ {C : Type 0} where
  -- ERROR_CHECK on each call in turn. `bad` is the macro's test of a code, `closing` its cleanup,
  -- which may depend on the call that failed, since opening may fail before there is a handle.
  unfoldable pub run_checked : (ℤ → Bool) → (C → List C) → List (C × ℤ) → List C → Startup C
  run_checked bad closing [] log = started log
  run_checked bad closing ((c, code) ∷ cs) log =
      if bad code
      then refused code (log ++ (c ∷ closing c))
      else run_checked bad closing cs (log ++ (c ∷ []))
