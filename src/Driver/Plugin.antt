-- ===== src/Driver/Plugin.antt =====
-- The constructors and destructors of src/sdr/rtlsdr_device.c, src/sdr/airspy_device.c,
-- src/sdr/hackrf_device.c and src/sdr/msisdr_device.c: what they acquire and release.
use sdr_server.Prelude.{◌≡◌, refl, Bool, true, false, not, List, [], ◌∷◌, ◌++◌, if◌then◌else◌}
use sdr_server.Prelude.Int.{ℤ, pos, negsuc, eqb_ℤ}

-- The driver's structure, its buffer, and libhackrf, which has to be initialised.
pub data PluginEvent : Type 0 where
  allocates_device frees_device allocates_output frees_output : PluginEvent
  initialises_library exits_library : PluginEvent

pub data Creation : Type 0 where
  created : List PluginEvent → Creation
  refused : ℤ → List PluginEvent → Creation

unfoldable pub rtlsdr_device_destroy : Bool → List PluginEvent
rtlsdr_device_destroy has_output =
    if has_output then frees_output ∷ frees_device ∷ [] else frees_device ∷ []

unfoldable pub rtlsdr_device_create : (gives_device gives_output : Bool) → Creation
unfolding rtlsdr_device_destroy
rtlsdr_device_create gives_device gives_output =
    if not gives_device
    then refused (negsuc 11) []
    else if not gives_output
    then refused (negsuc 11) (allocates_device ∷ rtlsdr_device_destroy false)
    else created (allocates_device ∷ allocates_output ∷ [])

unfoldable pub airspy_device_create : Bool → Creation
airspy_device_create gives_device =
    if gives_device then created (allocates_device ∷ []) else refused (negsuc 11) []

unfoldable pub airspy_device_destroy : List PluginEvent
airspy_device_destroy = frees_device ∷ []

unfoldable pub hackrf_device_create : ℤ → Bool → Creation
hackrf_device_create init_code gives_device =
    if not (eqb_ℤ init_code (pos 0))
    then refused init_code []
    else if not gives_device
    then refused (negsuc 11) (initialises_library ∷ [])
    else created (initialises_library ∷ allocates_device ∷ [])

unfoldable pub hackrf_device_destroy : List PluginEvent
hackrf_device_destroy = exits_library ∷ frees_device ∷ []

unfoldable pub msisdr_device_create : Bool → Creation
msisdr_device_create gives_device =
    if gives_device then created (allocates_device ∷ []) else refused (negsuc 11) []

unfoldable pub msisdr_device_destroy : List PluginEvent
msisdr_device_destroy = frees_device ∷ []

record Held : Type 0 where
  device : Bool
  output : Bool
  library : Bool

abbrev nothing : Held
nothing = record { device = false; output = false; library = false }

abbrev after : Held → List PluginEvent → Held
after h [] = h
after h (allocates_device ∷ es) = after (record h { device = true }) es
after h (frees_device ∷ es) = after (record h { device = false }) es
after h (allocates_output ∷ es) = after (record h { output = true }) es
after h (frees_output ∷ es) = after (record h { output = false }) es
after h (initialises_library ∷ es) = after (record h { library = true }) es
after h (exits_library ∷ es) = after (record h { library = false }) es

abbrev Balanced : List PluginEvent → Held → Creation → Type 0
Balanced destroy left (created log) = after nothing (log ++ destroy) ≡ nothing
Balanced destroy left (refused code log) = after nothing log ≡ left

rtl-Balanced :
    (d o : Bool) → Balanced (rtlsdr_device_destroy true) nothing (rtlsdr_device_create d o)
unfolding rtlsdr_device_destroy rtlsdr_device_create
rtl-Balanced true true = refl
rtl-Balanced true false = refl
rtl-Balanced false o = refl

airspy-Balanced : (d : Bool) → Balanced airspy_device_destroy nothing (airspy_device_create d)
unfolding airspy_device_destroy airspy_device_create
airspy-Balanced true = refl
airspy-Balanced false = refl

msisdr-Balanced : (d : Bool) → Balanced msisdr_device_destroy nothing (msisdr_device_create d)
unfolding msisdr_device_destroy msisdr_device_create
msisdr-Balanced true = refl
msisdr-Balanced false = refl

hackrf-Balanced :
    (code : ℤ) (d : Bool)
    → Balanced hackrf_device_destroy
        (record nothing { library = eqb_ℤ code (pos 0) })
        (hackrf_device_create code d)
unfolding hackrf_device_destroy hackrf_device_create
hackrf-Balanced code d = go (eqb_ℤ code (pos 0)) d
  where
    go :
        (i e : Bool)
        → Balanced
            (exits_library ∷ frees_device ∷ [])
            (record nothing { library = i })
            (if not i
              then refused code []
              else if not e
              then refused (negsuc 11) (initialises_library ∷ [])
              else created (initialises_library ∷ allocates_device ∷ []))
    go false e = refl
    go true false = refl
    go true true = refl

-- Each driver's destructor releases what its constructor has acquired, and a constructor that is
-- refused leaves nothing, but for libhackrf, which stays initialised if the memory is refused.
drivers-Balanced :
    (gives_device gives_output : Bool) (init_code : ℤ)
    → Balanced (rtlsdr_device_destroy true) nothing (rtlsdr_device_create gives_device gives_output)
      × Balanced airspy_device_destroy nothing (airspy_device_create gives_device)
      × Balanced hackrf_device_destroy
          (record nothing { library = eqb_ℤ init_code (pos 0) })
          (hackrf_device_create init_code gives_device)
      × Balanced msisdr_device_destroy nothing (msisdr_device_create gives_device)
drivers-Balanced gives_device gives_output init_code = (
  rtl-Balanced gives_device gives_output,
  airspy-Balanced gives_device,
  hackrf-Balanced init_code gives_device,
  msisdr-Balanced gives_device,
)
