-- ===== src/Driver/Loader/Replay.antt =====
-- src/sdr/*_lib.c: the events of a loader replayed on what they may touch.
use sdr_server.Prelude.{
  ◌≡◌, refl, sym, ap, ◌∙◌, not, append-nil, append_assoc, Bool, true, false, Option, none, some,
  List, [], ◌∷◌, ◌++◌, Bool-cases, inl, inr, All, if◌then◌else◌,
}
use sdr_server.Prelude.Int.{negsuc}
use sdr_server.Driver.Loader.{
  Linker, LoaderEvent, allocates, opens_handle, looks_up, calls, closes_handle, frees, Loading,
  loaded, refused, lib_destroy, setup_functions, lib_create, rtlsdr_functions, airspy_functions,
  hackrf_functions, rtlsdr_lib_create, hackrf_lib_create, airspy_lib_create, announce_version,
  AirspyFunction, RtlFunction, HackrfFunction, airspy_lib_version,
}

pub data Holding : Type 0 where
  nothing_held struct_held library_open : Holding

module _ {F : Type 0} where
  -- A lookup and a call need the open library, which has to be closed before its structure is freed.
  abbrev pub touch : Holding → LoaderEvent F → Option Holding
  touch nothing_held allocates = some struct_held
  touch nothing_held opens_handle = none
  touch nothing_held (looks_up f) = none
  touch nothing_held (calls f) = none
  touch nothing_held closes_handle = none
  touch nothing_held frees = none
  touch struct_held allocates = none
  touch struct_held opens_handle = some library_open
  touch struct_held (looks_up f) = none
  touch struct_held (calls f) = none
  touch struct_held closes_handle = none
  touch struct_held frees = some nothing_held
  touch library_open allocates = none
  touch library_open opens_handle = none
  touch library_open (looks_up f) = some library_open
  touch library_open (calls f) = some library_open
  touch library_open closes_handle = some struct_held
  touch library_open frees = none

  abbrev and_then : List (LoaderEvent F) → Option Holding → Option Holding
  and_then events none = none
  and_then [] (some h) = some h
  and_then (e ∷ es) (some h) = and_then es (touch h e)

  abbrev pub replay : List (LoaderEvent F) → Option Holding
  replay events = and_then events (some nothing_held)

  abbrev pub Found : Linker F → F → Type 0
  Found l f = l.dlsym f ≡ true

  abbrev pub Available : List F → Linker F → Type 0
  Available fs l = (l.gives_struct ≡ true) × (l.opens ≡ true) × All (Found l) fs

  -- A library is open with the functions, and closing it leaves nothing; a refusal leaves nothing.
  abbrev pub Settled : List F → Linker F → Loading F → Type 0
  Settled fs l (loaded lib log) =
      Available fs l
      × (lib.functions ≡ fs)
      × (lib.handle ≡ true)
      × (replay log ≡ some library_open)
      × (replay (log ++ lib_destroy lib) ≡ some nothing_held)
  Settled fs l (refused code log) = ¬ Available fs l × (replay log ≡ some nothing_held)

  and_then-append :
      (xs ys : List (LoaderEvent F)) (h : Option Holding)
      → and_then (xs ++ ys) h ≡ and_then ys (and_then xs h)
  and_then-append [] ys none = refl
  and_then-append [] ys (some h) = refl
  and_then-append (x ∷ xs) ys none = refl
  and_then-append (x ∷ xs) ys (some h) = and_then-append xs ys (touch h x)

  -- What the set-up of functions adds to a library that is open.
  abbrev Adds : List F → Linker F → List F → Loading F → Type 0
  Adds fs l before (loaded lib log) =
      All (Found l) fs
      × (lib.functions ≡ before ++ fs)
      × (lib.handle ≡ true)
      × (replay log ≡ some library_open)
  Adds fs l before (refused code log) = ¬ All (Found l) fs × (replay log ≡ some nothing_held)

  replay_then :
      (xs ys : List (LoaderEvent F)) {h : Holding}
      → replay xs ≡ some h
      → replay (xs ++ ys) ≡ and_then ys (some h)
  replay_then xs ys e = and_then-append xs ys (some nothing_held) ∙ ap (and_then ys) e

  first_found :
      (f : F) (fs before : List F) (l : Linker F) (r : Loading F)
      → l.dlsym f ≡ true
      → Adds fs l (before ++ (f ∷ [])) r
      → Adds (f ∷ fs) l before r
  first_found f fs before l (loaded lib log) d (a, e, h, k) =
      ((d, a), e ∙ append_assoc before (f ∷ []) fs, h, k)
  first_found f fs before l (refused code log) d (n, e) = ((λ a. n a.1), e)

  setup_functions-Adds :
      (fs before : List F) (l : Linker F) (log : List (LoaderEvent F))
      → replay log ≡ some library_open
      → Adds fs l before (setup_functions l fs (record { handle = true; functions = before }) log)
  unfolding setup_functions lib_destroy
  setup_functions-Adds [] before l log e = (tt, sym (append-nil before), refl, e)
  setup_functions-Adds (f ∷ fs) before l log e = elim (Bool-cases (l.dlsym f)) [
    | inl d ↦ rw d (
        first_found f fs before l _ d (
          setup_functions-Adds fs (before ++ (f ∷ [])) l (log ++ (looks_up f ∷ []))
            (replay_then log (looks_up f ∷ []) e)))
    | inr d ↦ rw d ((λ h. cc), replay_then log (looks_up f ∷ closes_handle ∷ frees ∷ []) e)
  ]

  loading_opened :
      (fs : List F) (l : Linker F) (r : Loading F)
      → l.gives_struct ≡ true
      → l.opens ≡ true
      → Adds fs l [] r
      → Settled fs l r
  unfolding lib_destroy
  loading_opened fs l (loaded lib log) g o (a, e, h, k) =
      ((g, o, a), e, h, k, rw h (replay_then log (closes_handle ∷ frees ∷ []) k))
  loading_opened fs l (refused code log) g o (n, e) = ((λ a. n a.2), e)

  -- A library loads exactly if memory is given, the file opens and every function is found. It is
  -- then open with all its functions, and its destruction closes and frees what it holds; a refusal
  -- has closed and freed whatever it had acquired, and no event touches what is not held.
  pub lib_create-Settled : (fs : List F) (l : Linker F) → Settled fs l (lib_create fs l)
  unfolding lib_create lib_destroy
  lib_create-Settled fs l = chosen l.gives_struct l.opens refl refl
    where
      chosen :
          (g o : Bool)
          → l.gives_struct ≡ g
          → l.opens ≡ o
          → Settled fs l (
              if not g
              then refused (negsuc 11) []
              else if not o
              then refused (negsuc 0) (allocates ∷ frees ∷ [])
              else setup_functions l fs
                  (record { handle = true; functions = [] })
                  (allocates ∷ opens_handle ∷ []))
      chosen false o g p = ((λ a. cc), refl)
      chosen true false g p = ((λ a. cc), refl)
      chosen true true g p =
          loading_opened fs l _ g p
            (setup_functions-Adds fs [] l (allocates ∷ opens_handle ∷ []) refl)

-- The Airspy library's version is asked for after everything is found.
announced :
    (fs : List AirspyFunction) (l : Linker AirspyFunction) (r : Loading AirspyFunction)
    → Settled fs l r
    → Settled fs l (announce_version r)
unfolding announce_version lib_destroy
announced fs l (loaded lib log) (a, e, h, k, c) = (
  a,
  e,
  h,
  replay_then log (calls airspy_lib_version ∷ []) k,
  rw h (
      ap replay (append_assoc log (calls airspy_lib_version ∷ []) (closes_handle ∷ frees ∷ []))
      ∙ replay_then log (calls airspy_lib_version ∷ closes_handle ∷ frees ∷ []) k),
)
announced fs l (refused code log) h = h

-- Each of the three loaders of shared libraries succeeds exactly if memory is given, the file opens
-- and every function of the driver is found in it. Its library is then open with all of them, and
-- lib_destroy leaves nothing; a refusal has closed and freed what it had acquired. The library is
-- looked into and called only while it is open.
pub lib_create-Loads :
    (rtl : Linker RtlFunction) (airspy : Linker AirspyFunction) (hackrf : Linker HackrfFunction)
    → Settled rtlsdr_functions rtl (rtlsdr_lib_create rtl)
      × Settled airspy_functions airspy (airspy_lib_create airspy)
      × Settled hackrf_functions hackrf (hackrf_lib_create hackrf)
unfolding rtlsdr_lib_create airspy_lib_create hackrf_lib_create
lib_create-Loads rtl airspy hackrf = (
  lib_create-Settled rtlsdr_functions rtl,
  announced airspy_functions airspy _ (lib_create-Settled airspy_functions airspy),
  lib_create-Settled hackrf_functions hackrf,
)
