-- ===== src/Driver/Loader.antt =====
-- src/sdr/rtlsdr_lib.c, src/sdr/airspy_lib.c and src/sdr/hackrf_lib.c, which open a shared library
-- and look its functions up, and src/sdr/msisdr_lib.c, whose functions are linked into the program.
pub mod Replay
use sdr_server.Prelude.{Bool, true, false, not, List, [], ◌∷◌, ◌++◌, if◌then◌else◌}
use sdr_server.Prelude.Int.{ℤ, negsuc}

pub data RtlFunction : Type 0 where
  rtlsdr_open rtlsdr_close rtlsdr_set_sample_rate rtlsdr_set_center_freq : RtlFunction
  rtlsdr_set_tuner_gain_mode rtlsdr_get_tuner_gains rtlsdr_set_tuner_gain : RtlFunction
  rtlsdr_set_bias_tee rtlsdr_reset_buffer rtlsdr_read_sync : RtlFunction
  rtlsdr_set_freq_correction rtlsdr_get_index_by_serial : RtlFunction

pub data AirspyFunction : Type 0 where
  airspy_lib_version airspy_open airspy_set_sample_type airspy_close : AirspyFunction
  airspy_set_lna_agc airspy_set_samplerate airspy_set_packing airspy_set_rf_bias : AirspyFunction
  airspy_set_lna_gain airspy_set_mixer_agc airspy_set_vga_gain : AirspyFunction
  airspy_set_mixer_gain airspy_set_linearity_gain airspy_set_sensitivity_gain : AirspyFunction
  airspy_start_rx airspy_set_freq airspy_stop_rx : AirspyFunction

pub data HackrfFunction : Type 0 where
  hackrf_init hackrf_error_name hackrf_version_string_read : HackrfFunction
  hackrf_usb_api_version_read hackrf_set_vga_gain hackrf_set_lna_gain : HackrfFunction
  hackrf_set_amp_enable hackrf_set_freq hackrf_set_baseband_filter_bandwidth : HackrfFunction
  hackrf_set_sample_rate hackrf_start_rx hackrf_stop_rx hackrf_close : HackrfFunction
  hackrf_exit hackrf_open hackrf_open_by_serial hackrf_set_antenna_enable : HackrfFunction

pub data MsisdrFunction : Type 0 where
  msisdr_open msisdr_close msisdr_set_center_freq msisdr_set_sample_rate : MsisdrFunction
  msisdr_set_sample_format msisdr_set_bandwidth msisdr_set_if_freq : MsisdrFunction
  msisdr_set_hw_flavour msisdr_rsp1a_gpio_init msisdr_set_tuner_gain : MsisdrFunction
  msisdr_set_tuner_gain_mode msisdr_get_tuner_gains msisdr_reset_buffer : MsisdrFunction
  msisdr_read_async msisdr_cancel_async : MsisdrFunction

-- What malloc, dlopen and dlsym answer.
pub record Linker (F : Type 0) : Type 0 where
  pub gives_struct : Bool
  pub opens : Bool
  pub dlsym : F → Bool

pub data LoaderEvent (F : Type 0) : Type 0 where
  allocates opens_handle : LoaderEvent F
  looks_up calls : F → LoaderEvent F
  closes_handle frees : LoaderEvent F

-- A library's structure: whether its handle is set, and its functions that are.
pub record Library (F : Type 0) : Type 0 where
  pub handle : Bool
  pub functions : List F

pub data Loading (F : Type 0) : Type 0 where
  loaded : Library F → List (LoaderEvent F) → Loading F
  refused : ℤ → List (LoaderEvent F) → Loading F

module _ {F : Type 0} where
  unfoldable pub lib_destroy : Library F → List (LoaderEvent F)
  lib_destroy lib = if lib.handle then closes_handle ∷ frees ∷ [] else frees ∷ []

  -- SETUP_FUNCTION for each function in turn.
  unfoldable pub setup_functions : Linker F → List F → Library F → List (LoaderEvent F) → Loading F
  unfolding lib_destroy
  setup_functions l [] lib log = loaded lib log
  setup_functions l (f ∷ fs) lib log =
      let found = record lib { functions = lib.functions ++ (f ∷ []) } in
      let rest = setup_functions l fs found (log ++ (looks_up f ∷ [])) in
      if l.dlsym f then rest else refused (negsuc 0) (log ++ (looks_up f ∷ lib_destroy lib))

  -- A loader of a shared library, by the functions that it sets up.
  unfoldable pub lib_create : List F → Linker F → Loading F
  unfolding lib_destroy setup_functions
  lib_create functions l =
      if not l.gives_struct
      then refused (negsuc 11) []
      else if not l.opens
      then refused (negsuc 0) (allocates ∷ lib_destroy (record { handle = false; functions = [] }))
      else setup_functions l functions (record { handle = true; functions = [] })
          (allocates ∷ opens_handle ∷ [])

abbrev pub rtlsdr_functions : List RtlFunction
rtlsdr_functions =
    rtlsdr_open ∷ rtlsdr_close ∷ rtlsdr_set_sample_rate ∷ rtlsdr_set_center_freq
    ∷ rtlsdr_set_tuner_gain_mode ∷ rtlsdr_get_tuner_gains ∷ rtlsdr_set_tuner_gain
    ∷ rtlsdr_set_bias_tee ∷ rtlsdr_reset_buffer ∷ rtlsdr_read_sync ∷ rtlsdr_set_freq_correction
    ∷ rtlsdr_get_index_by_serial ∷ []

abbrev pub airspy_functions : List AirspyFunction
airspy_functions =
    airspy_lib_version ∷ airspy_open ∷ airspy_set_sample_type ∷ airspy_close ∷ airspy_set_lna_agc
    ∷ airspy_set_samplerate ∷ airspy_set_packing ∷ airspy_set_rf_bias ∷ airspy_set_lna_gain
    ∷ airspy_set_mixer_agc ∷ airspy_set_vga_gain ∷ airspy_set_mixer_gain ∷ airspy_set_linearity_gain
    ∷ airspy_set_sensitivity_gain ∷ airspy_start_rx ∷ airspy_set_freq ∷ airspy_stop_rx ∷ []

abbrev pub hackrf_functions : List HackrfFunction
hackrf_functions =
    hackrf_init ∷ hackrf_error_name ∷ hackrf_version_string_read ∷ hackrf_usb_api_version_read
    ∷ hackrf_set_vga_gain ∷ hackrf_set_lna_gain ∷ hackrf_set_amp_enable ∷ hackrf_set_freq
    ∷ hackrf_set_baseband_filter_bandwidth ∷ hackrf_set_sample_rate ∷ hackrf_start_rx
    ∷ hackrf_stop_rx ∷ hackrf_close ∷ hackrf_exit ∷ hackrf_open ∷ hackrf_open_by_serial
    ∷ hackrf_set_antenna_enable ∷ []

abbrev pub msisdr_functions : List MsisdrFunction
msisdr_functions =
    msisdr_open ∷ msisdr_close ∷ msisdr_set_center_freq ∷ msisdr_set_sample_rate
    ∷ msisdr_set_sample_format ∷ msisdr_set_bandwidth ∷ msisdr_set_if_freq ∷ msisdr_set_hw_flavour
    ∷ msisdr_rsp1a_gpio_init ∷ msisdr_set_tuner_gain ∷ msisdr_set_tuner_gain_mode
    ∷ msisdr_get_tuner_gains ∷ msisdr_reset_buffer ∷ msisdr_read_async ∷ msisdr_cancel_async ∷ []

unfoldable pub rtlsdr_lib_create : Linker RtlFunction → Loading RtlFunction
unfolding lib_create
rtlsdr_lib_create l = lib_create rtlsdr_functions l

unfoldable pub hackrf_lib_create : Linker HackrfFunction → Loading HackrfFunction
unfolding lib_create
hackrf_lib_create l = lib_create hackrf_functions l

announce_version : Loading AirspyFunction → Loading AirspyFunction
announce_version (loaded lib log) = loaded lib (log ++ (calls airspy_lib_version ∷ []))
announce_version (refused code log) = refused code log

-- The version is asked for and printed behind the set-up.
unfoldable pub airspy_lib_create : Linker AirspyFunction → Loading AirspyFunction
unfolding announce_version lib_create
airspy_lib_create l = announce_version (lib_create airspy_functions l)

-- Only malloc can fail.
unfoldable pub msisdr_lib_create : Bool → Loading MsisdrFunction
msisdr_lib_create gives_struct =
    if gives_struct
    then loaded (record { handle = false; functions = msisdr_functions }) (allocates ∷ [])
    else refused (negsuc 11) []
