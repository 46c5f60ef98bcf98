-- ===== src/Config/Ledger/Released.antt =====
-- src/config.c: what create_server_config has allocated is freed, but for one copy of a string.
use Prim.Native.String.{String}
use sdr_server.Prelude.{◌≡◌, refl, subst, not, Option, none, some, [], ◌∷◌, ◌++◌, arith}
use sdr_server.Prelude.Int.{ℤ, pos, ltb_ℤ}
use sdr_server.Config.{
  ServerConfig, Settings, Memory, Error, invalid, no_memory, Outcome, ok, err, fault, ◌>>=◌,
  refuse_if, default, RtlSettings, AirspySettings, HackrfSettings, MsisdrSettings,
}
use sdr_server.Config.Loading.{
  config_read_int, read_airspy, read_hackrf, read_msisdr, read_rtl, read_band_sampling_rate,
  read_and_copy_str, or_no_memory, read_optimization, read_service, create_server_config,
}
use sdr_server.Config.Ledger.{
  Block, copy_of, serial_copy, count, Strings, destroy_server_config, strings_of, Ledger, untouched,
  plain_exit, full_exit, success, after, strings_ledger, service_ledger, ledger,
}

abbrev copies : String → Option String → Option String → Strings
copies address path serial = record {
  bind_address = some address;
  base_path = path;
  device_serial = serial;
}

module _ (s : Settings) (m : Memory) where
  abbrev pub Balanced : Ledger → Type 0
  Balanced l = (b : Block) → count b l.allocated ≡ count b l.freed

  abbrev pub address_read : Outcome (Option String)
  address_read = read_and_copy_str m.address (s.find_string "bind_address") (some "127.0.0.1")

  -- What was allocated is freed, or on a success belongs to the configuration. The copy of the
  -- serial number is lost when there is no memory for that of the address.
  pub data Accounted : Outcome ServerConfig → Ledger → Type 0 where
    kept :
        (c : ServerConfig) (l : Ledger)
        → ((b : Block)
            → count b l.allocated ≡ count b (l.freed ++ destroy_server_config (strings_of c)))
        → Accounted (ok c) l
    released : (why : Error) (l : Ledger) → Balanced l → Accounted (err why) l
    loses_serial :
        (l : Ledger)
        → address_read ≡ ok none
        → ((b : Block) → count b l.allocated ≡ count b (serial_copy ∷ l.freed))
        → Accounted (err no_memory) l
    died : (l : Ledger) → Accounted fault l

  step-Accounted {ℓ} :
      {A : Type ℓ} {o : Outcome A} {next : A → Outcome ServerConfig} {failed : Ledger}
      {then : A → Ledger}
      → ((why : Error) → o ≡ err why → Accounted (err why) failed)
      → ((a : A) → o ≡ ok a → Accounted (next a) (then a))
      → Accounted (o >>= next) (after o failed then)
  step-Accounted {o = ok a} h h' = h' a refl
  step-Accounted {o = err why} h h' = h why refl
  step-Accounted {o = fault} h h' = died untouched

  plain_exit-Balanced : Balanced (plain_exit [])
  plain_exit-Balanced b = ground arith

  full_exit-Balanced : (c : Strings) → Balanced (full_exit c)
  unfolding destroy_server_config
  full_exit-Balanced c b = ground arith

  nothing_left :
      {A : Type 0} {o : Outcome A} (why : Error) → o ≡ err why → Accounted (err why) untouched
  nothing_left why e = released why untouched (λ b. refl)

  plainly :
      {A : Type 0} {o : Outcome A} (why : Error) → o ≡ err why → Accounted (err why) (plain_exit [])
  plainly why e = released why (plain_exit []) plain_exit-Balanced

  fully :
      {A : Type 0} {o : Outcome A} (c : Strings) (why : Error)
      → o ≡ err why
      → Accounted (err why) (full_exit c)
  fully c why e = released why (full_exit c) (full_exit-Balanced c)

  no_address :
      (copied serial : Option String)
      → address_read ≡ ok copied
      → (why : Error) → or_no_memory copied ≡ err why
      → Accounted (err why) (plain_exit (copy_of serial_copy serial))
  unfolding or_no_memory
  no_address none none r why e = released why (plain_exit []) plain_exit-Balanced
  no_address none (some v) r why e =
      subst (λ why. Accounted (err why) (plain_exit (serial_copy ∷ []))) (reason e)
        (loses_serial (plain_exit (serial_copy ∷ [])) r (λ b. ground arith))
    where
      reason : {why : Error} → ◌≡◌ {A = Outcome String} (err no_memory) (err why) → no_memory ≡ why
      reason e = cc
  no_address (some v) serial r why e = absurd cc

  succeeded : (c : ServerConfig) → Accounted (ok c) (success (strings_of c))
  unfolding destroy_server_config
  succeeded c = kept c (success (strings_of c)) (λ b. ground arith)

  read_service-Accounted :
      (kind : ℤ) (r : RtlSettings) (a : AirspySettings) (h : HackrfSettings) (o : MsisdrSettings)
      → Accounted (read_service s m kind r a h o) (service_ledger s m)
  unfolding read_service service_ledger strings_ledger
  read_service-Accounted kind r a h o =
      step-Accounted
        {o = refuse_if (ltb_ℤ (config_read_int s "queue_size" (pos 64)) (pos 1)) invalid} plainly
        (λ done e. step-Accounted {o = read_band_sampling_rate s} plainly (λ rate e.
          step-Accounted {o = read_and_copy_str m.serial (s.find_string "device_serial") none}
            nothing_left
            (λ serial e. step-Accounted {o = address_read} nothing_left (λ copied read.
              step-Accounted {o = or_no_memory copied} (no_address copied serial read) (λ address e.
                step-Accounted
                  {o = refuse_if (ltb_ℤ (config_read_int s "read_timeout_seconds" (pos 5)) (pos 1))
                    invalid}
                  (fully (copies address none serial))
                  (λ done e.
                    step-Accounted
                      {o = read_and_copy_str m.path (s.find_string "base_path")
                        (some (default s.tmpdir "/tmp"))}
                      nothing_left
                      (λ folder e.
                        step-Accounted {o = or_no_memory folder}
                          (fully (copies address none serial))
                          (λ path e.
                            step-Accounted {o = read_optimization s}
                              (fully (copies address (some path) serial))
                              (λ optimization e. succeeded _)))))))))

  -- On every way out of `create_server_config`, what it allocated is freed once, and on a success
  -- `destroy_server_config` frees the rest; only when there is no memory for the address is the copy
  -- of the serial number lost. A process that dies in strlen or strcmp is left out.
  pub create_server_config-Accounted : Accounted (create_server_config s m) (ledger s m)
  unfolding create_server_config ledger
  create_server_config-Accounted =
      step-Accounted {o = refuse_if (not m.config) no_memory} nothing_left (λ done e.
        step-Accounted {o = refuse_if (not s.readable) invalid} plainly (λ done e.
          step-Accounted {o = read_airspy s} plainly (λ a e.
            step-Accounted {o = read_hackrf s} plainly (λ h e.
              step-Accounted {o = read_msisdr s} plainly (λ o e.
                read_service-Accounted (config_read_int s "sdr_type" (pos 0)) (read_rtl s) a h
                  o)))))
