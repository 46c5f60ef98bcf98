-- ===== src/Config/Ledger.antt =====
-- src/config.c: what create_server_config allocates and what it frees on each of its ways out, and
-- destroy_server_config.
pub mod Released
use Prim.Native.String.{String}
use sdr_server.Prelude.{
  ℕ, ◌+◌, ◌≡◌, refl, Bool, true, false, not, Option, none, some, List, [], ◌∷◌, ◌++◌, ◌==◌, ◌⊎◌,
  inl, inr, if◌then◌else◌, arith,
}
use sdr_server.Prelude.Int.{pos, ltb_ℤ}
use sdr_server.Config.{
  ServerConfig, Settings, Memory, Error, invalid, no_memory, Outcome, ok, err, fault, ◌>>=◌,
  refuse_if, default,
}
use sdr_server.Config.Loading.{
  config_read_int, read_airspy, read_hackrf, read_msisdr, read_rtl, read_band_sampling_rate,
  read_and_copy_str, or_no_memory, read_optimization, read_service, create_server_config,
}

-- The structure, libconfig's own memory, and the three copied strings.
pub data Block : Type 0 where
  config_struct libconfig serial_copy address_copy path_copy : Block

abbrev tag : Block → ℕ
tag config_struct = 0
tag libconfig = 1
tag serial_copy = 2
tag address_copy = 3
tag path_copy = 4

-- How often a block is in a list.
abbrev pub count : Block → List Block → ℕ
count b [] = 0
count b (x ∷ xs) = (if tag x == tag b then 1 else 0) + count b xs

abbrev pub copy_of : Block → Option String → List Block
copy_of b none = []
copy_of b (some v) = b ∷ []

-- The strings of a `struct server_config`, NULL as `none`.
pub record Strings : Type 0 where
  pub bind_address : Option String
  pub base_path : Option String
  pub device_serial : Option String

unfoldable pub destroy_server_config : Strings → List Block
destroy_server_config c =
    copy_of address_copy c.bind_address
    ++ (copy_of path_copy c.base_path
        ++ (copy_of serial_copy c.device_serial ++ (config_struct ∷ [])))

abbrev pub strings_of : ServerConfig → Strings
strings_of c = record {
  bind_address = some c.bind_address;
  base_path = some c.base_path;
  device_serial = c.device_serial;
}

pub record Ledger : Type 0 where
  pub allocated : List Block
  pub freed : List Block

abbrev pub untouched : Ledger
untouched = record { allocated = []; freed = [] }

-- `config_destroy(&libconfig); free(result);`
abbrev pub plain_exit : List Block → Ledger
plain_exit copies = record {
  allocated = config_struct ∷ libconfig ∷ copies;
  freed = libconfig ∷ config_struct ∷ [];
}

-- `config_destroy(&libconfig); destroy_server_config(result);`
abbrev pub full_exit : Strings → Ledger
full_exit c = record {
  allocated =
      config_struct ∷ libconfig ∷ copy_of serial_copy c.device_serial
      ++ (copy_of address_copy c.bind_address ++ copy_of path_copy c.base_path);
  freed = libconfig ∷ destroy_server_config c;
}

-- A success frees what libconfig holds.
abbrev pub success : Strings → Ledger
success c = record { allocated = (full_exit c).allocated; freed = libconfig ∷ [] }

-- A step that fails ends the function.
abbrev pub after {ℓ} : {A : Type ℓ} → Outcome A → Ledger → (A → Ledger) → Ledger
after (ok a) failed next = next a
after (err why) failed next = failed
after fault failed next = untouched

module _ (s : Settings) (m : Memory) where
  -- From the copies of the strings on. `read_and_copy_str` has no error of its own.
  unfoldable pub strings_ledger : Option String → Ledger
  unfolding config_read_int read_and_copy_str or_no_memory read_optimization destroy_server_config
  strings_ledger serial =
      after (read_and_copy_str m.address (s.find_string "bind_address") (some "127.0.0.1"))
        untouched
        (λ copied. after (or_no_memory copied) (plain_exit (copy_of serial_copy serial)) (λ address.
          let c : Strings = record {
            bind_address = some address;
            base_path = none;
            device_serial = serial;
          } in
          after
            (refuse_if (ltb_ℤ (config_read_int s "read_timeout_seconds" (pos 5)) (pos 1)) invalid)
            (full_exit c)
            (λ done.
              after
                (read_and_copy_str m.path (s.find_string "base_path")
                  (some (default s.tmpdir "/tmp")))
                untouched
                (λ folder. after (or_no_memory folder) (full_exit c) (λ path.
                  let c' = record c { base_path = some path } in
                  after (read_optimization s) (full_exit c') (λ optimization. success c'))))))

  unfoldable pub service_ledger : Ledger
  unfolding strings_ledger read_band_sampling_rate
  service_ledger =
      after (refuse_if (ltb_ℤ (config_read_int s "queue_size" (pos 64)) (pos 1)) invalid)
        (plain_exit [])
        (λ done. after (read_band_sampling_rate s) (plain_exit []) (λ rate.
          after (read_and_copy_str m.serial (s.find_string "device_serial") none) untouched
            strings_ledger))

  unfoldable pub ledger : Ledger
  unfolding service_ledger read_airspy read_hackrf read_msisdr
  ledger = after (refuse_if (not m.config) no_memory) untouched (λ done.
      after (refuse_if (not s.readable) invalid) (plain_exit []) (λ done.
        after (read_airspy s) (plain_exit []) (λ airspy.
          after (read_hackrf s) (plain_exit [])
            (λ hackrf. after (read_msisdr s) (plain_exit []) (λ msisdr. service_ledger)))))
