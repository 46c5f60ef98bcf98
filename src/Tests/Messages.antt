-- ===== src/Tests/Messages.antt =====
-- Messages on a socket, and the configuration file.
use sdr_server.Prelude.{
  ℕ, ◌≡◌, ◌*◌, refl, List, [], ◌∷◌, ◌++◌, none, some, arith, true, false, if◌then◌else◌,
}
use text.Mathlib.Text.{◌==◌ as str_eq}
use sdr_server.Prelude.Int.{pos}
use sdr_server.Wire.{encode_request}
use sdr_server.Socket.{Recv, chunk, interrupted, read_struct, done}
use sdr_server.Socket.Reading.{Fills, read_struct-Fills, payload}
use sdr_server.Config.Ledger.{ledger}
use sdr_server.Config.Ledger.Released.{Accounted, create_server_config-Accounted}
use sdr_server.Config.{ServerConfig, Settings, Memory, ok}
use sdr_server.Config.Loading.{create_server_config}
use sdr_server.Config.Ranges.{InRange, create_server_config-InRange}
use sdr_server.Tests.Data.{request, request_header, server_config}

-- The header and a request, in three pieces, with a signal between them and a byte behind them.
abbrev pieces : List Recv
pieces =
    chunk (0 ∷ [])
    ∷ interrupted
    ∷ chunk (0 ∷ 26 ∷ 12 ∷ 23 ∷ 64 ∷ 0 ∷ 0 ∷ [])
    ∷ chunk (187 ∷ 128 ∷ 26 ∷ 19 ∷ 184 ∷ 96 ∷ 1 ∷ 99 ∷ [])
    ∷ []

message : payload pieces ≡ encode_request request_header request ++ (99 ∷ [])
unfolding encode_request
message = refl

read_struct-Fills_example :
    Fills 3 []
      (chunk (1 ∷ []) ∷ interrupted ∷ chunk (2 ∷ 3 ∷ 4 ∷ []) ∷ [])
      (read_struct 3 [] (chunk (1 ∷ []) ∷ interrupted ∷ chunk (2 ∷ 3 ∷ 4 ∷ []) ∷ []))
read_struct-Fills_example =
    read_struct-Fills 3 [] (chunk (1 ∷ []) ∷ interrupted ∷ chunk (2 ∷ 3 ∷ 4 ∷ []) ∷ [])
      ((λ e. cc), ((λ e. cc), tt)) (omega arith)

three_read :
    (read_struct 3 [] (chunk (1 ∷ []) ∷ chunk (2 ∷ 3 ∷ 4 ∷ []) ∷ [])).0 ≡ done (1 ∷ 2 ∷ 3 ∷ [])
unfolding read_struct
three_read = refl

-- A file that sets the receiver, the rate, its gain and no compression.
abbrev settings : Settings
settings = record {
  Float = ℕ;
  float_zero = 0;
  tenths = λ x. pos (x * 10);
  readable = true;
  find_int = λ n.
      if str_eq n "band_sampling_rate"
      then some (pos 2400000)
      else if str_eq n "gain_mode"
      then some (pos 1)
      else none;
  find_float = λ n. if str_eq n "gain" then some 42 else none;
  find_bool = λ _. none;
  find_string = λ _. none;
  tmpdir = none;
}

abbrev plenty : Memory
plenty = record { config = true; serial = true; address = true; path = true }

abbrev accepted_config : ServerConfig
accepted_config = record server_config { rtl = record server_config.rtl { gain = pos 420 } }

settings_read : create_server_config settings plenty ≡ ok accepted_config
unfolding create_server_config
settings_read = refl

create_server_config-InRange_example : InRange accepted_config
create_server_config-InRange_example =
    create_server_config-InRange settings plenty accepted_config settings_read

-- The serial number is set, and there is no memory for the address.
abbrev with_serial : Settings
with_serial = record settings {
  find_string = λ n. if str_eq n "device_serial" then some (some "00000001") else none;
}

abbrev no_address : Memory
no_address = record plenty { address = false }

create_server_config-Accounted_example :
    Accounted with_serial no_address
      (create_server_config with_serial no_address)
      (ledger with_serial no_address)
create_server_config-Accounted_example = create_server_config-Accounted with_serial no_address
