-- ===== src/Server/Band.antt =====
-- Which requests `validate_client_config` of src/tcp_server.c lets through.
use sdr_server.Prelude.{◌+◌, ◌-◌, ◌/◌, ◌≤◌, ◌<◌, ◌≡◌, ◌≢◌, ◌↔◌, arith, ◌^◌, u32_mod}
use sdr_server.Config.{ServerConfig}
use sdr_server.Server.{ClientConfig, validate_client_config, accepted}

-- No `uint32_t` of the two intervals wraps.
pub record NoWrap (c : ClientConfig) (sc : ServerConfig) : Type 0 where
  pub requested_low : c.sampling_rate / 2 ≤ c.center_freq
  pub requested_high : c.center_freq + c.sampling_rate / 2 < u32_mod
  pub server_low : sc.band_sampling_rate / 2 ≤ c.band_freq
  pub server_high : c.band_freq + sc.band_sampling_rate / 2 < u32_mod

-- The requested interval lies in the server's, as whole numbers.
pub record InBand (c : ClientConfig) (sc : ServerConfig) : Type 0 where
  pub low : c.band_freq + c.sampling_rate / 2 ≤ c.center_freq + sc.band_sampling_rate / 2
  pub high : c.center_freq + c.sampling_rate / 2 ≤ c.band_freq + sc.band_sampling_rate / 2

pub record Complete (c : ClientConfig) : Type 0 where
  pub center : c.center_freq ≢ 0
  pub rate : c.sampling_rate ≢ 0
  pub band : c.band_freq ≢ 0
  pub destination : c.destination ≤ 1

accepts :
    (c : ClientConfig) (sc : ServerConfig)
    → NoWrap c sc
    → Complete c
    → InBand c sc
    → validate_client_config c sc ≡ accepted
unfolding validate_client_config
accepts c sc w k i = ground arith

-- Where no frequency wraps, a request is accepted exactly if its fields are given, its destination
-- is a file or the socket, and its band lies in the server's.
pub validate_client_config-InBand :
    (c : ClientConfig) (sc : ServerConfig)
    → NoWrap c sc
    → (validate_client_config c sc ≡ accepted) ↔ (Complete c × InBand c sc)
unfolding validate_client_config
validate_client_config-InBand c sc w =
    ((λ e. (ground arith, ground arith)), (λ r. accepts c sc w r.0 r.1))

-- A request whose band reaches below 0 Hz wraps to the top of the range, and is accepted although
-- it leaves the server's band, if the server's band starts below 2^31 Hz without wrapping and the
-- request's upper edge lies in it.
pub validate_client_config_wrapped :
    (c : ClientConfig) (sc : ServerConfig)
    → Complete c
    → c.sampling_rate < u32_mod
    → c.center_freq < c.sampling_rate / 2
    → sc.band_sampling_rate / 2 ≤ c.band_freq
    → c.band_freq - sc.band_sampling_rate / 2 < 2 ^ 31
    → c.band_freq + sc.band_sampling_rate / 2 < u32_mod
    → c.center_freq + c.sampling_rate / 2 ≤ c.band_freq + sc.band_sampling_rate / 2
    → (validate_client_config c sc ≡ accepted) × ¬ InBand c sc
unfolding validate_client_config
validate_client_config_wrapped c sc k r l s s' h h' =
    (ground arith, λ (i : InBand c sc). omega (arith, i.low))
