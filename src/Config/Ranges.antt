-- ===== src/Config/Ranges.antt =====
-- What `create_server_config` of src/config.c guarantees of the values that it accepts.
use sdr_server.Prelude.{◌≡◌, sym, ap, ◌∙◌, not, arith}
use sdr_server.Prelude.Int.{ℤ, pos, ◌≤ℤ◌}
use sdr_server.Config.{
  Settings, Memory, ok, refuse_if, no_memory, invalid, >>=-eq-ok, ServerConfig, AirspySettings,
  HackrfSettings, MsisdrSettings, RtlSettings, sdr_type_airspy,
}
use sdr_server.Config.Loading.{
  read_airspy, read_hackrf, read_msisdr, read_service, create_server_config, read_rtl,
  read_buffer_size,
}

abbrev pub Between : ℤ → ℤ → ℤ → Type 0
Between lo hi v = (lo ≤ℤ v) × (v ≤ℤ hi)

pub record AirspyInRange (a : AirspySettings) : Type 0 where
  pub vga : Between (pos 0) (pos 15) a.vga_gain
  pub mixer : Between (pos 0) (pos 15) a.mixer_gain
  pub lna : Between (pos 0) (pos 14) a.lna_gain
  pub linearity : Between (pos 0) (pos 21) a.linearity_gain
  pub sensitivity : Between (pos 0) (pos 21) a.sensitivity_gain

pub record HackrfInRange (h : HackrfSettings) : Type 0 where
  pub amp : h.amp ≤ℤ pos 1
  pub lna : Between (pos 0) (pos 40) h.lna_gain
  pub vga : Between (pos 0) (pos 62) h.vga_gain

pub record InRange (c : ServerConfig) : Type 0 where
  pub airspy : AirspyInRange c.airspy
  pub hackrf : HackrfInRange c.hackrf
  pub msisdr : Between (pos 0) (pos 102) c.msisdr.gain
  pub queue : pos 1 ≤ℤ c.queue_size
  pub timeout : pos 1 ≤ℤ c.read_timeout_seconds
  pub buffer : c.sdr_type ≡ sdr_type_airspy → c.buffer_size ≡ 262144

module _ (s : Settings) where
  read_airspy-InRange : (a : AirspySettings) → read_airspy s ≡ ok a → AirspyInRange a
  unfolding read_airspy
  read_airspy-InRange a e = ground arith

  read_hackrf-InRange : (h : HackrfSettings) → read_hackrf s ≡ ok h → HackrfInRange h
  unfolding read_hackrf
  read_hackrf-InRange h e = ground arith

  read_msisdr-InRange :
      (m : MsisdrSettings) → read_msisdr s ≡ ok m → Between (pos 0) (pos 102) m.gain
  unfolding read_msisdr
  read_msisdr-InRange m e = ground arith

  read_buffer_size-airspy : read_buffer_size s sdr_type_airspy ≡ 262144
  unfolding read_buffer_size
  read_buffer_size-airspy = ground arith

  -- What the second part checks, and what it passes on unchanged.
  record Serviced (kind : ℤ) (r : RtlSettings) (a : AirspySettings) (h : HackrfSettings)
      (m : MsisdrSettings) (c : ServerConfig) : Type 0 where
    same_kind : c.sdr_type ≡ kind
    same_airspy : c.airspy ≡ a
    same_hackrf : c.hackrf ≡ h
    same_msisdr : c.msisdr ≡ m
    buffer_read : c.buffer_size ≡ read_buffer_size s kind
    queue_checked : pos 1 ≤ℤ c.queue_size
    timeout_checked : pos 1 ≤ℤ c.read_timeout_seconds

  read_service-Serviced :
      (mem : Memory) (kind : ℤ) (r : RtlSettings) (a : AirspySettings) (h : HackrfSettings)
      (m : MsisdrSettings) (c : ServerConfig)
      → read_service s mem kind r a h m ≡ ok c
      → Serviced kind r a h m c
  unfolding read_service
  read_service-Serviced mem kind r a h m c e = ground arith

  gather :
      {kind : ℤ} {r : RtlSettings} (a : AirspySettings) (h : HackrfSettings) (m : MsisdrSettings)
      (c : ServerConfig)
      → read_airspy s ≡ ok a
      → read_hackrf s ≡ ok h
      → read_msisdr s ≡ ok m
      → Serviced kind r a h m c
      → InRange c
  gather a h m c ha hh hm v = record {
    airspy = rw v.same_airspy (read_airspy-InRange a ha);
    hackrf = rw v.same_hackrf (read_hackrf-InRange h hh);
    msisdr = rw v.same_msisdr (read_msisdr-InRange m hm);
    queue = v.queue_checked;
    timeout = v.timeout_checked;
    buffer = λ k.
        v.buffer_read ∙ ap (read_buffer_size s) (sym v.same_kind ∙ k) ∙ read_buffer_size-airspy;
  }

  -- An accepted configuration has the gains of an Airspy, a HackRF and an MSi receiver in the ranges
  -- of their hardware (a HackRF's amp setting is bounded by 1 from above only, and an RTL gain is not
  -- checked), at least one buffer in a client's queue, a positive read timeout, and the one buffer
  -- size of Airspy on an Airspy.
  pub create_server_config-InRange :
      (mem : Memory) (c : ServerConfig) → create_server_config s mem ≡ ok c → InRange c
  unfolding create_server_config
  create_server_config-InRange mem c e =
      let (u, e₀, e₁) = >>=-eq-ok (refuse_if (not mem.config) no_memory) _ e in
      let (v, e₂, e₃) = >>=-eq-ok (refuse_if (not s.readable) invalid) _ e₁ in
      let (a, ha, e₄) = >>=-eq-ok (read_airspy s) _ e₃ in
      let (h, hh, e₅) = >>=-eq-ok (read_hackrf s) _ e₄ in
      let (m, hm, e₆) = >>=-eq-ok (read_msisdr s) _ e₅ in
      gather a h m c ha hh hm (read_service-Serviced mem _ (read_rtl s) a h m c e₆)
