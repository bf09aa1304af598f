-- ===== src/Config/Fields.antt =====
-- sw/fw/src/systems/config.rs: the settings, and how a partial update changes them.
use powersupply.Base.{ℕ, ◌≡◌, Bool, true, ◌&&◌, Option, none, some, arith, ◌==◌, unwrap_or}

-- `Millivolts` and `Milliamps` of sw/fw/src/util.rs are u16 behind a name; so is `backoff_ms`.
pub record Settings : Type 0 where
  pub vout_mv : ℕ
  pub iout_ma : ℕ
  pub backoff_ms : ℕ

-- What derive_builder makes of it: each field may be missing.
pub record SettingsBuilder : Type 0 where
  pub vout_mv : Option ℕ
  pub iout_ma : Option ℕ
  pub backoff_ms : Option ℕ

abbrev pub default_settings : Settings
default_settings = record { vout_mv = 9000; iout_ma = 500; backoff_ms = 500 }

unfoldable pub integrate : Settings → SettingsBuilder → Settings
integrate s value = record {
  vout_mv = unwrap_or value.vout_mv s.vout_mv;
  iout_ma = unwrap_or value.iout_ma s.iout_ma;
  backoff_ms = unwrap_or value.backoff_ms s.backoff_ms;
}

-- The derived `==`
unfoldable pub settings_eq : Settings → Settings → Bool
settings_eq a b = a.vout_mv == b.vout_mv && a.iout_ma == b.iout_ma && a.backoff_ms == b.backoff_ms

pub settings_eq_sound : (a b : Settings) → settings_eq a b ≡ true → a ≡ b
unfolding settings_eq
settings_eq_sound a b h = ground arith

pub settings_eq_self : (a : Settings) → settings_eq a a ≡ true
unfolding settings_eq
settings_eq_self a = ground arith

-- One update that does the work of two: the later one's fields, and for those that it leaves out
-- the earlier one's.
abbrev pub or_else : Option ℕ → Option ℕ → Option ℕ
or_else (some x) _ = some x
or_else none y = y

abbrev pub merge : SettingsBuilder → SettingsBuilder → SettingsBuilder
merge a b = record {
  vout_mv = or_else b.vout_mv a.vout_mv;
  iout_ma = or_else b.iout_ma a.iout_ma;
  backoff_ms = or_else b.backoff_ms a.backoff_ms;
}

-- Integrating two updates one after the other is integrating the one that prefers the later's
-- fields; integrating the same update again changes nothing; an update with no field changes nothing.
pub integrate-integrate :
    (s : Settings) (a b : SettingsBuilder)
    → (integrate (integrate s a) b ≡ integrate s (merge a b))
      × (integrate (integrate s a) a ≡ integrate s a)
      × (integrate s (record { vout_mv = none; iout_ma = none; backoff_ms = none }) ≡ s)
unfolding integrate
integrate-integrate s a b = (ground arith, ground arith, ground arith)
