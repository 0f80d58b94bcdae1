-- ===== src/Config/Defaults.antt =====
-- What `Defaults` of config.go establishes.
use codex_monitor_group.Base.{◌≡◌, ◌≢◌, refl, String, false, arith, ℕ}
use codex_monitor_group.Base.Int.{ℤ, pos, ◌≤ℤ◌}
use codex_monitor_group.Config.{Config, defaults, is_empty, or_text, or_int, at_least, or_one}

or_text_present : (s d : String) → is_empty d ≡ false → is_empty (or_text s d) ≡ false
unfolding or_text
or_text_present s d h = ground arith

or_text_keeps : (s d : String) → is_empty s ≡ false → or_text s d ≡ s
unfolding or_text
or_text_keeps s d h = ground arith

or_int-ne : (n : ℤ) (d : ℕ) → d ≢ 0 → or_int n d ≢ pos 0
unfolding or_int
or_int-ne n d h = ground arith

or_int_keeps : (n : ℤ) (d : ℕ) → n ≢ pos 0 → or_int n d ≡ n
unfolding or_int
or_int_keeps n d h = ground arith

at_least-le : (low : ℕ) (n : ℤ) → pos low ≤ℤ at_least low n
unfolding at_least
at_least-le low n = ground arith

at_least_keeps : (low : ℕ) (n : ℤ) → pos low ≤ℤ n → at_least low n ≡ n
unfolding at_least
at_least_keeps low n h = ground arith

or_one-ne : (n : ℕ) → or_one n ≢ 0
unfolding or_one
or_one-ne n = ground arith

pub or_one_keeps : (n : ℕ) → n ≢ 0 → or_one n ≡ n
unfolding or_one
or_one_keeps n h = ground arith

-- A configuration with no setting missing.
pub record IsReady (c : Config) : Type 0 where
  pub heartbeat : c.heartbeat_seconds ≢ pos 0
  pub usage : c.usage_seconds ≢ pos 0
  pub integrity : pos 300 ≤ℤ c.integrity_seconds
  pub retention : c.retention_days ≢ pos 0
  pub timezone : is_empty c.timezone ≡ false
  pub codex_path : is_empty c.codex_path ≡ false
  pub sequence : c.next_sequence ≢ 0
  pub otel_listen : is_empty c.otel_listen ≡ false

pub ready : (c : Config) → IsReady (defaults c)
unfolding defaults
ready c = record {
  heartbeat = or_int-ne c.heartbeat_seconds 60 (omega arith);
  usage = or_int-ne c.usage_seconds 300 (omega arith);
  integrity = at_least-le 300 c.integrity_seconds;
  retention = or_int-ne c.retention_days 30 (omega arith);
  timezone = or_text_present c.timezone "UTC" refl;
  codex_path = or_text_present c.codex_path "codex" refl;
  sequence = or_one-ne c.next_sequence;
  otel_listen = or_text_present c.otel_listen "127.0.0.1:9464" refl;
}

pub defaults_keeps : (c : Config) → IsReady c → defaults c ≡ c
unfolding defaults
defaults_keeps c h = rw (
  or_int_keeps c.heartbeat_seconds 60 h.heartbeat,
  or_int_keeps c.usage_seconds 300 h.usage,
  at_least_keeps 300 c.integrity_seconds h.integrity,
  or_int_keeps c.retention_days 30 h.retention,
  or_text_keeps c.timezone "UTC" h.timezone,
  or_text_keeps c.codex_path "codex" h.codex_path,
  or_one_keeps c.next_sequence h.sequence,
  or_text_keeps c.otel_listen "127.0.0.1:9464" h.otel_listen,
)

-- What a file that names none of the settings comes to.
abbrev pub IsUnset : Config → Type 0
IsUnset c =
    (c.heartbeat_seconds ≡ pos 0)
    × (c.usage_seconds ≡ pos 0)
    × (c.integrity_seconds ≡ pos 0)
    × (c.retention_days ≡ pos 0)
    × (c.timezone ≡ "")
    × (c.codex_path ≡ "")
    × (c.next_sequence ≡ 0)
    × (c.otel_listen ≡ "")

abbrev pub HasDefaults : Config → Type 0
HasDefaults c =
    (c.heartbeat_seconds ≡ pos 60)
    × (c.usage_seconds ≡ pos 300)
    × (c.integrity_seconds ≡ pos 300)
    × (c.retention_days ≡ pos 30)
    × (c.timezone ≡ "UTC")
    × (c.codex_path ≡ "codex")
    × (c.next_sequence ≡ 1)
    × (c.otel_listen ≡ "127.0.0.1:9464")

unset : (c : Config) → IsUnset c → HasDefaults (defaults c)
unfolding defaults or_int at_least or_text or_one
unset c (heartbeat, usage, integrity, retention, timezone, path, sequence, listen) = (
  rw heartbeat refl,
  rw usage refl,
  rw integrity refl,
  rw retention refl,
  rw timezone refl,
  rw path refl,
  rw sequence refl,
  rw listen refl,
)

-- Behind `Defaults` no setting is missing: the heartbeat, the usage interval, the retention and the
-- next number are not 0, the integrity interval is 300 seconds or more, and the time zone, the path
-- of Codex and the address of the collector are not empty. A configuration of which this holds is
-- left as it is, so that a second call changes nothing; and where all of these are unset they
-- become 60, 300 and 300 seconds, 30 days, UTC, codex, 1 and 127.0.0.1:9464. That an interval or
-- the retention is above 0 is not among it.
pub defaults-IsReady :
    (c : Config)
    → IsReady (defaults c)
      × (IsReady c → defaults c ≡ c)
      × (defaults (defaults c) ≡ defaults c)
      × (IsUnset c → HasDefaults (defaults c))
defaults-IsReady c = (ready c, defaults_keeps c, defaults_keeps (defaults c) (ready c), unset c)

-- Being ready does not depend on the secrets or their protection.
pub IsReady-secrets :
    (c : Config) (key sealed_key token sealed_token protection : String)
    → IsReady c
    → IsReady (record c {
      private_key = key;
      protected_private_key = sealed_key;
      otlp_token = token;
      protected_otlp_token = sealed_token;
      key_protection = protection;
    })
IsReady-secrets c key sealed_key token sealed_token protection r = record {
  heartbeat = r.heartbeat;
  usage = r.usage;
  integrity = r.integrity;
  retention = r.retention;
  timezone = r.timezone;
  codex_path = r.codex_path;
  sequence = r.sequence;
  otel_listen = r.otel_listen;
}
