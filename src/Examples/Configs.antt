-- ===== src/Examples/Configs.antt =====
-- The configuration's theorems at concrete inputs.
use codex_monitor_group.Base.{Bool-cases, eq_iff, ◌≡◌, ◌⊎◌, inl, inr, refl, ok, String}
use codex_monitor_group.Store.{write_tmp, replace, absent, json, succeeds}
use codex_monitor_group.Config.{
  write_file, Config, Holder, windows, defaults, save, load, disk_form, disk_windows, opened,
  is_empty, sealed, protect_secret, unprotect_secret,
}
use codex_monitor_group.Config.Defaults.{IsReady, IsUnset, HasDefaults, defaults-IsReady}
use codex_monitor_group.Config.Storage.{unsealed, DpapiLaws, IsEnrolled, SavedAs, save-SavedAs}
use codex_monitor_group.Config.RoundTrip.{load-save}
use codex_monitor_group.Config.Secrets.{HasNoSecret, save_hides_secrets, stale_token_returns}
use codex_monitor_group.Examples.{all_fine, dies_behind, enrolled, marking}

abbrev holder : Holder
holder = record { config = enrolled; file = record { target = absent; tmp = absent } }

abbrev without_token : Holder
without_token = record holder {
  config = record enrolled { otlp_token = ""; protected_otlp_token = "=old" };
}

pub marking-DpapiLaws : DpapiLaws marking
marking-DpapiLaws = record {
  unseal-seal = λ s b e. cc e;
  decode-encode = λ b. refl;
  encode_present = λ b. elim (Bool-cases (is_empty (String.◌∷◌ "=" b))) [
    | inl e ↦ absurd (cc ((eq_iff (String.◌∷◌ "=" b) "").0 e))
    | inr e ↦ e
  ];
}

enrolled-IsEnrolled : IsEnrolled enrolled
enrolled-IsEnrolled = record {
  server_url = refl;
  device_id = refl;
  private_key = refl;
  otlp_token = refl;
}

defaults-IsReady_example :
    IsReady (defaults enrolled)
    × (IsReady enrolled → defaults enrolled ≡ enrolled)
    × (defaults (defaults enrolled) ≡ defaults enrolled)
    × (IsUnset enrolled → HasDefaults (defaults enrolled))
defaults-IsReady_example = defaults-IsReady enrolled

save-SavedAs_example :
    SavedAs marking absent
      (disk_form marking windows (defaults enrolled))
      (save marking windows dies_behind holder)
save-SavedAs_example = save-SavedAs marking windows dies_behind holder

load-save_example :
    (c' : Config) × ((load marking windows succeeds (save marking windows all_fine holder).1.file).0
      ≡ ok c')
    × (unsealed c' ≡ unsealed (save marking windows all_fine holder).1.config)
unfolding save disk_form sealed defaults protect_secret write_file write_tmp replace
load-save_example =
    load-save marking marking-DpapiLaws windows all_fine holder enrolled-IsEnrolled refl

save_hides_secrets_example :
    (absent ≡ json (disk_windows (defaults enrolled) "=key" "=token"))
    ⊎ HasNoSecret (disk_windows (defaults enrolled) "=key" "=token")
unfolding save disk_form sealed defaults protect_secret write_file write_tmp replace
save_hides_secrets_example =
    save_hides_secrets marking dies_behind holder (disk_windows (defaults enrolled) "=key" "=token")
      refl

stale_token_returns_example :
    (c' : Config) × ((load marking windows succeeds
        (save marking windows all_fine without_token).1.file).0
      ≡ ok c')
    × (c'.otlp_token ≡ "old")
unfolding opened unprotect_secret save disk_form sealed defaults protect_secret write_file write_tmp
    replace
stale_token_returns_example =
    stale_token_returns marking marking-DpapiLaws all_fine without_token "old" refl refl refl refl
      refl refl
