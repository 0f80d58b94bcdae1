-- ===== src/Config/Secrets.antt =====
-- Where the secrets of the agent are on Windows.
use codex_monitor_group.Base.{
  ◌≡◌, ◌⊎◌, inl, inr, refl, ◌∙◌, ap, sym, String, false, ok, err, arith, Result, Done, eq_iff,
}
use codex_monitor_group.Store.{Io, Content, json, succeeds}
use codex_monitor_group.Config.{
  Config, Holder, windows, Dpapi, defaults, is_empty, load, save, disk_form, disk_windows, sealed,
  opened, protection_name,
}
use codex_monitor_group.Store.Crash.{Saved-cases}
use codex_monitor_group.Config.Defaults.{IsReady-secrets, ready}
use codex_monitor_group.Config.Storage.{DpapiLaws, SavedAs, save-SavedAs}
use codex_monitor_group.Config.RoundTrip.{save_ok, load_ready, opened-sealed, sealed_both_ok}

abbrev pub HasNoSecret : Config → Type 0
HasNoSecret d = (d.private_key ≡ "") × (d.otlp_token ≡ "")

json-injective : {a b : Config} → json a ≡ json b → a ≡ b
json-injective e = cc e

module _ (dpapi : Dpapi) where
  no_secret_form : (c d : Config) → disk_form dpapi windows c ≡ ok d → HasNoSecret d
  unfolding disk_form
  no_secret_form c d e =
      let (key, token, k, t, same) = sealed_both_ok dpapi c d _ _ e in
      (ap (λ (x : Config). x.private_key) same, ap (λ (x : Config). x.otlp_token) same)

  SavedAs-cases :
      (old : Content Config) (c : Config) (form : Result Config) (r : Done) (h : Holder)
      → disk_form dpapi windows c ≡ form
      → SavedAs dpapi old form (r, h)
      → (d : Config) → h.file.target ≡ json d
      → (old ≡ json d) ⊎ HasNoSecret d
  SavedAs-cases old c (err e) r h form saved d there = inl (sym saved.0 ∙ there)
  SavedAs-cases old c (ok disk) r h form saved d there =
      elim (Saved-cases old disk r h.file saved) [
        | inl same ↦ inl (sym same ∙ there)
        | inr new ↦ inr (no_secret_form c d (form ∙ ap ok (json-injective (sym new ∙ there))))
      ]

  -- On Windows, whatever the system answers to a save and also if the process dies in it, the file
  -- in place is the old one or holds neither the private key nor the token in plain text.
  pub save_hides_secrets :
      (answers : Io) (h : Holder) (d : Config)
      → (save dpapi windows answers h).1.file.target ≡ json d
      → (h.file.target ≡ json d) ⊎ HasNoSecret d
  save_hides_secrets answers h d =
      SavedAs-cases h.file.target (defaults h.config) _ _ _ refl
        (save-SavedAs dpapi windows answers h) d

  sealed_empty : (s old t : String) → s ≡ "" → sealed dpapi windows s old ≡ ok t → t ≡ old
  unfolding sealed
  sealed_empty s old t h e = ground (arith, eq_iff s "")

  -- On Windows a configuration whose token is empty is saved with the sealed form of an older
  -- token, and the next load that can read the file brings the older token back.
  pub stale_token_returns :
      DpapiLaws dpapi
      → (answers : Io) (h : Holder) (token : String) → is_empty h.config.server_url ≡ false
      → is_empty h.config.device_id ≡ false
      → is_empty h.config.private_key ≡ false
      → h.config.otlp_token ≡ ""
      → opened dpapi windows "" h.config.protected_otlp_token ≡ ok token
      → (save dpapi windows answers h).0 ≡ ok tt
      → (c' : Config) × ((load dpapi windows succeeds (save dpapi windows answers h).1.file).0
          ≡ ok c')
        × (c'.otlp_token ≡ token)
  unfolding defaults disk_form
  stale_token_returns laws answers h token server device key none_now old same =
      let (d, form, there, held) = save_ok dpapi windows answers h same in
      let c = defaults h.config in
      let (k, t, ek, et, dd) = sealed_both_ok dpapi c d _ _ form in
      let kept : t ≡ h.config.protected_otlp_token =
        sealed_empty h.config.otlp_token _ t none_now et in
      (
        _,
        load_ready dpapi windows (disk_windows c k t) h.config.private_key token
            (opened-sealed dpapi laws h.config.private_key _ k key ek) (rw kept old)
            (IsReady-secrets c "" k "" t (protection_name windows) (ready h.config)) server device
            key _ (there ∙ ap json dd),
        refl,
      )
