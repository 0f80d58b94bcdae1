-- ===== src/Config/RoundTrip.antt =====
-- A configuration that was saved can be loaded again.
use codex_monitor_group.Base.{
  ◌≡◌, refl, ◌∙◌, ap, sym, String, false, none, some, ok, err, arith, Result, Option-cases, inl,
  inr,
}
use codex_monitor_group.Store.Crash.{Saved-ok}
use codex_monitor_group.Store.{Slot, Io, Answer, succeeds, stops, json}
use codex_monitor_group.Config.{
  Config, Holder, Platform, unix, windows, Dpapi, defaults, is_empty, parse, load, save, save_from,
  save_disk, disk_form, disk_unix, disk_windows, sealed, opened, protect_secret, unprotect_secret,
  check_complete, protection_name, seal_both,
}
use codex_monitor_group.Config.Defaults.{IsReady-secrets, defaults_keeps, IsReady, ready}
use codex_monitor_group.Config.Storage.{DpapiLaws, IsEnrolled, unsealed, write_file-Saved}

IsEnrolled-defaults : (c : Config) → IsEnrolled c → IsEnrolled (defaults c)
unfolding defaults
IsEnrolled-defaults c en = record {
  server_url = en.server_url;
  device_id = en.device_id;
  private_key = en.private_key;
  otlp_token = en.otlp_token;
}

module _ (dpapi : Dpapi) where
  pub opened_plain :
      (platform : Platform) (plain text : String)
      → is_empty plain ≡ false
      → opened dpapi platform plain text ≡ ok plain
  unfolding opened
  opened_plain platform plain text h = rw (h, opened)

  sealed_form :
      (plain old text : String) (b : dpapi.Blob)
      → is_empty plain ≡ false
      → sealed dpapi windows plain old ≡ ok text
      → dpapi.seal plain ≡ some b
      → text ≡ dpapi.encode b
  unfolding sealed protect_secret
  sealed_form plain old text b h e there = ground arith

  no_seal :
      (plain old text : String)
      → is_empty plain ≡ false
      → sealed dpapi windows plain old ≡ ok text
      → ¬ (dpapi.seal plain ≡ none)
  unfolding sealed protect_secret
  no_seal plain old text h e absent = ground arith

  -- What a sealed secret needs to open to itself.
  pub opened-sealed :
      DpapiLaws dpapi
      → (plain old text : String) → is_empty plain ≡ false
      → sealed dpapi windows plain old ≡ ok text
      → opened dpapi windows "" text ≡ ok plain
  unfolding sealed opened protect_secret unprotect_secret
  opened-sealed laws plain old text h e = elim (Option-cases (dpapi.seal plain)) [
    | inl absent ↦ absurd (no_seal plain old text h e absent)
    | inr (b, there) ↦ rw (
      sealed_form plain old text b h e there,
      laws.encode_present b,
      opened,
      laws.decode-encode b,
      laws.unseal-seal plain b there,
    )
  ]

  pub load_ready :
      (platform : Platform) (c : Config) (key token : String)
      → opened dpapi platform c.private_key c.protected_private_key ≡ ok key
      → opened dpapi platform c.otlp_token c.protected_otlp_token ≡ ok token
      → IsReady c
      → is_empty c.server_url ≡ false
      → is_empty c.device_id ≡ false
      → is_empty key ≡ false
      → (s : Slot Config) → s.target ≡ json c
      → (load dpapi platform succeeds s).0 ≡ ok (record c { private_key = key; otlp_token = token })
  unfolding load parse check_complete
  load_ready platform c key token k t r server device present s e = simp (
    e,
    k,
    t,
    defaults_keeps _ (
        IsReady-secrets c key c.protected_private_key token c.protected_otlp_token c.key_protection
          r),
    server,
    device,
    present,
  )

  disk_ok :
      (disk : Result Config) (platform : Platform) (answers : Io) (h : Holder)
      → (save_disk platform answers disk h).0 ≡ ok tt
      → (d : Config) × (disk ≡ ok d)
        × ((save_disk platform answers disk h).1.file.target ≡ json d)
        × ((save_disk platform answers disk h).1.config
            ≡ record h.config { key_protection = protection_name platform })
  unfolding save_disk
  disk_ok (err e) platform answers h same = absurd (cc same)
  disk_ok (ok d) platform answers h same =
      (d, refl, Saved-ok _ d _ _ (write_file-Saved answers d h.file) same, refl)

  save_from_ok :
      (platform : Platform) (answers : Io) (mkdir : Answer) (h : Holder)
      → (save_from dpapi platform answers mkdir h).0 ≡ ok tt
      → (d : Config) × (disk_form dpapi platform h.config ≡ ok d)
        × ((save_from dpapi platform answers mkdir h).1.file.target ≡ json d)
        × ((save_from dpapi platform answers mkdir h).1.config
            ≡ record h.config { key_protection = protection_name platform })
  unfolding save_from
  save_from_ok platform answers (stops why) h same = absurd (cc same)
  save_from_ok platform answers succeeds h same = disk_ok _ platform answers h same

  -- What a save that returned no error has done.
  pub save_ok :
      (platform : Platform) (answers : Io) (h : Holder)
      → (save dpapi platform answers h).0 ≡ ok tt
      → (d : Config) × (disk_form dpapi platform (defaults h.config) ≡ ok d)
        × ((save dpapi platform answers h).1.file.target ≡ json d)
        × ((save dpapi platform answers h).1.config
            ≡ record (defaults h.config) { key_protection = protection_name platform })
  unfolding save
  save_ok platform answers h =
      save_from_ok platform answers answers.mkdir (record h { config = defaults h.config })

  pub sealed_both_ok :
      (c d : Config) (key token : Result String)
      → seal_both c key token ≡ ok d
      → (k : String) × (t : String) × (key ≡ ok k) × (token ≡ ok t) × (d ≡ disk_windows c k t)
  unfolding seal_both
  sealed_both_ok c d (err e) token same = absurd (cc same)
  sealed_both_ok c d (ok k) (err e) same = absurd (cc same)
  sealed_both_ok c d (ok k) (ok t) same = (k, t, refl, refl, cc same)

  loads_windows :
      DpapiLaws dpapi
      → (c : Config) (key token : String) → IsReady c
      → IsEnrolled c
      → sealed dpapi windows c.private_key c.protected_private_key ≡ ok key
      → sealed dpapi windows c.otlp_token c.protected_otlp_token ≡ ok token
      → (s : Slot Config) → s.target ≡ json (disk_windows c key token)
      → (load dpapi windows succeeds s).0
        ≡ ok (record (disk_windows c key token) {
          private_key = c.private_key;
          otlp_token = c.otlp_token;
        })
  loads_windows laws c key token r en k t s there =
      load_ready windows (disk_windows c key token) c.private_key c.otlp_token
        (opened-sealed laws c.private_key c.protected_private_key key en.private_key k)
        (opened-sealed laws c.otlp_token c.protected_otlp_token token en.otlp_token t)
        (IsReady-secrets c "" key "" token (protection_name windows) r) en.server_url en.device_id
        en.private_key s there

  -- What was written can be loaded, and is what memory holds but for the sealed forms.
  loads :
      DpapiLaws dpapi
      → (platform : Platform) (c : Config) (d : Config) → IsReady c
      → IsEnrolled c
      → disk_form dpapi platform c ≡ ok d
      → (s : Slot Config) → s.target ≡ json d
      → (c' : Config) × ((load dpapi platform succeeds s).0 ≡ ok c')
        × (unsealed c' ≡ unsealed (record c { key_protection = protection_name platform }))
  unfolding disk_form
  loads laws unix c d r en e s there = (
    disk_unix c,
    load_ready unix (disk_unix c) c.private_key c.otlp_token
        (opened_plain unix c.private_key "" en.private_key)
        (opened_plain unix c.otlp_token "" en.otlp_token)
        (IsReady-secrets c c.private_key "" c.otlp_token "" (protection_name unix) r) en.server_url
        en.device_id en.private_key s (cc (there, e)),
    refl,
  )
  loads laws windows c d r en e s there =
      let (key, token, k, t, same) = sealed_both_ok c d _ _ e in
      (_, loads_windows laws c key token r en k t s (there ∙ ap json same), refl)

  -- If a configuration that is enrolled is saved without an error, a load that can read the file
  -- returns the configuration that the caller holds after the save, defaults included, but for
  -- the two sealed forms; on Windows provided that the data protection keeps its laws.
  pub load-save :
      DpapiLaws dpapi
      → (platform : Platform) (answers : Io) (h : Holder) → IsEnrolled h.config
      → (save dpapi platform answers h).0 ≡ ok tt
      → (c' : Config) × ((load dpapi platform succeeds (save dpapi platform answers h).1.file).0
          ≡ ok c')
        × (unsealed c' ≡ unsealed (save dpapi platform answers h).1.config)
  load-save laws platform answers h en same =
      let (d, form, there, held) = save_ok platform answers h same in
      let (c', loaded, agree) =
        loads laws platform (defaults h.config) d (ready h.config) (IsEnrolled-defaults h.config en)
          form _ there in
      (c', loaded, agree ∙ ap unsealed (sym held))
