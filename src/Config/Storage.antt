-- ===== src/Config/Storage.antt =====
-- Saving and loading the configuration on the two kinds of platform.
use codex_monitor_group.Base.{◌≡◌, ◌≢◌, refl, String, false, some, ok, err, Result, inl}
use codex_monitor_group.Store.{
  failing, dying, Slot, Io, Answer, succeeds, stops, Saved, Content, Stop,
}
use codex_monitor_group.Store.Crash.{marshal-Saved, write_chmod_replace-Saved}
use codex_monitor_group.Config.{
  Config, Holder, Platform, Dpapi, defaults, is_empty, save, save_from, save_disk, write_file,
  disk_form, stop_error,
}

-- What the agent relies on: what was sealed on a machine opens to itself there, a blob's text is
-- not empty and decodes to the blob.
pub record DpapiLaws (dpapi : Dpapi) : Type 0 where
  pub unseal-seal : (s : String) (b : dpapi.Blob) → dpapi.seal s ≡ some b → dpapi.unseal b ≡ some s
  pub decode-encode : (b : dpapi.Blob) → dpapi.decode (dpapi.encode b) ≡ some b
  pub encode_present : (b : dpapi.Blob) → is_empty (dpapi.encode b) ≡ false

-- The configuration without the fields that differ between memory and disk.
abbrev pub unsealed : Config → Config
unsealed c = record c { protected_private_key = ""; protected_otlp_token = "" }

-- The fields without which the agent does not start, and the token.
pub record IsEnrolled (c : Config) : Type 0 where
  pub server_url : is_empty c.server_url ≡ false
  pub device_id : is_empty c.device_id ≡ false
  pub private_key : is_empty c.private_key ≡ false
  pub otlp_token : is_empty c.otlp_token ≡ false

pub write_file-Saved :
    (answers : Io) (disk : Config) (s : Slot Config)
    → Saved s.target disk (write_file answers disk s)
unfolding write_file
write_file-Saved answers disk s =
    marshal-Saved answers.marshals _ disk s
      (write_chmod_replace-Saved answers.write answers.chmod answers.rename disk s)

module _ (dpapi : Dpapi) where
  -- What is on disk after a save, given what was to be written.
  abbrev pub SavedAs : Content Config → Result Config → Result (Unit {0}) × Holder → Type 0
  SavedAs old (ok disk) (r, h) = Saved old disk (r, h.file)
  SavedAs old (err e) (r, h) = (h.file.target ≡ old) × (r ≢ ok tt)

  save_disk-SavedAs :
      (platform : Platform) (answers : Io) (disk : Result Config) (h : Holder)
      → SavedAs h.file.target disk (save_disk platform answers disk h)
  unfolding save_disk
  save_disk-SavedAs platform answers (err e) h = (refl, λ same. absurd (cc same))
  save_disk-SavedAs platform answers (ok disk) h = write_file-Saved answers disk h.file

  not_made-SavedAs :
      (why : Stop) (disk : Result Config) (h : Holder)
      → SavedAs h.file.target disk (err (stop_error why), h)
  not_made-SavedAs why (err e) h = (refl, λ same. absurd (cc same))
  not_made-SavedAs failing (ok disk) h = refl
  not_made-SavedAs dying (ok disk) h = inl refl

  save_from-SavedAs :
      (platform : Platform) (answers : Io) (mkdir : Answer) (h : Holder)
      → SavedAs h.file.target
          (disk_form dpapi platform h.config)
          (save_from dpapi platform answers mkdir h)
  unfolding save_from
  save_from-SavedAs platform answers (stops why) h = not_made-SavedAs why _ h
  save_from-SavedAs platform answers succeeds h =
      save_disk-SavedAs platform answers (disk_form dpapi platform h.config) h

  -- A save, whatever the system answers, leaves the old file or the whole new one in place: the
  -- new one if it returned no error, the old one if it returned an error, and one of the two if
  -- the process died; where a secret cannot be sealed it leaves the old
  -- one and returns an error.
  pub save-SavedAs :
      (platform : Platform) (answers : Io) (h : Holder)
      → SavedAs h.file.target
          (disk_form dpapi platform (defaults h.config))
          (save dpapi platform answers h)
  unfolding save
  save-SavedAs platform answers h =
      save_from-SavedAs platform answers answers.mkdir (record h { config = defaults h.config })
