-- ===== src/Config/Identity.antt =====
-- A save keeps the device and its sequence number, in memory and in the file.
use codex_monitor_group.Base.{
  ◌≡◌, ◌≢◌, ◌⊎◌, inl, inr, refl, sym, ◌∙◌, ap, ok, err, Result, Done, killed, ok-injective, Error,
  subst,
}
use codex_monitor_group.Store.{Slot, Io, Answer, succeeds, stops, Content, json}
use codex_monitor_group.Config.{
  Config, Holder, Platform, unix, windows, Dpapi, defaults, save, save_from, save_disk, disk_form,
}
use codex_monitor_group.Config.Defaults.{or_one_keeps}
use codex_monitor_group.Config.Storage.{SavedAs, save-SavedAs}
use codex_monitor_group.Config.RoundTrip.{sealed_both_ok}

-- The two fields that a device's events are signed with.
pub record SameIdentity (c d : Config) : Type 0 where
  pub device_id : d.device_id ≡ c.device_id
  pub next_sequence : d.next_sequence ≡ c.next_sequence

pub defaults-SameIdentity : (c : Config) → c.next_sequence ≢ 0 → SameIdentity c (defaults c)
unfolding defaults
defaults-SameIdentity c h = record {
  device_id = refl;
  next_sequence = or_one_keeps c.next_sequence h;
}

trans_identity : {b c d : Config} → SameIdentity b c → SameIdentity c d → SameIdentity b d
trans_identity s t = record {
  device_id = t.device_id ∙ s.device_id;
  next_sequence = t.next_sequence ∙ s.next_sequence;
}

-- The file in place is the old one or has the same identity.
abbrev pub NewOrOld : Content Config → Config → Slot Config → Type 0
NewOrOld old c s = (s.target ≡ old) ⊎ ((d : Config) × (s.target ≡ json d) × SameIdentity c d)

from_defaults :
    (old : Content Config) (c : Config) (s : Slot Config)
    → SameIdentity c (defaults c)
    → NewOrOld old (defaults c) s
    → NewOrOld old c s
from_defaults old c s same (inl kept) = inl kept
from_defaults old c s same (inr (d, there, t)) = inr (d, there, trans_identity same t)

module _ (dpapi : Dpapi) where
  disk_form-SameIdentity :
      (platform : Platform) (c d : Config) → disk_form dpapi platform c ≡ ok d → SameIdentity c d
  unfolding disk_form
  disk_form-SameIdentity unix c d e = record {
    device_id = sym (ap (λ (x : Config). x.device_id) (ok-injective e));
    next_sequence = sym (ap (λ (x : Config). x.next_sequence) (ok-injective e));
  }
  disk_form-SameIdentity windows c d e =
      let (key, token, k, t, same) = sealed_both_ok dpapi c d _ _ e in
      record {
        device_id = ap (λ (x : Config). x.device_id) same;
        next_sequence = ap (λ (x : Config). x.next_sequence) same;
      }

  disk-SameIdentity :
      (platform : Platform) (answers : Io) (disk : Result Config) (h : Holder)
      → SameIdentity h.config (save_disk platform answers disk h).1.config
  unfolding save_disk
  disk-SameIdentity platform answers (err e) h = record { device_id = refl; next_sequence = refl }
  disk-SameIdentity platform answers (ok d) h = record { device_id = refl; next_sequence = refl }

  from-SameIdentity :
      (platform : Platform) (answers : Io) (mkdir : Answer) (h : Holder)
      → SameIdentity h.config (save_from dpapi platform answers mkdir h).1.config
  unfolding save_from
  from-SameIdentity platform answers (stops why) h = record {
    device_id = refl;
    next_sequence = refl;
  }
  from-SameIdentity platform answers succeeds h = disk-SameIdentity platform answers _ h

  -- In memory, whatever the answers.
  pub held-SameIdentity :
      (platform : Platform) (answers : Io) (h : Holder)
      → h.config.next_sequence ≢ 0
      → SameIdentity h.config (save dpapi platform answers h).1.config
  unfolding save
  held-SameIdentity platform answers h present =
      let d = defaults-SameIdentity h.config present in
      let s =
        from-SameIdentity platform answers answers.mkdir
          (record h { config = defaults h.config }) in
      record {
        device_id = s.device_id ∙ d.device_id;
        next_sequence = s.next_sequence ∙ d.next_sequence;
      }

  cases :
      (platform : Platform) (old : Content Config) (c : Config) (form : Result Config) (r : Done)
      (h : Holder)
      → disk_form dpapi platform c ≡ form
      → SavedAs dpapi old form (r, h)
      → NewOrOld old c h.file
        × (r ≡ ok tt → (d : Config) × (form ≡ ok d) × (h.file.target ≡ json d) × SameIdentity c d)
  cases platform old c (err e) r h form saved = (inl saved.0, λ same. absurd (saved.1 same))
  cases platform old c (ok d) (ok _) h form saved =
      let same = disk_form-SameIdentity platform c d form in
      (inr (d, saved, same), λ _. (d, refl, saved, same))
  cases platform old c (ok d) (err killed) h form (inl saved) = (inl saved, λ e. absurd (cc e))
  cases platform old c (ok d) (err killed) h form (inr saved) =
      (inr (d, saved, disk_form-SameIdentity platform c d form), λ e. absurd (cc e))
  cases platform old c (ok d) (err _) h form saved = (inl saved, λ e. absurd (cc e))

  -- In the file.
  pub file-SameIdentity :
      (platform : Platform) (answers : Io) (h : Holder)
      → h.config.next_sequence ≢ 0
      → NewOrOld h.file.target h.config (save dpapi platform answers h).1.file
        × ((save dpapi platform answers h).0 ≡ ok tt
            → (d : Config) × ((save dpapi platform answers h).1.file.target ≡ json d)
              × SameIdentity h.config d)
  file-SameIdentity platform answers h present =
      let same = defaults-SameIdentity h.config present in
      let (where_now, after_ok) =
        cases platform h.file.target (defaults h.config) _ _ _ refl
          (save-SavedAs dpapi platform answers h) in
      (
        from_defaults h.file.target h.config (save dpapi platform answers h).1.file same where_now,
        λ e. let (d, _, there, s) = after_ok e in (d, there, trans_identity same s),
      )

  kept :
      (old : Content Config) (form : Result Config) (e : Error) (h : Holder)
      → SavedAs dpapi old form (err e, h)
      → (h.file.target ≡ old) ⊎ (e ≡ killed)
  kept old (err why) e h saved = inl saved.0
  kept old (ok d) killed h saved = inr refl
  kept old (ok d) _ h saved = inl saved

  -- After an error the file is the old one, unless the process died.
  pub file_kept :
      (platform : Platform) (answers : Io) (h : Holder) (e : Error)
      → (save dpapi platform answers h).0 ≡ err e
      → ((save dpapi platform answers h).1.file.target ≡ h.file.target) ⊎ (e ≡ killed)
  file_kept platform answers h e failed =
      kept h.file.target (disk_form dpapi platform (defaults h.config)) e
        (save dpapi platform answers h).1
        (subst
          (λ r.
            SavedAs dpapi h.file.target (disk_form dpapi platform (defaults h.config))
              (r, (save dpapi platform answers h).1))
          failed (save-SavedAs dpapi platform answers h))
