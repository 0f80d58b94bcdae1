-- ===== src/Client/Saves.antt =====
-- What a save of the configuration leaves of the sequence numbers.
use codex_monitor_group.Base.{
  ℕ, suc, ◌+◌, ◌<◌, ◌≤◌, ◌^◌, ◌%◌, ◌≡◌, ◌≢◌, inl, inr, refl, sym, ◌∙◌, Done, ok, arith,
}
use codex_monitor_group.Base.Text.{codes}
use codex_monitor_group.Store.{Io, json}
use codex_monitor_group.Queue.{decode}
use codex_monitor_group.Config
use codex_monitor_group.Config.{Config, Platform, Dpapi}
use codex_monitor_group.Config.Identity.{
  SameIdentity, NewOrOld, held-SameIdentity, file-SameIdentity,
}
use codex_monitor_group.Client.{Client, save_config, bump_sequence, Holder}
use codex_monitor_group.Client.Sequences.{
  Events, sequences, Ascending, InStep, same_device-Ascending, Ascending-bounds,
}

-- The file has the device and the number of the configuration in memory.
abbrev pub Settled : Config → Client → Type 0
Settled d a =
    (a.config_file.target ≡ json d)
    × (d.device_id ≡ a.config.device_id)
    × (d.next_sequence ≡ a.config.next_sequence)

-- What is on the way after a save: the old numbers, and after its success the new ones.
abbrev pub SavedNext : Client → ℕ → Done → Client → Type 0
SavedNext a n r a' =
    InStep a'
    × (r ≡ ok tt
        → (d : Config) × (items : Events) × Settled d a'
          × (d.next_sequence ≡ suc n)
          × (d.device_id ≡ a.config.device_id)
          × Ascending 1 (sequences (codes d.device_id) items) n
          × (decode a'.queue.file.target ≡ ok items))

-- Behind the save of a configuration with this number or a higher one: the old file or the new one.
pub saved-InStep :
    (a : Client) (was : InStep a) (c : Config) (h : Holder)
    → SameIdentity c h.config
    → c.device_id ≡ a.config.device_id
    → a.config.next_sequence ≤ c.next_sequence
    → NewOrOld a.config_file.target c h.file
    → InStep (record a { config = h.config; config_file = h.file })
saved-InStep a was c h held same level (inl kept) = record {
  disk = was.disk;
  items = was.items;
  in_file = kept ∙ was.in_file;
  in_queue = was.in_queue;
  same_device = was.same_device ∙ sym same ∙ sym held.device_id;
  not_above = omega (arith, was.not_above, level, held.next_sequence);
  ascending = was.ascending;
}
saved-InStep a was c h held same level (inr (d, there, s)) = record {
  disk = d;
  items = was.items;
  in_file = there;
  in_queue = was.in_queue;
  same_device = s.device_id ∙ sym held.device_id;
  not_above = omega (arith, s.next_sequence, held.next_sequence);
  ascending =
      same_device-Ascending was.items was.disk.next_sequence d.next_sequence
        (was.same_device ∙ sym same ∙ sym s.device_id)
        (omega (arith, was.not_above, level, s.next_sequence)) was.ascending;
}

module _ (platform : Platform) (dpapi : Dpapi) where
  settled_lem :
      (a : Client) (was : InStep a) (c : Config) (h : Holder) (d : Config)
      → SameIdentity c h.config
      → c.device_id ≡ a.config.device_id
      → c.next_sequence ≡ suc a.config.next_sequence
      → h.file.target ≡ json d
      → SameIdentity c d
      → (d' : Config) × (items : Events) × Settled d'
          (record a { config = h.config; config_file = h.file })
        × (d'.next_sequence ≡ suc a.config.next_sequence)
        × (d'.device_id ≡ a.config.device_id)
        × Ascending 1 (sequences (codes d'.device_id) items) a.config.next_sequence
        × (decode a.queue.file.target ≡ ok items)
  settled_lem a was c h d held same level there s = (
    d,
    was.items,
    (there, s.device_id ∙ sym held.device_id, s.next_sequence ∙ sym held.next_sequence),
    s.next_sequence ∙ level,
    s.device_id ∙ same,
    same_device-Ascending was.items was.disk.next_sequence a.config.next_sequence
        (was.same_device ∙ sym same ∙ sym s.device_id) was.not_above was.ascending,
    was.in_queue,
  )

  pub save_config-SavedNext :
      (answers : Io) (a : Client)
      → InStep a
      → suc a.config.next_sequence < 2 ^ 64
      → SavedNext a a.config.next_sequence
          (save_config platform dpapi answers (bump_sequence a)).0
          (save_config platform dpapi answers (bump_sequence a)).1
  unfolding save_config bump_sequence
  save_config-SavedNext answers a was small =
      let c = record a.config { next_sequence = (a.config.next_sequence + 1) % 2 ^ 64 } in
      let level : c.next_sequence ≡ suc a.config.next_sequence = omega (arith, small) in
      let before : Holder = record { config = c; file = a.config_file } in
      let present : c.next_sequence ≢ 0 = λ e. omega (arith, e, level) in
      let held = held-SameIdentity dpapi platform answers before present in
      let (where_now, after_ok) = file-SameIdentity dpapi platform answers before present in
      let h = (Config.save dpapi platform answers before).1 in
      (
        saved-InStep a was c h held refl (omega (arith, level)) where_now,
        λ e. let (d, there, s) = after_ok e in settled_lem a was c h d held refl level there s,
      )

module _ (platform : Platform) (dpapi : Dpapi) where
  -- A save of the configuration with the same device and number.
  pub resaved-InStep :
      (answers : Io) (a : Client) (was : InStep a) (c : Config)
      → c.device_id ≡ a.config.device_id
      → c.next_sequence ≡ a.config.next_sequence
      → let b = (save_config platform dpapi answers (record a { config = c })).1 in
        InStep b × (b.config.next_sequence ≡ a.config.next_sequence)
  unfolding save_config
  resaved-InStep answers a was c same level =
      let bound =
        Ascending-bounds 1 was.disk.next_sequence (sequences (codes was.disk.device_id) was.items)
          was.ascending in
      let present : c.next_sequence ≢ 0 = λ e. omega (arith, e, level, bound, was.not_above) in
      let before : Holder = record { config = c; file = a.config_file } in
      let held = held-SameIdentity dpapi platform answers before present in
      let (where_now, _) = file-SameIdentity dpapi platform answers before present in
      (
        saved-InStep a was c _ held same (omega (arith, level)) where_now,
        held.next_sequence ∙ level,
      )
