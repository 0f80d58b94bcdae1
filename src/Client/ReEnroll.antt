-- ===== src/Client/ReEnroll.antt =====
-- `reEnrollIfCurrent` of internal/agent/client.go keeps the queued events in step.
use codex_monitor_group.Base.{
  ◌≡◌, ◌≢◌, ◌⊎◌, inl, inr, refl, sym, ◌∙◌, ap, [], Result, Done, ok, err, Error, killed, arith,
  Bool-cases, String, ◌>>=◌, ◌>>◌, lift, and_then, Exec,
}
use codex_monitor_group.Base.Text.{Text, text_eq, codes}
use codex_monitor_group.Store.{Io, Saved, json, Content}
use codex_monitor_group.Queue
use codex_monitor_group.Queue.{Queue, Item, decode}
use codex_monitor_group.Queue.Laws.{clear-Saved}
use codex_monitor_group.Config
use codex_monitor_group.Config.{
  or_one, is_empty, Config, Platform, Dpapi, Holder, defaults, check_complete, parse, opened,
}
use codex_monitor_group.Config.Identity.{
  SameIdentity, NewOrOld, held-SameIdentity, file-SameIdentity, file_kept,
}
use codex_monitor_group.Client.{
  Client, RawMessage, adopt, re_enroll_if_current, clear_queue, adopt_updated, ReEnrollInput,
  re_enrolled, EnrollResponse, register,
}
use codex_monitor_group.Client.Sequences.{Events, sequences, InStep, Ascending-bounds}
use codex_monitor_group.Client.Restart.{still-InStep, Survives}

module _ (platform : Platform) (dpapi : Dpapi) where
  emptied-InStep :
      (a : Client) (was : InStep a) (q : Queue RawMessage)
      → decode q.file.target ≡ ok []
      → InStep (record a { queue = q })
  emptied-InStep a was q empty = record {
    disk = was.disk;
    items = [];
    in_file = was.in_file;
    in_queue = empty;
    same_device = was.same_device;
    not_above = was.not_above;
    ascending =
        Ascending-bounds 1 was.disk.next_sequence (sequences (codes was.disk.device_id) was.items)
          was.ascending;
  }

  clear-InStep :
      (a : Client) (was : InStep a) (old : Content Events) (r : Done) (q : Queue RawMessage)
      → decode old ≡ ok was.items
      → Saved old [] (r, q.file)
      → InStep (record a { queue = q }) × (r ≡ ok tt → decode q.file.target ≡ ok [])
  unfolding decode
  clear-InStep a was old (ok _) q readable s =
      (emptied-InStep a was q (ap decode s), λ _. ap decode s)
  clear-InStep a was old (err killed) q readable (inl s) =
      (still-InStep a was q (ap decode s ∙ readable), λ e. absurd (cc e))
  clear-InStep a was old (err killed) q readable (inr s) =
      (emptied-InStep a was q (ap decode s), λ e. absurd (cc e))
  clear-InStep a was old (err _) q readable s =
      (still-InStep a was q (ap decode s ∙ readable), λ e. absurd (cc e))

  not_adopted :
      (a : Client) (was : InStep a) (h : Holder)
      → h.file.target ≡ a.config_file.target
      → InStep (record a { config_file = h.file })
  not_adopted a was h old = record {
    disk = was.disk;
    items = was.items;
    in_file = old ∙ was.in_file;
    in_queue = was.in_queue;
    same_device = was.same_device;
    not_above = was.not_above;
    ascending = was.ascending;
  }

  adopt-Survives :
      (a : Client) (was : InStep a) (updated : Config) (r : Done) (h : Holder)
      → decode a.queue.file.target ≡ ok []
      → updated.next_sequence ≡ 1
      → SameIdentity updated h.config
      → NewOrOld a.config_file.target updated h.file
      → (r ≡ ok tt → (d : Config) × (h.file.target ≡ json d) × SameIdentity updated d)
      → ((e : Error) → r ≡ err e → (h.file.target ≡ a.config_file.target) ⊎ (e ≡ killed))
      → Survives (adopt a (r, h)).0 (adopt a (r, h)).1
  adopt-Survives a was updated (ok _) h empty one held where_now after_ok after_err =
      let (d, there, same) = after_ok refl in
      inl (record {
        disk = d;
        items = [];
        in_file = there;
        in_queue = empty;
        same_device = same.device_id ∙ sym held.device_id;
        not_above = omega (arith, same.next_sequence, held.next_sequence);
        ascending = omega (arith, same.next_sequence, one);
      })
  adopt-Survives a was updated (err e) h empty one held (inl old) after_ok after_err =
      inl (not_adopted a was h old)
  adopt-Survives a was updated (err e) h empty one held (inr (d, there, same)) after_ok after_err =
      elim (after_err e refl) [
        | inl old ↦ inl (not_adopted a was h old)
        | inr dead ↦ inr (
          ap err dead,
          record {
            disk = d;
            items = [];
            in_file = there;
            in_queue = empty;
            ascending = omega (arith, same.next_sequence, one);
          },
        )
      ]

  adopt_updated-Survives :
      (answers : Io) (updated : Config) (a : Client) (was : InStep a)
      → decode a.queue.file.target ≡ ok []
      → updated.next_sequence ≡ 1
      → Survives
          (adopt_updated platform dpapi answers updated a).0
          (adopt_updated platform dpapi answers updated a).1
  unfolding adopt_updated
  adopt_updated-Survives answers updated a was empty one =
      let before : Holder = record { config = updated; file = a.config_file } in
      let present : updated.next_sequence ≢ 0 = λ e. omega (arith, e, one) in
      let saved = file-SameIdentity dpapi platform answers before present in
      adopt-Survives a was updated (Config.save dpapi platform answers before).0
        (Config.save dpapi platform answers before).1 empty one
        (held-SameIdentity dpapi platform answers before present) saved.0 saved.1
        (λ e. file_kept dpapi platform answers before e)

  then_adopt :
      (answers : Io) (updated : Config) (r : Done) (a : Client)
      → InStep a
      → (r ≡ ok tt → decode a.queue.file.target ≡ ok [])
      → updated.next_sequence ≡ 1
      → Survives
          (and_then r (λ _. adopt_updated platform dpapi answers updated) a).0
          (and_then r (λ _. adopt_updated platform dpapi answers updated) a).1
  then_adopt answers updated (err e) a was empty one = inl was
  then_adopt answers updated (ok _) a was empty one =
      adopt_updated-Survives answers updated a was (empty refl) one

  registered :
      (input : ReEnrollInput) (enrolled : Result EnrollResponse) (telemetry : Result String)
      (a : Client)
      → InStep a
      → let body : Exec Client (Unit {0}) = (do
        e ← lift enrolled
        fingerprint ← lift telemetry
        clear_queue input.clear
        adopt_updated platform dpapi input.save
            (record (re_enrolled e a.config) { expected_config_hash = fingerprint })) in
        Survives (body a).0 (body a).1
  unfolding clear_queue re_enrolled defaults or_one
  registered input (err e) telemetry a was = inl was
  registered input (ok enrolled) (err e) a was = inl was
  registered input (ok enrolled) (ok fingerprint) a was =
      let (now, empty) =
        clear-InStep a was a.queue.file.target (Queue.clear input.clear a.queue).0
          (Queue.clear input.clear a.queue).1 was.in_queue (clear-Saved input.clear a.queue) in
      then_adopt input.save
        (record (re_enrolled enrolled a.config) { expected_config_hash = fingerprint })
        (Queue.clear input.clear a.queue).0
        (record a { queue = (Queue.clear input.clear a.queue).1 }) now empty refl

  pub re_enroll-Survives :
      (input : ReEnrollInput) (stale : Text) (a : Client)
      → InStep a
      → Survives
          (re_enroll_if_current platform dpapi input stale a).0
          (re_enroll_if_current platform dpapi input stale a).1
  unfolding re_enroll_if_current
  re_enroll-Survives input stale a was =
      elim (Bool-cases (text_eq (codes a.config.device_id) stale)) [
        | inl e ↦ rw e (registered input (register input.reply) input.telemetry a was)
        | inr e ↦ rw e (inl was)
      ]
