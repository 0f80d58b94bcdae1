-- ===== src/Commands/Beside.antt =====
-- `configure-telemetry` as a second process beside the agent: both save the whole configuration.
use codex_monitor_group.Base.{
  ◌≡◌, ◌≢◌, refl, sym, ap, ◌∙◌, String, [], ◌∷◌, ◌++◌, Bool-cases, inl, inr, Result, ok, err, arith,
  select, some, str_eq,
}
use codex_monitor_group.Base.Text.{codes}
use codex_monitor_group.Store.{Slot, json, succeeds}
use codex_monitor_group.Protocol.{Crypto, Value}
use codex_monitor_group.Queue
use codex_monitor_group.Queue.{Item, decode, is_fresh}
use codex_monitor_group.Config
use codex_monitor_group.Config.{Config, Platform, Dpapi, Holder}
use codex_monitor_group.Config.Identity.{SameIdentity, file-SameIdentity}
use codex_monitor_group.Client.{Client, RawMessage, EnqueueInput, enqueue, signed_item}
use codex_monitor_group.Client.Sequences.{InStep, Events, number, sequences, Ascending-bounds}
use codex_monitor_group.Client.Enqueue.{own_number}
use codex_monitor_group.Client.Restart.{load-SameIdentity}
use codex_monitor_group.Client.Delivery.{enqueue_ok}
use codex_monitor_group.Home.{resolve_codex_home}
use codex_monitor_group.Telemetry.Status.{CodexFiles, Tools}
use codex_monitor_group.Commands.{ConfigureInput, configure_loaded, with_home, save_hash}

with_home-SameIdentity : (path : String) (c : Config) → SameIdentity c (with_home path c)
with_home-SameIdentity path c = elim (Bool-cases (str_eq path "")) [
  | inl e ↦ rw e (record { device_id = refl; next_sequence = refl })
  | inr e ↦ rw e (record { device_id = refl; next_sequence = refl })
]

module _ (platform : Platform) (dpapi : Dpapi) where
  -- Where it returns no error, the file has the device and the number of the configuration.
  save_hash-ok :
      (input : ConfigureInput) (c : Config) (hash : Result String) (file : Slot Config)
      → c.next_sequence ≢ 0
      → (save_hash platform dpapi input c hash file).0 ≡ ok tt
      → (d : Config) × ((save_hash platform dpapi input c hash file).1.target ≡ json d)
        × SameIdentity c d
  save_hash-ok input c (err e) file present h = absurd (cc h)
  save_hash-ok input c (ok hash) file present h =
      let before : Holder = record {
        config = record c { expected_config_hash = hash };
        file = file;
      } in
      let (d, there, same) = (file-SameIdentity dpapi platform input.save before present).1 h in
      (d, there, record { device_id = same.device_id; next_sequence = same.next_sequence })

  configure-ok :
      (tools : Tools) (input : ConfigureInput) (codex : String → CodexFiles) (c : Config)
      (file : Slot Config)
      → c.next_sequence ≢ 0
      → (configure_loaded platform dpapi tools input codex c file).0 ≡ ok tt
      → (d : Config) × ((configure_loaded platform dpapi tools input codex c file).1.target
          ≡ json d)
        × SameIdentity c d
  unfolding configure_loaded
  configure-ok tools input codex c file present h =
      let path = (resolve_codex_home input.disk c.codex_home input.candidates).path in
      let homed = with_home-SameIdentity path c in
      let (d, there, same) =
        save_hash-ok input (with_home path c) _ file (λ e. present (sym homed.next_sequence ∙ e))
          h in
      (
        d,
        there,
        record {
          device_id = same.device_id ∙ homed.device_id;
          next_sequence = same.next_sequence ∙ homed.next_sequence;
        },
      )

  -- If the command loads the configuration of an agent in step, whose file has the number that it
  -- takes next, and the agent then queues an event before the command saves, and neither meets an
  -- error: then the last event of the queue has the number that the file says is the device's next
  -- one.
  pub configure_reuses_number :
      (crypto : Crypto) (tools : Tools) (a : Client) (was : InStep a) (c : Config)
      (event : EnqueueInput) (endpoint : String) (payload : Value) (input : ConfigureInput)
      (codex : String → CodexFiles)
      → was.disk.next_sequence ≡ a.config.next_sequence
      → (Config.load dpapi platform succeeds a.config_file).0 ≡ ok c
      → let b = enqueue platform dpapi crypto event endpoint payload a in
        b.0 ≡ ok tt
        → (configure_loaded platform dpapi tools input codex c b.1.config_file).0 ≡ ok tt
        → (d : Config) × (kept : Events) × (item : Item RawMessage) × ((configure_loaded platform
              dpapi tools input codex c b.1.config_file).1.target
            ≡ json d)
          × (decode b.1.queue.file.target ≡ ok (kept ++ item ∷ []))
          × (number (codes d.device_id) item.envelope ≡ some d.next_sequence)
  configure_reuses_number crypto tools a was c event endpoint payload input codex level loaded
        queued configured =
      let b = enqueue platform dpapi crypto event endpoint payload a in
      let bound =
        Ascending-bounds 1 was.disk.next_sequence (sequences (codes was.disk.device_id) was.items)
          was.ascending in
      let present : was.disk.next_sequence ≢ 0 = λ e. omega (arith, e, bound) in
      let read =
        load-SameIdentity platform dpapi succeeds a.config_file was.disk c was.in_file present
          loaded in
      let (d, there, same) =
        configure-ok tools input codex c b.1.config_file (λ e. present (sym read.next_sequence ∙ e))
          configured in
      let (key, id, _, _, behind) =
        enqueue_ok platform dpapi crypto event endpoint payload a was.items was.in_queue queued in
      let item = signed_item crypto event endpoint payload key id a.config in
      let device : d.device_id ≡ a.config.device_id =
        same.device_id ∙ read.device_id ∙ was.same_device in
      let next : a.config.next_sequence ≡ d.next_sequence =
        sym (same.next_sequence ∙ read.next_sequence ∙ level) in
      (
        d,
        select (is_fresh (Queue.cutoff event.pushed_at a.queue.retention)) was.items,
        item,
        there,
        behind,
        ap (λ s. number (codes s) item.envelope) device
            ∙ own_number crypto event endpoint payload key id a.config
            ∙ ap some next,
      )
