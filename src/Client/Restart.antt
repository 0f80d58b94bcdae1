-- ===== src/Client/Restart.antt =====
-- A start of the agent over the files of another process: `New` of internal/agent/client.go.
use codex_monitor_group.Base.{
  ◌≡◌, ◌≢◌, ◌⊎◌, inl, inr, sym, ap, Result, Done, ok, err, killed, arith, Bool-cases, subst, String,
  ◌>>=◌, lift,
}
use codex_monitor_group.Base.Text.{codes}
use codex_monitor_group.Store.{Slot, Answer, succeeds, stops, json}
use codex_monitor_group.Queue
use codex_monitor_group.Queue.{Queue, Item, decode}
use codex_monitor_group.Config
use codex_monitor_group.Config.{
  or_one, is_empty, Config, Platform, Dpapi, Holder, defaults, check_complete, parse, opened,
}
use codex_monitor_group.Config.Identity.{SameIdentity, defaults-SameIdentity}
use codex_monitor_group.Client.{Client, RawMessage}
use codex_monitor_group.Client.Sequences.{Events, sequences, Ascending, InStep, Ascending-bounds}

-- What the files must hold for a start of the agent.
pub record Restartable (a : Client) : Type 0 where
  pub disk : Config
  pub items : Events
  pub in_file : a.config_file.target ≡ json disk
  pub in_queue : decode a.queue.file.target ≡ ok items
  pub ascending : Ascending 1 (sequences (codes disk.device_id) items) disk.next_sequence

pub InStep-Restartable : (a : Client) → InStep a → Restartable a
InStep-Restartable a was = record {
  disk = was.disk;
  items = was.items;
  in_file = was.in_file;
  in_queue = was.in_queue;
  ascending = was.ascending;
}

check_complete_keeps : (c d : Config) → check_complete c ≡ ok d → d ≡ c
unfolding check_complete
check_complete_keeps c d h = elim (Bool-cases (is_empty c.server_url)) [
  | inl e ↦ absurd (cc (h, e))
  | inr e ↦ elim (Bool-cases (is_empty c.device_id)) [
    | inl f ↦ absurd (cc (h, e, f))
    | inr f ↦ elim (Bool-cases (is_empty c.private_key)) [
      | inl g ↦ absurd (cc (h, e, f, g))
      | inr g ↦ cc (h, e, f, g)
    ]
  ]
]

opened-SameIdentity :
    (disk c : Config) (key token : Result String) (s : Slot Config)
    → disk.next_sequence ≢ 0
    → ((do
      private_key ← lift key
      otlp_token ← lift token
      let whole = record disk { private_key = private_key; otlp_token = otlp_token }
      lift (check_complete (defaults whole)))
        s).0
      ≡ ok c
    → SameIdentity disk c
opened-SameIdentity disk c (err e) token s present h = absurd (cc h)
opened-SameIdentity disk c (ok key) (err e) s present h = absurd (cc h)
opened-SameIdentity disk c (ok key) (ok token) s present h =
    let whole = record disk { private_key = key; otlp_token = token } in
    let same = defaults-SameIdentity whole present in
    subst (SameIdentity disk) (sym (check_complete_keeps (defaults whole) c h))
      (record { device_id = same.device_id; next_sequence = same.next_sequence })

pub still-InStep :
    (a : Client) (was : InStep a) (q : Queue RawMessage)
    → decode q.file.target ≡ ok was.items
    → InStep (record a { queue = q })
still-InStep a was q readable = record {
  disk = was.disk;
  items = was.items;
  in_file = was.in_file;
  in_queue = readable;
  same_device = was.same_device;
  not_above = was.not_above;
  ascending = was.ascending;
}

-- In step, or dead with files to start from.
abbrev pub Survives : Done → Client → Type 0
Survives r a = InStep a ⊎ ((r ≡ err killed) × Restartable a)

module _ (platform : Platform) (dpapi : Dpapi) where
  pub load-SameIdentity :
      (answer : Answer) (s : Slot Config) (disk c : Config)
      → s.target ≡ json disk
      → disk.next_sequence ≢ 0
      → (Config.load dpapi platform answer s).0 ≡ ok c
      → SameIdentity disk c
  unfolding Config.load Config.parse
  load-SameIdentity (stops why) s disk c there present h = absurd (cc h)
  load-SameIdentity succeeds s disk c there present h =
      opened-SameIdentity disk c (opened dpapi platform disk.private_key disk.protected_private_key)
        (opened dpapi platform disk.otlp_token disk.protected_otlp_token) s present
        (subst
          (λ r.
            ((do
              old ← lift r
              private_key ← lift (opened dpapi platform old.private_key old.protected_private_key)
              otlp_token ← lift (opened dpapi platform old.otlp_token old.protected_otlp_token)
              let whole = record old { private_key = private_key; otlp_token = otlp_token }
              lift (check_complete (defaults whole)))
              s).0
            ≡ ok c)
          (ap Config.parse there) h)

  -- A start over the files of an agent, after its death too: if the numbers of the device's events
  -- ascend strictly and stay below the number in the file, then the client that is loaded has the
  -- device of the file and takes the number of the file or a higher one next, so that the events
  -- stay in step with it.
  pub restart-InStep :
      (answer : Answer) (a : Client) (c : Config)
      → Restartable a
      → (Config.load dpapi platform answer a.config_file).0 ≡ ok c
      → InStep (record a { config = c; queue = Queue.new a.queue.file c.retention_days })
  unfolding Queue.new
  restart-InStep answer a c was loaded =
      let bound =
        Ascending-bounds 1 was.disk.next_sequence (sequences (codes was.disk.device_id) was.items)
          was.ascending in
      let same =
        load-SameIdentity answer a.config_file was.disk c was.in_file (λ e. omega (arith, e, bound))
          loaded in
      record {
        disk = was.disk;
        items = was.items;
        in_file = was.in_file;
        in_queue = was.in_queue;
        same_device = sym same.device_id;
        not_above = omega (arith, same.next_sequence);
        ascending = was.ascending;
      }
