-- ===== src/Client/Enqueue.antt =====
-- `enqueue` of internal/agent/client.go keeps the queued events in step, whatever the system
-- answers.
use codex_monitor_group.Base.{
  ◌>>=◌, ◌>>◌, and_then, lift, bad_key, no_random, ℕ, suc, ◌<◌, ◌^◌, ◌≡◌, inl, inr, refl, ◌∙◌, ap,
  [], ◌∷◌, ◌++◌, Option, none, some, Done, ok, err, killed, arith, Bool-cases, select, String,
  and_then,
}
use codex_monitor_group.Base.Text.{Text, text_eq_refl, codes}
use codex_monitor_group.Store.{Answer, succeeds, stops, Saved, Content}
use codex_monitor_group.Protocol.{Crypto, Value, sign}
use codex_monitor_group.Queue
use codex_monitor_group.Queue.{Queue, Item, decode, is_fresh}
use codex_monitor_group.Queue.Laws.{push-Saved}
use codex_monitor_group.Config
use codex_monitor_group.Config.{Config, Platform, Dpapi}
use codex_monitor_group.Client.{
  Client, RawMessage, EnqueueInput, enqueue, queue_signed, signed_item, push_item, marshal_envelope,
  sign,
}
use codex_monitor_group.Client.Sequences.{
  Events, number, sequences, Ascending, InStep, upper_bound, Ascending-select, Ascending-append,
}
use codex_monitor_group.Client.Saves.{Settled, SavedNext, save_config-SavedNext}

pub own_number :
    (crypto : Crypto) (input : EnqueueInput) (endpoint : String) (payload : Value)
    (key : crypto.Key) (event_id : Text) (c : Config)
    → number (codes c.device_id) (signed_item crypto input endpoint payload key event_id c).envelope
      ≡ some c.next_sequence
unfolding sign
own_number crypto input endpoint payload key event_id c = rw (text_eq_refl (codes c.device_id)) refl

-- What the queue holds ascends below the number of the file.
abbrev Queued : Config → Queue RawMessage → Type 0
Queued d q =
    (now : Events) × (decode q.file.target ≡ ok now)
    × Ascending 1 (sequences (codes d.device_id) now) d.next_sequence

Queued-either :
    (d : Config) (items new : Events) (old : Content Events) (r : Done) (q : Queue RawMessage)
    → Ascending 1 (sequences (codes d.device_id) items) d.next_sequence
    → Ascending 1 (sequences (codes d.device_id) new) d.next_sequence
    → decode old ≡ ok items
    → Saved old new (r, q.file)
    → Queued d q
unfolding decode
Queued-either d items new old (ok _) q before after readable s = (new, ap decode s, after)
Queued-either d items new old (err killed) q before after readable (inl s) =
    (items, ap decode s ∙ readable, before)
Queued-either d items new old (err killed) q before after readable (inr s) =
    (new, ap decode s, after)
Queued-either d items new old (err _) q before after readable s =
    (items, ap decode s ∙ readable, before)

pushed_lem :
    (a : Client) (d : Config) (items new : Events) (old : Content Events) (r : Done)
    → Settled d a
    → Ascending 1 (sequences (codes d.device_id) items) d.next_sequence
    → Ascending 1 (sequences (codes d.device_id) new) d.next_sequence
    → decode old ≡ ok items
    → Saved old new (r, a.queue.file)
    → InStep a
pushed_lem a d items new old r (there, same, level) before after readable saved =
    let (now, readable', h) = Queued-either d items new old r a.queue before after readable saved in
    record {
      disk = d;
      items = now;
      in_file = there;
      in_queue = readable';
      same_device = same;
      not_above = omega (arith, level);
      ascending = h;
    }

push-InStep :
    (input : EnqueueInput) (read : Answer) (item : Item RawMessage) (a : Client) (d : Config)
    (items : Events) (n : ℕ)
    → Settled d a
    → d.next_sequence ≡ suc n
    → number (codes d.device_id) item.envelope ≡ some n
    → Ascending 1 (sequences (codes d.device_id) items) n
    → decode a.queue.file.target ≡ ok items
    → InStep (record a { queue = (Queue.push read input.push input.pushed_at item a.queue).1 })
push-InStep input succeeds item a d items n settled level own h readable =
    let fresh = select (is_fresh (Queue.cutoff input.pushed_at a.queue.retention)) items in
    pushed_lem
      (record a { queue = (Queue.push succeeds input.push input.pushed_at item a.queue).1 }) d items
      (fresh ++ item ∷ []) a.queue.file.target _ settled
      (rw level (upper_bound 1 n (suc n) (sequences (codes d.device_id) items) (omega arith) h))
      (rw level (
        Ascending-append (codes d.device_id) fresh item 1 n own (
          Ascending-select (codes d.device_id)
            (is_fresh (Queue.cutoff input.pushed_at a.queue.retention)) items 1 n h)))
      readable (push-Saved input.push input.pushed_at item a.queue items readable)
push-InStep input (stops why) item a d items n (there, same, l) level own h readable =
    unfold Queue.push Queue.load in
    record {
      disk = d;
      items = items;
      in_file = there;
      in_queue = readable;
      same_device = same;
      not_above = omega (arith, l);
      ascending =
          rw level (upper_bound 1 n (suc n) (sequences (codes d.device_id) items) (omega arith) h);
    }

module _ (platform : Platform) (dpapi : Dpapi) where
  and_push :
      (input : EnqueueInput) (item : Item RawMessage) (a : Client) (n : ℕ) (r : Done) (a' : Client)
      → number (codes a.config.device_id) item.envelope ≡ some n
      → SavedNext a n r a'
      → InStep (and_then r (λ _. (marshal_envelope input.marshals >> push_item input item)) a').1
  and_push input item a n (err e) a' own (kept, _) = kept
  and_push input item a n (ok _) a' own (kept, fresh) =
      let (d, items, settled, level, same, h, readable) = fresh refl in
      unfold marshal_envelope push_item in
      elim (Bool-cases input.marshals) [
        | inl e ↦ rw e (
            push-InStep input input.read item a' d items n settled level
              (ap (λ x. number (codes x) item.envelope) same ∙ own) h readable)
        | inr e ↦ rw e kept
      ]

  queue_signed-InStep :
      (input : EnqueueInput) (item : Item RawMessage) (a : Client)
      → InStep a
      → suc a.config.next_sequence < 2 ^ 64
      → number (codes a.config.device_id) item.envelope ≡ some a.config.next_sequence
      → InStep (queue_signed platform dpapi input item a).1
  unfolding queue_signed
  queue_signed-InStep input item a was small own =
      and_push input item a a.config.next_sequence _ _ own
        (save_config-SavedNext platform dpapi input.save a was small)

  with_key :
      (crypto : Crypto) (input : EnqueueInput) (endpoint : String) (payload : Value)
      (key : Option crypto.Key) (id : Option Text) (a : Client)
      → InStep a
      → suc a.config.next_sequence < 2 ^ 64
      → InStep
          ((do
            k ← lift (Config.or_error bad_key key)
            event_id ← lift (Config.or_error no_random id)
            queue_signed platform dpapi input
                (signed_item crypto input endpoint payload k event_id a.config))
            a).1
  with_key crypto input endpoint payload none id a was small = was
  with_key crypto input endpoint payload (some key) none a was small = was
  with_key crypto input endpoint payload (some key) (some id) a was small =
      queue_signed-InStep input _ a was small
        (own_number crypto input endpoint payload key id a.config)

  -- Where the number behind the client's next one still fits in 64 bits, and whatever `enqueue` then
  -- meets, errors and the death of the process included: if the numbers of the device's queued
  -- events ascend strictly and stay below the number in the configuration file, and that one is not
  -- above the number in memory, then so it is afterwards.
  pub enqueue-InStep :
      (crypto : Crypto) (input : EnqueueInput) (endpoint : String) (payload : Value) (a : Client)
      → InStep a
      → suc a.config.next_sequence < 2 ^ 64
      → InStep (enqueue platform dpapi crypto input endpoint payload a).1
  unfolding enqueue
  enqueue-InStep crypto input endpoint payload a was small =
      with_key crypto input endpoint payload (crypto.read_key a.config.private_key) input.event_id a
        was small
