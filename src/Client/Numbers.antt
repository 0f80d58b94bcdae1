-- ===== src/Client/Numbers.antt =====
-- How far the next sequence number of a client goes: an `enqueue` takes one number, and a flush none.
use codex_monitor_group.Base.{
  ℕ, zero, suc, ◌+◌, ◌≤◌, ◌<◌, ◌^◌, ◌%◌, ◌≡◌, ◌≢◌, refl, ap, subst, Bool, true, false, String, [],
  ◌∷◌, Option, none, some, Result, Done, ok, err, Exec, ◌>>=◌, ◌>>◌, and_then, lift, arith,
  Bool-cases, inl, inr, bad_key, no_random,
}
use codex_monitor_group.Base.Text.{Text, codes, text_eq}
use codex_monitor_group.Store.{Io}
use codex_monitor_group.Protocol.{Crypto, Value}
use codex_monitor_group.Queue
use codex_monitor_group.Queue.{Queue, Item}
use codex_monitor_group.Config
use codex_monitor_group.Config.{Config, Holder, Platform, Dpapi, defaults, or_one}
use codex_monitor_group.Config.Identity.{held-SameIdentity}
use codex_monitor_group.Client.{
  Client, RawMessage, EnrollResponse, ReEnrollInput, Round, Reply, unanswered, answered, Step, stop,
  again, Flushed, register, re_enrolled, clear_queue, adopt, adopt_updated, re_enroll_if_current,
  re_enroll_step, reply_step, peek_step, pop_step, flush_round, flush, after_round, deliver,
  is_success, is_unknown_device, stale_id, EnqueueInput, enqueue, queue_signed, signed_item,
  save_config, marshal_envelope, push_item, bump_sequence,
}

-- The client that a step leaves takes at most this number next.
abbrev StepUpTo : ℕ → Step → Type 0
StepUpTo n (stop _ r a) = a.config.next_sequence ≤ n
StepUpTo n (again _ a) = a.config.next_sequence ≤ n

adopt-upto :
    (n : ℕ) (a : Client) (r : Done) (h : Holder)
    → a.config.next_sequence ≤ n
    → h.config.next_sequence ≤ n
    → (adopt a (r, h)).1.config.next_sequence ≤ n
adopt-upto n a (ok _) h l m = m
adopt-upto n a (err e) h l m = l

popped-upto :
    (n : ℕ) (item : Item RawMessage) (r : Done) (q : Queue RawMessage) (a : Client)
    → a.config.next_sequence ≤ n
    → StepUpTo n (pop_step item (r, q) a)
unfolding pop_step
popped-upto n item (ok _) q a l = l
popped-upto n item (err e) q a l = l

module _ (platform : Platform) (dpapi : Dpapi) where
  adopt_updated-upto :
      (n : ℕ) (answers : Io) (updated : Config) (a : Client) (r : Done)
      → 1 ≤ n
      → a.config.next_sequence ≤ n
      → updated.next_sequence ≡ 1
      → (and_then r (λ _. adopt_updated platform dpapi answers updated) a).1.config.next_sequence
        ≤ n
  unfolding adopt_updated
  adopt_updated-upto n answers updated a (err e) positive l one = l
  adopt_updated-upto n answers updated a (ok _) positive l one =
      let before : Holder = record { config = updated; file = a.config_file } in
      let present : updated.next_sequence ≢ 0 = λ e. omega (arith, e, one) in
      let held = held-SameIdentity dpapi platform answers before present in
      adopt-upto n a (Config.save dpapi platform answers before).0
        (Config.save dpapi platform answers before).1 l
        (omega (arith, held.next_sequence, one, positive))

  registered-upto :
      (n : ℕ) (input : ReEnrollInput) (enrolled : Result EnrollResponse) (telemetry : Result String)
      (a : Client)
      → 1 ≤ n
      → a.config.next_sequence ≤ n
      → let body : Exec Client (Unit {0}) = (do
        e ← lift enrolled
        fingerprint ← lift telemetry
        clear_queue input.clear
        adopt_updated platform dpapi input.save
            (record (re_enrolled e a.config) { expected_config_hash = fingerprint })) in
        (body a).1.config.next_sequence ≤ n
  unfolding clear_queue re_enrolled defaults or_one
  registered-upto n input (err e) telemetry a positive l = l
  registered-upto n input (ok enrolled) (err e) a positive l = l
  registered-upto n input (ok enrolled) (ok fingerprint) a positive l =
      adopt_updated-upto n input.save
        (record (re_enrolled enrolled a.config) { expected_config_hash = fingerprint })
        (record a { queue = (Queue.clear input.clear a.queue).1 }) _ positive l refl

  re_enroll-upto :
      (n : ℕ) (input : ReEnrollInput) (stale : Text) (a : Client)
      → 1 ≤ n
      → a.config.next_sequence ≤ n
      → (re_enroll_if_current platform dpapi input stale a).1.config.next_sequence ≤ n
  unfolding re_enroll_if_current
  re_enroll-upto n input stale a positive l =
      elim (Bool-cases (text_eq (codes a.config.device_id) stale)) [
        | inl e ↦ rw e (registered-upto n input (register input.reply) input.telemetry a positive l)
        | inr e ↦ rw e l
      ]

  stale-upto :
      (n : ℕ) (input : ReEnrollInput) (id : Option Text) (a : Client)
      → 1 ≤ n
      → a.config.next_sequence ≤ n
      → StepUpTo n (re_enroll_step platform dpapi input id a)
  unfolding re_enroll_step
  stale-upto n input none a positive l = l
  stale-upto n input (some id) a positive l = re_enroll-upto n input id a positive l

  reply-upto :
      (n : ℕ) (round : Round) (item : Item RawMessage) (reply : Reply) (a : Client)
      → 1 ≤ n
      → a.config.next_sequence ≤ n
      → StepUpTo n (reply_step platform dpapi round item reply a)
  unfolding reply_step
  reply-upto n round item unanswered a positive l = l
  reply-upto n round item (answered status body) a positive l =
      elim (Bool-cases (is_success status)) [
        | inl s ↦ rw s (popped-upto n item _ _ a l)
        | inr s ↦ elim (Bool-cases (is_unknown_device status body)) [
          | inl u ↦ simp (s, u) (stale-upto n round.re_enroll (stale_id item.envelope) a positive l)
          | inr u ↦ simp (s, u) l
        ]
      ]

  peek-upto :
      (n : ℕ) (round : Round) (head : Result (Option (Item RawMessage))) (a : Client)
      → 1 ≤ n
      → a.config.next_sequence ≤ n
      → StepUpTo n (peek_step platform dpapi round head a)
  unfolding peek_step
  peek-upto n round (err e) a positive l = l
  peek-upto n round (ok none) a positive l = l
  peek-upto n round (ok (some item)) a positive l = elim (Bool-cases round.request) [
    | inl r ↦ rw r (reply-upto n round item round.reply a positive l)
    | inr r ↦ rw r l
  ]

  delivered-some :
      (item : Item RawMessage) (o : Option Flushed) (f : Flushed)
      → deliver (item ∷ []) o ≡ some f
      → (g : Flushed) × (o ≡ some g) × (g.client ≡ f.client)
  delivered-some item none f h = absurd (cc h)
  delivered-some item (some g) f h = (g, refl, cc h)

  round-upto :
      (n : ℕ) (step : Step) (rest : Client → Option Flushed) (f : Flushed)
      → StepUpTo n step
      → ((a : Client) (g : Flushed)
          → a.config.next_sequence ≤ n
          → rest a ≡ some g
          → g.client.config.next_sequence ≤ n)
      → after_round step rest ≡ some f
      → f.client.config.next_sequence ≤ n
  unfolding after_round
  round-upto n (stop delivered r a) rest f l later h =
      let same : a ≡ f.client = cc h in subst (λ (c : Client). c.config.next_sequence ≤ n) same l
  round-upto n (again item a) rest f l later h =
      let (g, found, same) = delivered-some item (rest a) f h in
      subst (λ (c : Client). c.config.next_sequence ≤ n) same (later a g l found)

  -- A flush takes no number, and a re-enrollment in it starts again at 1.
  pub flush-upto :
      (n fuel : ℕ) (rounds : ℕ → Round) (a : Client) (f : Flushed)
      → 1 ≤ n
      → a.config.next_sequence ≤ n
      → flush platform dpapi fuel rounds a ≡ some f
      → f.client.config.next_sequence ≤ n
  unfolding flush flush_round
  flush-upto n zero rounds a f positive l h = absurd (cc h)
  flush-upto n (suc fuel) rounds a f positive l h =
      round-upto n _ (flush platform dpapi fuel (λ k. rounds (suc k))) f
        (peek-upto n (rounds 0) _ a positive l)
        (λ b g m found. flush-upto n fuel (λ k. rounds (suc k)) b g positive m found) h

  pushed_keeps :
      (input : EnqueueInput) (item : Item RawMessage) (marshals : Bool) (r : Done) (a : Client)
      → (and_then r (λ _. (marshal_envelope marshals >> push_item input item)) a).1.config
        ≡ a.config
  unfolding marshal_envelope push_item
  pushed_keeps input item marshals (err e) a = refl
  pushed_keeps input item true (ok _) a = refl
  pushed_keeps input item false (ok _) a = refl

  signed-upto :
      (input : EnqueueInput) (item : Item RawMessage) (a : Client)
      → suc a.config.next_sequence < 2 ^ 64
      → (queue_signed platform dpapi input item a).1.config.next_sequence
        ≤ suc a.config.next_sequence
  unfolding queue_signed save_config bump_sequence
  signed-upto input item a small =
      let c = record a.config { next_sequence = (a.config.next_sequence + 1) % 2 ^ 64 } in
      let level : c.next_sequence ≡ suc a.config.next_sequence = omega (arith, small) in
      let before : Holder = record { config = c; file = a.config_file } in
      let present : c.next_sequence ≢ 0 = λ e. omega (arith, e, level) in
      let held = held-SameIdentity dpapi platform input.save before present in
      let saved = save_config platform dpapi input.save (bump_sequence a) in
      let kept = pushed_keeps input item input.marshals saved.0 saved.1 in
      omega (arith, held.next_sequence, level, ap (λ (x : Config). x.next_sequence) kept)

  keyed-upto :
      (crypto : Crypto) (input : EnqueueInput) (endpoint : String) (payload : Value)
      (key : Option crypto.Key) (id : Option Text) (a : Client)
      → suc a.config.next_sequence < 2 ^ 64
      → ((do
        k ← lift (Config.or_error bad_key key)
        event_id ← lift (Config.or_error no_random id)
        queue_signed platform dpapi input
            (signed_item crypto input endpoint payload k event_id a.config))
          a).1.config.next_sequence
        ≤ suc a.config.next_sequence
  keyed-upto crypto input endpoint payload none id a small = omega arith
  keyed-upto crypto input endpoint payload (some key) none a small = omega arith
  keyed-upto crypto input endpoint payload (some key) (some id) a small =
      signed-upto input _ a small

  -- An `enqueue` takes at most one number.
  pub enqueue-upto :
      (crypto : Crypto) (input : EnqueueInput) (endpoint : String) (payload : Value) (a : Client)
      → suc a.config.next_sequence < 2 ^ 64
      → (enqueue platform dpapi crypto input endpoint payload a).1.config.next_sequence
        ≤ suc a.config.next_sequence
  unfolding enqueue
  enqueue-upto crypto input endpoint payload a small =
      keyed-upto crypto input endpoint payload (crypto.read_key a.config.private_key) input.event_id
        a small
