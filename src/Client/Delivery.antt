-- ===== src/Client/Delivery.antt =====
-- `Flush` of internal/agent/client.go where the server accepts the events.
use codex_monitor_group.Base.{
  ℕ, zero, suc, ◌<◌, ◌≡◌, refl, ap, ◌∙◌, subst, Bool, true, false, String, [], ◌∷◌, ◌++◌, Option,
  none, some, Done, ok, err, arith, length, select, ◌>>=◌, ◌>>◌, and_then, lift, bad_key, no_random,
}
use codex_monitor_group.Base.Text.{Text}
use codex_monitor_group.Store.{succeeds, absent, json}
use codex_monitor_group.Protocol.{Crypto, Value}
use codex_monitor_group.Queue
use codex_monitor_group.Queue.{Queue, Item, decode, is_fresh, save_file}
use codex_monitor_group.Queue.Laws.{pop-IsFine, peek-head, push_ok}
use codex_monitor_group.Config
use codex_monitor_group.Config.{Platform, Dpapi}
use codex_monitor_group.Client.{
  Client, RawMessage, Round, answered, again, flush, flush_round, peek_step, reply_step, pop_step,
  after_round, deliver, is_success, EnqueueInput, enqueue, queue_signed, signed_item, save_config,
  marshal_envelope, push_item, bump_sequence, stop,
}
use codex_monitor_group.Client.Sequences.{Events}
use codex_monitor_group.Store.Crash.{IsFine}

-- The server accepts the event, and the system does what it is asked.
pub record Accepts (round : Round) : Type 0 where
  pub peek : round.peek ≡ succeeds
  pub request : round.request ≡ true
  pub status : ℕ
  pub body : Text
  pub reply : round.reply ≡ answered status body
  pub success : is_success status ≡ true
  pub pop_read : round.pop_read ≡ succeeds
  pub pop : IsFine round.pop

module _ (platform : Platform) (dpapi : Dpapi) where
  accepted :
      (round : Round) (a : Client) (item : Item RawMessage) (rest : Events)
      → Accepts round
      → decode a.queue.file.target ≡ ok (item ∷ rest)
      → (b : Client) × (flush_round platform dpapi round a ≡ again item b)
        × (decode b.queue.file.target ≡ ok rest)
  unfolding flush_round peek_step reply_step pop_step Queue.first decode
  accepted round a item rest good readable = (
    record a { queue = record a.queue { file = record { target = json rest; tmp = absent } } },
    simp
        (
          good.peek,
          peek-head a.queue (item ∷ rest) readable,
          good.request,
          good.reply,
          good.success,
          good.pop_read,
          pop-IsFine round.pop a.queue item rest good.pop readable,
        )
        refl,
    refl,
  )

  ended :
      (round : Round) (a : Client)
      → Accepts round
      → decode a.queue.file.target ≡ ok []
      → flush_round platform dpapi round a ≡ stop [] (ok tt) a
  unfolding flush_round peek_step Queue.first
  ended round a good readable = simp (good.peek, peek-head a.queue [] readable) refl

  -- The loop of `Flush` over a queue that can be read, where the server accepts each event and the
  -- system does what it is asked: within one round more than there are events it returns without
  -- an error, has delivered all of them in their order, and the queue is empty.
  pub flush-Delivers :
      (fuel : ℕ) (rounds : ℕ → Round) (a : Client) (items : Events)
      → ((n : ℕ) → Accepts (rounds n))
      → decode a.queue.file.target ≡ ok items
      → length items < fuel
      → (b : Client) × (flush platform dpapi fuel rounds a
          ≡ some (record { result = ok tt; client = b; delivered = items }))
        × (decode b.queue.file.target ≡ ok [])
  unfolding flush after_round
  flush-Delivers zero rounds a items good readable short = elim short [ ]
  flush-Delivers (suc fuel) rounds a [] good readable short =
      (a, rw (ended (rounds 0) a (good 0) readable) refl, readable)
  flush-Delivers (suc fuel) rounds a (item ∷ rest) good readable short =
      let (b, taken, left) = accepted (rounds 0) a item rest (good 0) readable in
      let (c, found, empty) =
        flush-Delivers fuel (λ n. rounds (suc n)) b rest (λ n. good (suc n)) left
          (omega (arith, short)) in
      (c, rw taken (ap (deliver (item ∷ [])) found), empty)

  -- The events behind one that was queued.
  abbrev pub Behind : EnqueueInput → Events → Item RawMessage → Client → Client → Type 0
  Behind input items item a b =
      decode b.queue.file.target
      ≡ ok (select (is_fresh (Queue.cutoff input.pushed_at a.queue.retention)) items ++ item ∷ [])

  queued_ok :
      (input : EnqueueInput) (item : Item RawMessage) (a b : Client) (items : Events) (r : Done)
      (marshals : Bool)
      → b.queue ≡ a.queue
      → decode a.queue.file.target ≡ ok items
      → (and_then r (λ _. (marshal_envelope marshals >> push_item input item)) b).0 ≡ ok tt
      → Behind input items item a
          (and_then r (λ _. (marshal_envelope marshals >> push_item input item)) b).1
  unfolding push_item marshal_envelope
  queued_ok input item a b items (err e) m same readable h = absurd (cc h)
  queued_ok input item a b items (ok _) false same readable h = absurd (cc h)
  queued_ok input item a b items (ok _) true same readable h =
      subst
        (λ (q : Queue RawMessage).
          decode (Queue.push input.read input.push input.pushed_at item b.queue).1.file.target
          ≡ ok (select (is_fresh (Queue.cutoff input.pushed_at q.retention)) items ++ item ∷ []))
        same
        (push_ok input.read input.push input.pushed_at item b.queue items
          (ap (λ (q : Queue RawMessage). decode q.file.target) same ∙ readable) h)

  signed_ok :
      (input : EnqueueInput) (item : Item RawMessage) (a : Client) (items : Events)
      → decode a.queue.file.target ≡ ok items
      → (queue_signed platform dpapi input item a).0 ≡ ok tt
      → Behind input items item a (queue_signed platform dpapi input item a).1
  unfolding queue_signed save_config bump_sequence
  signed_ok input item a items readable h =
      let saved = save_config platform dpapi input.save (bump_sequence a) in
      queued_ok input item a saved.1 items saved.0 input.marshals refl readable h

  -- `enqueue` from the key and the identifier on.
  abbrev enqueue_with :
      (crypto : Crypto)
      → EnqueueInput
      → String
      → Value
      → Option crypto.Key
      → Option Text
      → Client
      → Done × Client
  enqueue_with crypto input endpoint payload key id a =
      (do
        k ← lift (Config.or_error bad_key key)
        event_id ← lift (Config.or_error no_random id)
        queue_signed platform dpapi input
            (signed_item crypto input endpoint payload k event_id a.config))
        a

  with_key_ok :
      (crypto : Crypto) (input : EnqueueInput) (endpoint : String) (payload : Value) (a : Client)
      (items : Events) (k : Option crypto.Key) (i : Option Text)
      → decode a.queue.file.target ≡ ok items
      → (enqueue_with crypto input endpoint payload k i a).0 ≡ ok tt
      → (key : crypto.Key) × (id : Text) × (k ≡ some key)
        × (i ≡ some id)
        × Behind input items
            (signed_item crypto input endpoint payload key id a.config)
            a
            (enqueue_with crypto input endpoint payload k i a).1
  with_key_ok crypto input endpoint payload a items none i readable h = absurd (cc h)
  with_key_ok crypto input endpoint payload a items (some key) none readable h = absurd (cc h)
  with_key_ok crypto input endpoint payload a items (some key) (some id) readable h =
      (key, id, refl, refl, signed_ok input _ a items readable h)

  -- An `enqueue` that returns no error has signed the event and put it behind those that are kept.
  pub enqueue_ok :
      (crypto : Crypto) (input : EnqueueInput) (endpoint : String) (payload : Value) (a : Client)
      (items : Events)
      → decode a.queue.file.target ≡ ok items
      → (enqueue platform dpapi crypto input endpoint payload a).0 ≡ ok tt
      → (key : crypto.Key) × (id : Text) × (crypto.read_key a.config.private_key ≡ some key)
        × (input.event_id ≡ some id)
        × Behind input items
            (signed_item crypto input endpoint payload key id a.config)
            a
            (enqueue platform dpapi crypto input endpoint payload a).1
  unfolding enqueue
  enqueue_ok crypto input endpoint payload a items readable h =
      with_key_ok crypto input endpoint payload a items (crypto.read_key a.config.private_key)
        input.event_id readable h
