-- ===== src/Client.antt =====
-- internal/agent/client.go: signing and queueing of events, their delivery, and the recovery from a
-- server that has lost the device. The client's other fields (the HTTP client, the quota, the home
-- discovery, the mutexes) have no part in these methods: `enqueue` and `reEnrollIfCurrent` hold the
-- client's mutex from end to end, and only one goroutine flushes.
pub mod Sequences
pub mod Saves
pub mod Enqueue
pub mod Flush
pub mod Restart
pub mod ReEnroll
pub mod Lifetime
pub mod Enroll
pub mod Delivery
pub mod Numbers
use codex_monitor_group.Base.{
  ℕ, zero, suc, ◌+◌, ◌%◌, ◌^◌, ◌<◌, ◌==◌, ltb, leb, Bool, true, false, not, ◌&&◌, ◌||◌, String,
  List, [], ◌∷◌, ◌++◌, Option, none, some, Error, Result, Done, Exec, ok, err, killed, bad_key,
  no_random, invalid_json, unreachable, enrollment_failed, str_eq, if◌then◌else◌, ◌>>=◌, ◌>>◌, pure,
  lift, on_ok, server_rejected, suc, io, map,
}
use codex_monitor_group.Base.Int.{ℤ, pos}
use codex_monitor_group.Base.Text.{Text, codes, text_eq, contains, lower}
use codex_monitor_group.Store.{Slot, Io, Answer}
use codex_monitor_group.Protocol.{Value, Envelope, Crypto, sign}
use codex_monitor_group.Queue
use codex_monitor_group.Queue.{Queue, Item}
use codex_monitor_group.Config
use codex_monitor_group.Config.{Config, Holder, Platform, Dpapi, defaults}

-- The JSON of a queued event: an envelope, or a text of another origin with what json.Unmarshal
-- finds as its device_id, `none` where it fails.
pub data RawMessage : Type 0 where
  envelope : Envelope → RawMessage
  foreign : Option Text → RawMessage

pub record Client : Type 0 where
  pub config : Config
  pub config_file : Slot Config
  pub queue : Queue RawMessage

-- What one call of `enqueue` takes from outside: randomID, the three readings of the clock, and
-- the answers of the system.
pub record EnqueueInput : Type 0 where
  pub event_id : Option Text
  pub timestamp : Text
  pub created_at : ℤ
  pub pushed_at : ℤ
  pub save : Io
  pub marshals : Bool
  pub read : Answer
  pub push : Io

-- The endpoints' answers to a registration.
pub record EnrollResponse : Type 0 where
  pub device_id : String
  pub student_name : String
  pub device_label : String
  pub otlp_token : String
  pub heartbeat_seconds : ℤ
  pub usage_seconds : ℤ
  pub integrity_seconds : ℤ
  pub classroom_timezone : String

-- A POST of the registration: no connection, or a status and what the body decodes to.
pub data RegisterReply : Type 0 where
  no_connection : RegisterReply
  replied : ℕ → Option EnrollResponse → RegisterReply

unfoldable pub register : RegisterReply → Result EnrollResponse
register no_connection = err unreachable
register (replied status body) =
    if not (status == 200) then err enrollment_failed else Config.or_error invalid_json body

-- What a re-enrollment takes from outside. `telemetry` is what ConfigureTelemetry returned: the
-- fingerprint of Codex's configuration with the new token.
pub record ReEnrollInput : Type 0 where
  pub reply : RegisterReply
  pub telemetry : Result String
  pub clear : Io
  pub save : Io

-- What the server says to a POST of an event: nothing, or a status and the head of the body.
pub data Reply : Type 0 where
  unanswered : Reply
  answered : ℕ → Text → Reply

-- One round of the loop of `Flush`. `request` is whether the endpoint's address is a URL.
pub record Round : Type 0 where
  pub peek : Answer
  pub request : Bool
  pub reply : Reply
  pub pop_read : Answer
  pub pop : Io
  pub re_enroll : ReEnrollInput

-- A round ends the method, with the event that it delivered, if any; or it goes on behind one.
pub data Step : Type 0 where
  stop : List (Item RawMessage) → Done → Client → Step
  again : Item RawMessage → Client → Step

-- What `Flush` returns, the client behind it, and the events that the server accepted, in order.
pub record Flushed : Type 0 where
  pub result : Done
  pub client : Client
  pub delivered : List (Item RawMessage)

abbrev on_holder : Client → Done × Holder → Done × Client
on_holder a (r, h) = (r, record a { config = h.config; config_file = h.file })

abbrev on_queue : Client → Done × Queue RawMessage → Done × Client
on_queue a (r, q) = (r, record a { queue = q })

-- `a.Config.NextSequence++` on a uint64
unfoldable pub bump_sequence : Client → Client
bump_sequence a = record a {
  config = record a.config { next_sequence = (a.config.next_sequence + 1) % 2 ^ 64 };
}

push_item : EnqueueInput → Item RawMessage → Exec Client (Unit {0})
push_item input item a = on_queue a (Queue.push input.read input.push input.pushed_at item a.queue)

-- json.Marshal(envelope)
marshal_envelope : Bool → Exec Client (Unit {0})
marshal_envelope true a = (ok tt, a)
marshal_envelope false a = (err invalid_json, a)

abbrev pub signed_item :
    (crypto : Crypto) → EnqueueInput → String → Value → crypto.Key → Text → Config → Item RawMessage
signed_item crypto input endpoint payload key event_id c = record {
  endpoint = endpoint;
  created_at = input.created_at;
  envelope =
      envelope
        (sign crypto (codes c.device_id) c.next_sequence event_id payload key input.timestamp);
}

-- `updated`, defaults included, before its fingerprint.
unfoldable pub re_enrolled : EnrollResponse → Config → Config
re_enrolled enrolled c = defaults (record c {
  device_id = enrolled.device_id;
  student_name = enrolled.student_name;
  device_label = enrolled.device_label;
  otlp_token = enrolled.otlp_token;
  timezone = enrolled.classroom_timezone;
  heartbeat_seconds = enrolled.heartbeat_seconds;
  usage_seconds = enrolled.usage_seconds;
  integrity_seconds = enrolled.integrity_seconds;
  next_sequence = 1;
})

clear_queue : Io → Exec Client (Unit {0})
clear_queue answers a = on_queue a (Queue.clear answers a.queue)

-- config.Save(a.ConfigPath, &updated), then `a.Config = &updated` if there was no error.
abbrev pub adopt : Client → Done × Holder → Done × Client
adopt a (ok _, h) = (ok tt, record a { config = h.config; config_file = h.file })
adopt a (err e, h) = (err e, record a { config_file = h.file })

-- `json.Unmarshal(item.Envelope, &stale)`
abbrev stale_id : RawMessage → Option Text
stale_id (envelope e) = some e.device_id
stale_id (foreign id) = id

abbrev pub is_success : ℕ → Bool
is_success status = not (ltb status 200 || leb 300 status)

-- 401 and, in any case of letters, "unknown device" somewhere in the body.
unfoldable pub is_unknown_device : ℕ → Text → Bool
is_unknown_device status body = status == 401 && contains (map lower body) (codes "unknown device")

pop_step : Item RawMessage → Done × Queue RawMessage → Client → Step
pop_step item (ok _, q) a = again item (record a { queue = q })
pop_step item (err e, q) a = stop (item ∷ []) (err e) (record a { queue = q })

abbrev deliver : List (Item RawMessage) → Option Flushed → Option Flushed
deliver items none = none
deliver items (some f) = some (record f { delivered = items ++ f.delivered })

-- The loop goes on behind a round that delivered an event.
unfoldable pub after_round : Step → (Client → Option Flushed) → Option Flushed
after_round (stop delivered r a) rest =
    some (record { result = r; client = a; delivered = delivered })
after_round (again item a) rest = deliver (item ∷ []) (rest a)

module _ (platform : Platform) (dpapi : Dpapi) where
  -- config.Save(a.ConfigPath, a.Config)
  unfoldable pub save_config : Io → Exec Client (Unit {0})
  save_config answers a =
      on_holder a
        (Config.save dpapi platform answers (record { config = a.config; file = a.config_file }))

  -- `enqueue` from the signature on: the sequence number is taken and the configuration saved
  -- before the event is queued.
  unfoldable pub queue_signed : EnqueueInput → Item RawMessage → Exec Client (Unit {0})
  unfolding push_item marshal_envelope
  queue_signed input item a =
      (do save_config input.save; marshal_envelope input.marshals; push_item input item)
        (bump_sequence a)

  unfoldable pub enqueue : Crypto → EnqueueInput → String → Value → Exec Client (Unit {0})
  enqueue crypto input endpoint payload a =
      (do
        key ← lift (Config.or_error bad_key (crypto.read_key a.config.private_key))
        event_id ← lift (Config.or_error no_random input.event_id)
        queue_signed input (signed_item crypto input endpoint payload key event_id a.config))
        a

  adopt_updated : Io → Config → Exec Client (Unit {0})
  adopt_updated answers updated a =
      adopt a
        (Config.save dpapi platform answers (record { config = updated; file = a.config_file }))

  unfoldable pub re_enroll_if_current : ReEnrollInput → Text → Exec Client (Unit {0})
  unfolding clear_queue adopt_updated
  re_enroll_if_current input stale a =
      if not (text_eq (codes a.config.device_id) stale)
      then (ok tt, a)
      else (do
        enrolled ← lift (register input.reply)
        fingerprint ← lift input.telemetry
        clear_queue input.clear
        adopt_updated input.save
            (record (re_enrolled enrolled a.config) { expected_config_hash = fingerprint }))
          a

  re_enroll_step : ReEnrollInput → Option Text → Client → Step
  re_enroll_step input none a = stop [] (err invalid_json) a
  re_enroll_step input (some id) a =
      stop [] (re_enroll_if_current input id a).0 (re_enroll_if_current input id a).1

  reply_step : Round → Item RawMessage → Reply → Client → Step
  unfolding re_enroll_step pop_step
  reply_step round item unanswered a = stop [] (err unreachable) a
  reply_step round item (answered status body) a =
      if is_success status
      then pop_step item (Queue.pop round.pop_read round.pop a.queue) a
      else if is_unknown_device status body
      then re_enroll_step round.re_enroll (stale_id item.envelope) a
      else stop [] (err server_rejected) a

  peek_step : Round → Result (Option (Item RawMessage)) → Client → Step
  unfolding reply_step
  peek_step round (err e) a = stop [] (err e) a
  peek_step round (ok none) a = stop [] (ok tt) a
  peek_step round (ok (some item)) a =
      if round.request then reply_step round item round.reply a else stop [] (err io) a

  unfoldable pub flush_round : Round → Client → Step
  unfolding peek_step
  flush_round round a = peek_step round (Queue.peek round.peek a.queue).0 a

  -- The loop of `Flush` on fuel; `rounds n` is what the n-th round meets.
  unfoldable pub flush : ℕ → (ℕ → Round) → Client → Option Flushed
  flush zero rounds a = none
  flush (suc fuel) rounds a =
      let rest = λ (a' : Client). flush fuel (λ n. rounds (suc n)) a' in
      after_round (flush_round (rounds 0) a) rest
