-- ===== src/Client/Lifetime.antt =====
-- The sequence numbers through the whole life of an agent.
use codex_monitor_group.Base.{
  ℕ, zero, suc, ◌<◌, ◌^◌, ◌≡◌, inl, inr, refl, sym, ◌∙◌, ap, [], ◌∷◌, Option, none, some, Done, ok,
  err, killed, arith, Bool-cases, length, subst, ◌≢◌, ok-injective, String, subst,
}
use codex_monitor_group.Base.Text.{Text, codes}
use codex_monitor_group.Store.{Answer, succeeds, stops, Saved, Content, Io}
use codex_monitor_group.Protocol.{Crypto, Value}
use codex_monitor_group.Queue
use codex_monitor_group.Queue.{Queue, Item, decode}
use codex_monitor_group.Queue.Laws.{pop-Saved, pop_unread, peek_unread, peek-head}
use codex_monitor_group.Config
use codex_monitor_group.Config.{Config, Platform, Dpapi}
use codex_monitor_group.Client.{
  Client, RawMessage, Round, Step, stop, again, Flushed, Reply, unanswered, answered, is_success,
  is_unknown_device, stale_id, pop_step, reply_step, peek_step, re_enroll_step, flush_round, flush,
  after_round, deliver, EnqueueInput, enqueue, save_config,
}
use codex_monitor_group.Client.Sequences.{
  Events, number, sequences, Ascending, InStep, Ascending-skip,
}
use codex_monitor_group.Client.Enqueue.{enqueue-InStep}
use codex_monitor_group.Client.Saves.{resaved-InStep}
use codex_monitor_group.Client.ReEnroll.{re_enroll-Survives}
use codex_monitor_group.Client.Restart.{
  Survives, Restartable, InStep-Restartable, still-InStep, restart-InStep,
}

-- A step leaves the client in step, with fewer events where the loop goes on.
abbrev SafeStep : Events → Step → Type 0
SafeStep items (stop _ r a) = Survives r a
SafeStep items (again _ a) = (was : InStep a) × (length was.items < length items)

popped-InStep :
    (a : Client) (was : InStep a) (item : Item RawMessage) (rest : Events) (q : Queue RawMessage)
    → was.items ≡ item ∷ rest
    → decode q.file.target ≡ ok rest
    → (now : InStep (record a { queue = q })) × (now.items ≡ rest)
popped-InStep a was item rest q e readable = (
  record {
    disk = was.disk;
    items = rest;
    in_file = was.in_file;
    in_queue = readable;
    same_device = was.same_device;
    not_above = was.not_above;
    ascending =
        Ascending-skip 1 was.disk.next_sequence (number (codes was.disk.device_id) item.envelope)
          (sequences (codes was.disk.device_id) rest)
          (subst
            (λ xs. Ascending 1 (sequences (codes was.disk.device_id) xs) was.disk.next_sequence) e
            was.ascending);
  },
  refl,
)

pop_step-Safe :
    (a : Client) (was : InStep a) (item : Item RawMessage) (rest : Events) (old : Content Events)
    (r : Done) (q : Queue RawMessage)
    → was.items ≡ item ∷ rest
    → decode old ≡ ok was.items
    → Saved old rest (r, q.file)
    → SafeStep was.items (pop_step item (r, q) a)
unfolding pop_step decode
pop_step-Safe a was item rest old (ok _) q e readable s =
    let (now, same) = popped-InStep a was item rest q e (ap decode s) in
    (now, omega (arith, ap length e, ap length same))
pop_step-Safe a was item rest old (err killed) q e readable (inl s) =
    inl (still-InStep a was q (ap decode s ∙ readable))
pop_step-Safe a was item rest old (err killed) q e readable (inr s) =
    inl (popped-InStep a was item rest q e (ap decode s)).0
pop_step-Safe a was item rest old (err _) q e readable s =
    inl (still-InStep a was q (ap decode s ∙ readable))

module _ (platform : Platform) (dpapi : Dpapi) where
  pop-Safe :
      (a : Client) (was : InStep a) (item : Item RawMessage) (rest : Events) (read : Answer)
      (round : Round)
      → was.items ≡ item ∷ rest
      → SafeStep was.items (pop_step item (Queue.pop read round.pop a.queue) a)
  unfolding pop_step
  pop-Safe a was item rest succeeds round e =
      pop_step-Safe a was item rest a.queue.file.target _ _ e was.in_queue
        (pop-Saved round.pop a.queue item rest (was.in_queue ∙ ap ok e))
  pop-Safe a was item rest (stops why) round e = rw pop_unread (inl was)

  re_enroll_step-Safe :
      (round : Round) (id : Option Text) (a : Client) (was : InStep a)
      → SafeStep was.items (re_enroll_step platform dpapi round.re_enroll id a)
  unfolding re_enroll_step
  re_enroll_step-Safe round none a was = inl was
  re_enroll_step-Safe round (some id) a was =
      re_enroll-Survives platform dpapi round.re_enroll id a was

  reply-Safe :
      (round : Round) (item : Item RawMessage) (rest : Events) (reply : Reply) (a : Client)
      (was : InStep a)
      → was.items ≡ item ∷ rest
      → SafeStep was.items (reply_step platform dpapi round item reply a)
  unfolding reply_step
  reply-Safe round item rest unanswered a was e = inl was
  reply-Safe round item rest (answered status body) a was e =
      elim (Bool-cases (is_success status)) [
        | inl s ↦ rw s (pop-Safe a was item rest round.pop_read round e)
        | inr s ↦ elim (Bool-cases (is_unknown_device status body)) [
          | inl u ↦ simp (s, u) (re_enroll_step-Safe round (stale_id item.envelope) a was)
          | inr u ↦ simp (s, u) (inl was)
        ]
      ]

  peek-Safe :
      (round : Round) (items : Events) (a : Client) (was : InStep a)
      → was.items ≡ items
      → SafeStep was.items (peek_step platform dpapi round (ok (Queue.first items)) a)
  unfolding peek_step Queue.first
  peek-Safe round [] a was e = inl was
  peek-Safe round (item ∷ rest) a was e = elim (Bool-cases round.request) [
    | inl r ↦ rw r (reply-Safe round item rest round.reply a was e)
    | inr r ↦ rw r (inl was)
  ]

  round-Safe :
      (round : Round) (answer : Answer) (a : Client) (was : InStep a)
      → SafeStep was.items (peek_step platform dpapi round (Queue.peek answer a.queue).0 a)
  round-Safe round succeeds a was =
      rw (peek-head a.queue was.items was.in_queue) (peek-Safe round was.items a was refl)
  round-Safe round (stops why) a was = rw peek_unread (unfold peek_step in inl was)

  step-Survives :
      (fuel : ℕ) (rounds : ℕ → Round) (items : Events) (step : Step)
      → SafeStep items step
      → length items < suc fuel
      → ((a : Client) (was : InStep a)
          → length was.items < fuel
          → (f : Flushed) × (flush platform dpapi fuel rounds a ≡ some f)
            × Survives f.result f.client)
      → (f : Flushed) × (after_round step (flush platform dpapi fuel rounds) ≡ some f)
        × Survives f.result f.client
  unfolding after_round
  step-Survives fuel rounds items (stop delivered r a) safe short later = (_, refl, safe)
  step-Survives fuel rounds items (again item a) (was, fewer) short later =
      let (f, found, inside) = later a was (omega (arith, fewer, short)) in
      (record f { delivered = item ∷ f.delivered }, ap (deliver (item ∷ [])) found, inside)

  -- The loop of `Flush` over a client in step ends within one round more than there are events,
  -- whatever the network, the server and the system answer, a re-enrollment included; then the
  -- client is in step, or the process died in it and the files are such that a start is in step.
  pub flush-Survives :
      (fuel : ℕ) (rounds : ℕ → Round) (a : Client) (was : InStep a)
      → length was.items < fuel
      → (f : Flushed) × (flush platform dpapi fuel rounds a ≡ some f) × Survives f.result f.client
  unfolding flush flush_round
  flush-Survives zero rounds a was short = elim short [ ]
  flush-Survives (suc fuel) rounds a was short =
      step-Survives fuel (λ n. rounds (suc n)) was.items _
        (round-Safe (rounds 0) (rounds 0).peek a was) short
        λ a' was' fewer. flush-Survives fuel (λ n. rounds (suc n)) a' was' fewer

-- The client that starts over the files of another one.
abbrev pub restarted : Client → Config → Client
restarted a c = record a { config = c; queue = Queue.new a.queue.file c.retention_days }

-- What an agent goes through: events that it queues while their number fits, saves of its
-- configuration with another Codex home, as refreshCodexHome makes them, flushes with fuel for every
-- event, and starts over what the last process left, also one that died in an `enqueue`, a save, a
-- flush or a re-enrollment.
pub data Life (platform : Platform) (dpapi : Dpapi) (crypto : Crypto) (start : Client)
    : Client → Type 1 where
  born : Life platform dpapi crypto start start
  enqueued :
      (a : Client) (input : EnqueueInput) (endpoint : String) (payload : Value)
      → Life platform dpapi crypto start a
      → suc a.config.next_sequence < 2 ^ 64
      → Life platform dpapi crypto start (enqueue platform dpapi crypto input endpoint payload a).1
  moved :
      (a : Client) (answers : Io) (home : String) (hash : String)
      → Life platform dpapi crypto start a
      → Life platform dpapi crypto start
          (save_config platform dpapi answers (record a {
            config = record a.config { codex_home = home; expected_config_hash = hash };
          })).1
  flushed :
      (a : Client) (items : Events) (fuel : ℕ) (rounds : ℕ → Round) (f : Flushed)
      → Life platform dpapi crypto start a
      → decode a.queue.file.target ≡ ok items
      → length items < fuel
      → flush platform dpapi fuel rounds a ≡ some f
      → f.result ≢ err killed
      → Life platform dpapi crypto start f.client
  died :
      (a : Client) (items : Events) (fuel : ℕ) (rounds : ℕ → Round) (f : Flushed) (c : Config)
      → Life platform dpapi crypto start a
      → decode a.queue.file.target ≡ ok items
      → length items < fuel
      → flush platform dpapi fuel rounds a ≡ some f
      → (Config.load dpapi platform succeeds f.client.config_file).0 ≡ ok c
      → Life platform dpapi crypto start (restarted f.client c)
  stopped :
      (a : Client) (c : Config)
      → Life platform dpapi crypto start a
      → (Config.load dpapi platform succeeds a.config_file).0 ≡ ok c
      → Life platform dpapi crypto start (restarted a c)

module _ (platform : Platform) (dpapi : Dpapi) (crypto : Crypto) where
  flush-Survives_all :
      (a : Client) (items : Events) (fuel : ℕ) (rounds : ℕ → Round) (f : Flushed)
      → InStep a
      → decode a.queue.file.target ≡ ok items
      → length items < fuel
      → flush platform dpapi fuel rounds a ≡ some f
      → Survives f.result f.client
  flush-Survives_all a items fuel rounds f was readable short found =
      let same : was.items ≡ items = ok-injective (sym was.in_queue ∙ readable) in
      let (g, found_g, safe) =
        flush-Survives platform dpapi fuel rounds a was (omega (arith, short, ap length same)) in
      let eq : g ≡ f = cc (found, found_g) in
      subst (λ (x : Flushed). Survives x.result x.client) eq safe

  revived : (r : Done) (a : Client) → Survives r a → Restartable a
  revived r a (inl was) = InStep-Restartable a was
  revived r a (inr (_, was)) = was

  alive : (r : Done) (a : Client) → r ≢ err killed → Survives r a → InStep a
  alive r a not_dead (inl was) = was
  alive r a not_dead (inr (dead, _)) = absurd (not_dead dead)

  -- At every point of an agent's life that starts in step, re-enrollments among its flushes
  -- included: the queue file can be decoded, and the numbers of the events in it that are signed for
  -- the device of the configuration file ascend strictly, so that no two of them are the same; they
  -- stay below the number in that file, which is not above the one that the client takes next.
  pub Life-InStep :
      (start now : Client) → InStep start → Life platform dpapi crypto start now → InStep now
  Life-InStep start now was born = was
  Life-InStep start now was (enqueued a input endpoint payload life small) =
      enqueue-InStep platform dpapi crypto input endpoint payload a (Life-InStep start a was life)
        small
  Life-InStep start now was (moved a answers home hash life) =
      (resaved-InStep platform dpapi answers a (Life-InStep start a was life)
        (record a.config { codex_home = home; expected_config_hash = hash }) refl refl).0
  Life-InStep start now was (flushed a items fuel rounds f life readable short found not_dead) =
      alive f.result f.client not_dead (
        flush-Survives_all a items fuel rounds f (Life-InStep start a was life) readable short
          found)
  Life-InStep start now was (died a items fuel rounds f c life readable short found loaded) =
      restart-InStep platform dpapi succeeds f.client c
        (revived f.result f.client (
          flush-Survives_all a items fuel rounds f (Life-InStep start a was life) readable short
            found))
        loaded
  Life-InStep start now was (stopped a c life loaded) =
      restart-InStep platform dpapi succeeds a c
        (InStep-Restartable a (Life-InStep start a was life)) loaded
