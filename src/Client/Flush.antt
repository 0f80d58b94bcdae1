-- ===== src/Client/Flush.antt =====
-- The delivery of queued events: their order, what is left, and when the loop ends.
use codex_monitor_group.Base.{
  ℕ, zero, suc, ◌<◌, ◌≡◌, ◌⊎◌, inl, inr, refl, ◌∙◌, ap, false, List, [], ◌∷◌, ◌++◌, some, Done, ok,
  err, Error, killed, unreachable, server_rejected, io, arith, length, Bool-cases,
}
use codex_monitor_group.Store.{Io, Answer, succeeds, stops, stop_error, Saved, Content}
use codex_monitor_group.Queue
use codex_monitor_group.Queue.{Queue, Item, decode}
use codex_monitor_group.Queue.Laws.{pop-Saved, pop_unread, peek_unread, peek-head}
use codex_monitor_group.Config.{Platform, Dpapi}
use codex_monitor_group.Client.{
  Client, RawMessage, Round, Step, stop, again, Flushed, Reply, unanswered, answered, is_success,
  is_unknown_device, pop_step, reply_step, peek_step, flush_round, flush, after_round, deliver,
}

abbrev Events : Type 0
Events = List (Item RawMessage)

-- What is left in the file: the events not delivered, and maybe the last one that was.
abbrev pub LeftBehind : Events → Events → Events → Type 0
LeftBehind delivered rest left =
    (left ≡ rest)
    ⊎ ((before : Events) × (item : Item RawMessage) × (delivered ≡ before ++ item ∷ [])
        × (left ≡ item ∷ rest))

-- What `Flush` must come to over a queue of these events.
abbrev pub InOrder : Events → Events → Done → Client → Type 0
InOrder items delivered r a =
    (rest : Events) × (left : Events) × (items ≡ delivered ++ rest)
    × (decode a.queue.file.target ≡ ok left)
    × LeftBehind delivered rest left
    × (r ≡ ok tt → left ≡ [])

abbrev Stepped : Events → Step → Type 0
Stepped items (stop delivered r a) = InOrder items delivered r a
Stepped items (again item a) =
    (rest : Events) × (items ≡ item ∷ rest) × (decode a.queue.file.target ≡ ok rest)

-- The server did not say that it does not know the device.
abbrev pub Known : Reply → Type 0
Known unanswered = Unit
Known (answered status body) = is_unknown_device status body ≡ false

unchanged :
    (items : Events) (why : Error) (a : Client)
    → decode a.queue.file.target ≡ ok items
    → InOrder items [] (err why) a
unchanged items why a readable = (items, items, refl, readable, inl refl, λ e. absurd (cc e))

module _ (platform : Platform) (dpapi : Dpapi) where
  pop_step-Stepped :
      (item : Item RawMessage) (rest : Events) (old : Content Events) (r : Done)
      (q : Queue RawMessage) (a : Client)
      → decode old ≡ ok (item ∷ rest)
      → Saved old rest (r, q.file)
      → Stepped (item ∷ rest) (pop_step item (r, q) a)
  unfolding pop_step decode
  pop_step-Stepped item rest old (ok _) q a readable s = (rest, refl, ap decode s)
  pop_step-Stepped item rest old (err killed) q a readable (inl s) = (
    rest,
    item ∷ rest,
    refl,
    ap decode s ∙ readable,
    inr ([], item, refl, refl),
    λ e. absurd (cc e),
  )
  pop_step-Stepped item rest old (err killed) q a readable (inr s) =
      (rest, rest, refl, ap decode s, inl refl, λ e. absurd (cc e))
  pop_step-Stepped item rest old (err _) q a readable s = (
    rest,
    item ∷ rest,
    refl,
    ap decode s ∙ readable,
    inr ([], item, refl, refl),
    λ e. absurd (cc e),
  )

  pop-Stepped :
      (item : Item RawMessage) (rest : Events) (read : Answer) (answers : Io) (a : Client)
      → decode a.queue.file.target ≡ ok (item ∷ rest)
      → Stepped (item ∷ rest) (pop_step item (Queue.pop read answers a.queue) a)
  unfolding pop_step
  pop-Stepped item rest succeeds answers a readable =
      pop_step-Stepped item rest a.queue.file.target _ _ a readable
        (pop-Saved answers a.queue item rest readable)
  pop-Stepped item rest (stops why) answers a readable =
      rw pop_unread
        (rest, item ∷ rest, refl, readable, inr ([], item, refl, refl), λ e. absurd (cc e))

  reply-Stepped :
      (round : Round) (item : Item RawMessage) (rest : Events) (reply : Reply) (a : Client)
      → Known reply
      → decode a.queue.file.target ≡ ok (item ∷ rest)
      → Stepped (item ∷ rest) (reply_step platform dpapi round item reply a)
  unfolding reply_step
  reply-Stepped round item rest unanswered a known readable =
      unchanged (item ∷ rest) unreachable a readable
  reply-Stepped round item rest (answered status body) a known readable =
      elim (Bool-cases (is_success status)) [
        | inl e ↦ rw e (pop-Stepped item rest round.pop_read round.pop a readable)
        | inr e ↦ simp (e, known) (unchanged (item ∷ rest) server_rejected a readable)
      ]

  peek-Stepped :
      (round : Round) (items : Events) (a : Client)
      → Known round.reply
      → decode a.queue.file.target ≡ ok items
      → Stepped items (peek_step platform dpapi round (ok (Queue.first items)) a)
  unfolding peek_step Queue.first
  peek-Stepped round [] a known readable = ([], [], refl, readable, inl refl, λ _. refl)
  peek-Stepped round (item ∷ rest) a known readable = elim (Bool-cases round.request) [
    | inl e ↦ rw e (reply-Stepped round item rest round.reply a known readable)
    | inr e ↦ rw e (unchanged (item ∷ rest) io a readable)
  ]

  flush_round-Stepped :
      (round : Round) (answer : Answer) (items : Events) (a : Client)
      → Known round.reply
      → decode a.queue.file.target ≡ ok items
      → Stepped items (peek_step platform dpapi round (Queue.peek answer a.queue).0 a)
  flush_round-Stepped round succeeds items a known readable =
      rw (peek-head a.queue items readable) (peek-Stepped round items a known readable)
  flush_round-Stepped round (stops why) items a known readable =
      rw peek_unread (unfold peek_step in unchanged items (stop_error why) a readable)

  behind :
      (item : Item RawMessage) (items rest : Events) (f : Flushed)
      → items ≡ item ∷ rest
      → InOrder rest f.delivered f.result f.client
      → InOrder items (item ∷ f.delivered) f.result f.client
  behind item items rest f e (rest', left, same, there, inl clean, done) =
      (rest', left, e ∙ ap (◌∷◌ item) same, there, inl clean, done)
  behind item items rest f e (rest', left, same, there, inr (before, it, d, l), done) = (
    rest',
    left,
    e ∙ ap (◌∷◌ item) same,
    there,
    inr (item ∷ before, it, ap (◌∷◌ item) d, l),
    done,
  )

  next_round :
      (fuel : ℕ) (rounds : ℕ → Round) (items : Events) (step : Step)
      → Stepped items step
      → length items < suc fuel
      → ((item : Item RawMessage) (a : Client) (rest : Events)
          → decode a.queue.file.target ≡ ok rest
          → length rest < fuel
          → (f : Flushed) × (flush platform dpapi fuel (λ n. rounds (suc n)) a ≡ some f)
            × InOrder rest f.delivered f.result f.client)
      → (f : Flushed) × (after_round step (flush platform dpapi fuel (λ n. rounds (suc n)))
          ≡ some f)
        × InOrder items f.delivered f.result f.client
  unfolding after_round
  next_round fuel rounds items (stop delivered r a) good short later = (_, refl, good)
  next_round fuel rounds items (again item a) (rest, same, there) short later =
      let (f, found, inside) = later item a rest there (omega (arith, ap length same)) in
      (
        record f { delivered = item ∷ f.delivered },
        ap (deliver (item ∷ [])) found,
        behind item items rest f same inside,
      )

  -- Over a queue that can be read, if no reply says that the device is unknown, the loop of
  -- `Flush` ends within one round more than there are events, whatever the network, the server
  -- and the system answer; it has delivered the events from the front of the queue, in order and
  -- without a gap; the queue holds the others, and at most the last delivered one in front of
  -- them; and where it returns no error the queue is empty.
  pub flush-InOrder :
      (fuel : ℕ) (rounds : ℕ → Round) (a : Client) (items : Events)
      → ((n : ℕ) → Known (rounds n).reply)
      → decode a.queue.file.target ≡ ok items
      → length items < fuel
      → (f : Flushed) × (flush platform dpapi fuel rounds a ≡ some f)
        × InOrder items f.delivered f.result f.client
  unfolding flush flush_round
  flush-InOrder zero rounds a items known readable short = elim short [ ]
  flush-InOrder (suc fuel) rounds a items known readable short =
      next_round fuel rounds items _
        (flush_round-Stepped (rounds 0) (rounds 0).peek items a (known 0) readable) short
        λ item a' rest there fewer.
          flush-InOrder fuel (λ n. rounds (suc n)) a' rest (λ n. known (suc n)) there fewer
