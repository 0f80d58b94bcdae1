-- ===== src/Agent/Delivery.antt =====
-- A report reaches a server that accepts its events.
use codex_monitor_group.Base.{
  ℕ, ◌<◌, ◌≡◌, ap, String, [], ◌∷◌, ◌++◌, some, Done, ok, err, arith, length, select,
}
use codex_monitor_group.Base.Text.{Text}
use codex_monitor_group.Protocol.{Value}
use codex_monitor_group.Queue
use codex_monitor_group.Queue.{Item, decode, is_fresh}
use codex_monitor_group.Config.{Platform, Dpapi}
use codex_monitor_group.Client.{Client, Round, enqueue, signed_item}
use codex_monitor_group.Client.Sequences.{Events}
use codex_monitor_group.Client.Delivery.{Accepts, flush-Delivers, enqueue_ok}
use codex_monitor_group.Agent.{report, flush_fuel, flush_behind, with_client}
use codex_monitor_group.Agent.Inputs.{Agent, Machine, ReportInput}

fuel_for :
    (a : Client) (items : Events)
    → decode a.queue.file.target ≡ ok items
    → length items < flush_fuel a
unfolding flush_fuel
fuel_for a items readable = rw readable (omega arith)

module _ (platform : Platform) (dpapi : Dpapi) (machine : Machine) where
  behind-Delivers :
      (rounds : ℕ → Round) (r : Done) (a : Client) (items : Events)
      → r ≡ ok tt
      → ((n : ℕ) → Accepts (rounds n))
      → decode a.queue.file.target ≡ ok items
      → (b : Client) × (flush_behind platform dpapi machine rounds (r, a)
          ≡ some (record { result = ok tt; client = b; delivered = items }))
        × (decode b.queue.file.target ≡ ok [])
  behind-Delivers rounds (ok _) a items done good readable =
      flush-Delivers platform dpapi (flush_fuel a) rounds a items good readable
        (fuel_for a items readable)
  behind-Delivers rounds (err e) a items done good readable = absurd (cc done)

  -- A report over a queue that can be read, whose `enqueue` returns no error, where the server then
  -- accepts each event and the system does what it is asked: the report returns no error and leaves
  -- an empty queue, and what the server has accepted is the events that the retention kept, in
  -- their order, and behind them the new one, signed with the device's key and next number.
  pub report-Delivers :
      (input : ReportInput) (endpoint : String) (payload : Value) (a : Agent) (items : Events)
      → decode a.client.queue.file.target ≡ ok items
      → (enqueue platform dpapi machine.crypto input.event endpoint payload a.client).0 ≡ ok tt
      → ((n : ℕ) → Accepts (input.rounds n))
      → (key : machine.crypto.Key) × (id : Text) × (b : Client) × (machine.crypto.read_key
            a.client.config.private_key
          ≡ some key)
        × (input.event.event_id ≡ some id)
        × (report platform dpapi machine input endpoint payload a
            ≡ some (ok tt, record a { client = b }))
        × (flush_behind platform dpapi machine input.rounds
              (enqueue platform dpapi machine.crypto input.event endpoint payload a.client)
            ≡ some (record {
              result = ok tt;
              client = b;
              delivered =
                  select
                    (is_fresh (Queue.cutoff input.event.pushed_at a.client.queue.retention))
                    items
                  ++ signed_item machine.crypto input.event endpoint payload key id a.client.config
                    ∷ [];
            }))
        × (decode b.queue.file.target ≡ ok [])
  unfolding report
  report-Delivers input endpoint payload a items readable done good =
      let (key, id, read, drawn, queued) =
        enqueue_ok platform dpapi machine.crypto input.event endpoint payload a.client items
          readable done in
      let (b, found, empty) = behind-Delivers input.rounds _ _ _ done good queued in
      (key, id, b, read, drawn, ap (with_client a) found, found, empty)
