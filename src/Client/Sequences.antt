-- ===== src/Client/Sequences.antt =====
-- The sequence numbers of the queued events (internal/agent/client.go): what it is for them to be in
-- step with the configuration.
use codex_monitor_group.Base.{
  ℕ, suc, ◌≤◌, ◌≡◌, inl, inr, Bool, List, [], ◌∷◌, ◌++◌, Option, none, some, ok, arith, Bool-cases,
  if◌then◌else◌, select, subst, String,
}
use codex_monitor_group.Base.Text.{Text, text_eq, codes}
use codex_monitor_group.Store.{json}
use codex_monitor_group.Queue.{Item, decode}
use codex_monitor_group.Config.{Config}
use codex_monitor_group.Client.{Client, RawMessage, envelope, foreign}

abbrev pub Events : Type 0
Events = List (Item RawMessage)

abbrev pub prepend : Option ℕ → List ℕ → List ℕ
prepend none ns = ns
prepend (some n) ns = n ∷ ns

-- The number of an event that a device signed.
abbrev pub number : Text → RawMessage → Option ℕ
number device (envelope e) = if text_eq e.device_id device then some e.sequence else none
number device (foreign _) = none

-- The numbers of the events that a device signed, from the front of the queue.
abbrev pub sequences : Text → Events → List ℕ
sequences device [] = []
sequences device (item ∷ items) = prepend (number device item.envelope) (sequences device items)

-- Strictly ascending numbers, from the first bound on and below the second.
abbrev pub Ascending : ℕ → List ℕ → ℕ → Type 0
Ascending low [] high = low ≤ high
Ascending low (n ∷ ns) high = (low ≤ n) × Ascending (suc n) ns high

-- The events queued for the device ascend and stay below the number in the configuration file,
-- which is not above the one in memory.
pub record InStep (a : Client) : Type 0 where
  pub disk : Config
  pub items : Events
  pub in_file : a.config_file.target ≡ json disk
  pub in_queue : decode a.queue.file.target ≡ ok items
  pub same_device : disk.device_id ≡ a.config.device_id
  pub not_above : disk.next_sequence ≤ a.config.next_sequence
  pub ascending : Ascending 1 (sequences (codes disk.device_id) items) disk.next_sequence

pub lower_bound :
    (low low' high : ℕ) (ns : List ℕ) → low ≤ low' → Ascending low' ns high → Ascending low ns high
lower_bound low low' high [] less h = omega (arith, less, h)
lower_bound low low' high (n ∷ ns) less h = (omega (arith, less, h.0), h.1)

pub upper_bound :
    (low high high' : ℕ) (ns : List ℕ)
    → high ≤ high'
    → Ascending low ns high
    → Ascending low ns high'
upper_bound low high high' [] less h = omega (arith, less, h)
upper_bound low high high' (n ∷ ns) less h = (h.0, upper_bound (suc n) high high' ns less h.1)

pub Ascending-bounds : (low high : ℕ) (ns : List ℕ) → Ascending low ns high → low ≤ high
Ascending-bounds low high [] h = h
Ascending-bounds low high (n ∷ ns) h = omega (arith, h.0, Ascending-bounds (suc n) high ns h.1)

pub Ascending-prepend :
    (low high high' : ℕ) (o : Option ℕ) (ns ms : List ℕ)
    → ((l : ℕ) → Ascending l ns high → Ascending l ms high')
    → Ascending low (prepend o ns) high
    → Ascending low (prepend o ms) high'
Ascending-prepend low high high' none ns ms f h = f low h
Ascending-prepend low high high' (some n) ns ms f h = (h.0, f (suc n) h.1)

pub Ascending-skip :
    (low high : ℕ) (o : Option ℕ) (ns : List ℕ)
    → Ascending low (prepend o ns) high
    → Ascending low ns high
Ascending-skip low high none ns h = h
Ascending-skip low high (some n) ns h = lower_bound low (suc n) high ns (omega (arith, h.0)) h.1

-- Dropping events keeps the order.
pub Ascending-select :
    (device : Text) (p : Item RawMessage → Bool) (items : Events) (low high : ℕ)
    → Ascending low (sequences device items) high
    → Ascending low (sequences device (select p items)) high
Ascending-select device p [] low high h = h
Ascending-select device p (item ∷ items) low high h = elim (Bool-cases (p item)) [
  | inl e ↦ rw e (
      Ascending-prepend low high high (number device item.envelope) (sequences device items) _
        (λ l. Ascending-select device p items l high) h)
  | inr e ↦ rw e (
      Ascending-select device p items low high
        (Ascending-skip low high (number device item.envelope) (sequences device items) h))
]

-- One more event, with the number that was next.
pub Ascending-append :
    (device : Text) (items : Events) (item : Item RawMessage) (low n : ℕ)
    → number device item.envelope ≡ some n
    → Ascending low (sequences device items) n
    → Ascending low (sequences device (items ++ item ∷ [])) (suc n)
Ascending-append device [] item low n e h = rw e (h, omega arith)
Ascending-append device (x ∷ items) item low n e h =
    Ascending-prepend low n (suc n) (number device x.envelope) (sequences device items) _
      (λ l. Ascending-append device items item l n e) h

pub same_device-Ascending :
    {x y : String} (items : Events) (m n : ℕ)
    → x ≡ y
    → m ≤ n
    → Ascending 1 (sequences (codes x) items) m
    → Ascending 1 (sequences (codes y) items) n
same_device-Ascending {x = x} items m n e less h =
    subst (λ z. Ascending 1 (sequences (codes z) items) n) e
      (upper_bound 1 m n (sequences (codes x) items) less h)
