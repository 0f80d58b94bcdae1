-- ===== src/Protocol/Message.antt =====
-- The text that is signed tells its parts from one another.
use codex_monitor_group.Base.{
  ℕ, zero, suc, ◌+◌, ◌-◌, ◌*◌, ◌/◌, ◌%◌, ◌<◌, ◌≡◌, ◌≢◌, refl, sym, ap, ◌∙◌, [], ◌∷◌, ◌++◌, All,
  arith, Bool-cases, inl, inr, ltb,
}
use codex_monitor_group.Base.Text.{Text, digits, decimal}
use codex_monitor_group.Protocol.{message}

-- A text without a newline.
abbrev pub OneLine : Text → Type 0
OneLine s = All (λ c. c ≢ 10) s

first_line :
    (a b x y : Text) → OneLine a → OneLine b → a ++ 10 ∷ x ≡ b ++ 10 ∷ y → (a ≡ b) × (x ≡ y)
first_line [] [] x y h k e = (refl, cc e)
first_line [] (c ∷ b) x y h k e = absurd (k.0 (cc e))
first_line (c ∷ a) [] x y h k e = absurd (h.0 (cc e))
first_line (c ∷ a) (d ∷ b) x y h k e =
    let tail : a ++ 10 ∷ x ≡ b ++ 10 ∷ y = cc e in
    let head : c ≡ d = cc e in
    let (same, rest) = first_line a b x y h.1 k.1 tail in (cc (head, same), rest)

-- What a text of digits says behind a number.
abbrev read_from : ℕ → Text → ℕ
read_from n [] = n
read_from n (c ∷ cs) = read_from (n * 10 + (c - b'0')) cs

read_digits :
    (fuel n : ℕ) (rest : Text) → n < fuel → read_from 0 (digits fuel n rest) ≡ read_from n rest
unfolding digits
read_digits zero n rest h = elim h [ ]
read_digits (suc fuel) n rest h = elim (Bool-cases (ltb n 10)) [
  | inl e ↦ rw e (ap (λ k. read_from k rest) (omega arith))
  | inr e ↦
      let big : 9 < n = ground (arith, e) in
      rw e (
        read_digits fuel (n / 10) ((b'0' + n % 10) ∷ rest) (omega (arith, big, h))
        ∙ ap (λ k. read_from k rest) (omega arith))
]

digits-OneLine : (fuel n : ℕ) (rest : Text) → OneLine rest → OneLine (digits fuel n rest)
unfolding digits
digits-OneLine zero n rest h = h
digits-OneLine (suc fuel) n rest h = elim (Bool-cases (ltb n 10)) [
  | inl e ↦ rw e (λ c. omega (arith, c), h)
  | inr e ↦ rw e (digits-OneLine fuel (n / 10) ((b'0' + n % 10) ∷ rest) (λ c. omega (arith, c), h))
]

decimal_injective : (m n : ℕ) → decimal m ≡ decimal n → m ≡ n
unfolding decimal
decimal_injective m n e =
    sym (read_digits (suc m) m [] (omega arith))
    ∙ ap (read_from 0) e
    ∙ read_digits (suc n) n [] (omega arith)

-- Two events whose device, timestamp and identifier hold no newline are signed over the same text
-- only if they have the same device, sequence number, timestamp, identifier and digest.
pub message_injective :
    (device device' : Text) (sequence sequence' : ℕ) (timestamp timestamp' id id' : Text)
    (digest digest' : Text)
    → OneLine device
    → OneLine device'
    → OneLine timestamp
    → OneLine timestamp'
    → OneLine id
    → OneLine id'
    → message device sequence timestamp id digest ≡ message device' sequence' timestamp' id' digest'
    → (device ≡ device')
      × (sequence ≡ sequence')
      × (timestamp ≡ timestamp')
      × (id ≡ id')
      × (digest ≡ digest')
unfolding message decimal
message_injective device device' sequence sequence' timestamp timestamp' id id' digest digest' d d'
      t t' i i' e =
    let (same_device, e1) = first_line device device' _ _ d d' e in
    let (number, e2) =
      first_line (decimal sequence) (decimal sequence') _ _
        (digits-OneLine (suc sequence) sequence [] tt)
        (digits-OneLine (suc sequence') sequence' [] tt) e1 in
    let (time, e3) = first_line timestamp timestamp' _ _ t t' e2 in
    let (same_id, same_digest) = first_line id id' digest digest' i i' e3 in
    (same_device, decimal_injective sequence sequence' number, time, same_id, same_digest)
