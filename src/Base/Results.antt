-- ===== src/Base/Results.antt =====
-- Go's `(value, error)` results, and methods that change an object and may fail.
use mathlib.Core.Path.{◌≡◌, refl}

-- Why an operation ended early. `killed` is the end of the process in its midst.
pub data Error : Type 0 where
  killed io invalid_json incomplete secret_unavailable bad_key no_random short_read : Error
  unreachable server_rejected enrollment_failed telemetry_failed bad_timezone unsupported : Error

pub data Result {ℓ} (A : Type ℓ) : Type ℓ where
  ok : A → Result A
  err : Error → Result A

abbrev pub Done : Type 0
Done = Result (Unit {0})

-- A method of an object of type S: what it returns, and the object afterwards.
abbrev pub Exec {ℓ κ} : Type ℓ → Type κ → Type (ℓ ⊔ κ)
Exec S A = S → Result A × S

-- The rest of a method runs only after a step that returned no error.
abbrev pub and_then {ℓ κ μ} :
    {S : Type ℓ} {A : Type κ} {B : Type μ} → Result A → (A → Exec S B) → Exec S B
and_then (ok a) f s = f a s
and_then (err e) f s = (err e, s)

infixl 5 ◌>>=◌ ◌>>◌
abbrev pub ◌>>=◌ {ℓ κ μ} :
    {S : Type ℓ} {A : Type κ} {B : Type μ} → Exec S A → (A → Exec S B) → Exec S B
◌>>=◌ m f s = and_then (m s).0 f (m s).1

abbrev pub ◌>>◌ {ℓ κ} : {S : Type ℓ} {B : Type κ} → Exec S (Unit {0}) → Exec S B → Exec S B
m >> k = m >>= λ _. k

abbrev pub pure {ℓ κ} : {S : Type ℓ} {A : Type κ} → A → Exec S A
pure a s = (ok a, s)

-- A step that does not touch the object.
abbrev pub lift {ℓ κ} : {S : Type ℓ} {A : Type κ} → Result A → Exec S A
lift r s = (r, s)

-- `if err != nil { return err }` between two pure steps.
abbrev pub on_ok {ℓ κ} : {A : Type ℓ} {B : Type κ} → Result A → (A → Result B) → Result B
on_ok (ok a) f = f a
on_ok (err e) f = err e

pub on_ok-eq {ℓ κ} :
    {A : Type ℓ} {B : Type κ} (r : Result A) (f : A → Result B) (b : B)
    → on_ok r f ≡ ok b
    → (a : A) × (r ≡ ok a) × (f a ≡ ok b)
on_ok-eq (ok a) f b h = (a, refl, h)
on_ok-eq (err e) f b h = absurd (cc h)

pub ok-injective {ℓ} : {A : Type ℓ} {a b : A} → ok a ≡ ok b → a ≡ b
ok-injective e = cc e
