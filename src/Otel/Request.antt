-- ===== src/Otel/Request.antt =====
-- The handler of `StartOTelServer` in internal/agent/otel.go: what the collector answers to a
-- request, and what the request does to the totals.
use codex_monitor_group.Base.{
  ℕ, ◌≡◌, ◌≢◌, refl, ltb, Bool, true, not, ◌||◌, ◌++◌, if◌then◌else◌, Result, ok, err, Bool-cases,
  inl, inr, arith, ◌≤◌,
}
use codex_monitor_group.Base.Text.{Text, codes, text_eq, text_eq_iff}
use codex_monitor_group.Store.{Slot}
use codex_monitor_group.Otel.{OtelStore, Reader}
use codex_monitor_group.Otel.Ingest.{Ingest, ingest_otlp}

-- `read` is whether io.ReadAll returned no error, `size` how many of the body's bytes it returned,
-- 1048577 at most.
pub record Request : Type 0 where
  pub method : Text
  pub authorization : Text
  pub read : Bool
  pub size : ℕ
  pub ingest : Ingest

abbrev status_of : Result ℕ → ℕ
status_of (ok _) = 200
status_of (err _) = 400

-- The status of the answer, and the file behind it.
unfoldable pub serve : Reader → Text → Request → Slot OtelStore → ℕ × Slot OtelStore
serve reader token request s =
    if not (text_eq request.method (codes "POST"))
    then (405, s)
    else if not (text_eq request.authorization (codes "Bearer " ++ token))
    then (401, s)
    else if not request.read || ltb 1_048_576 request.size
    then (413, s)
    else (
      status_of (ingest_otlp reader request.ingest s).0,
      (ingest_otlp reader request.ingest s).1,
    )

-- A request leaves the totals alone, or it is a POST with the agent's token in its header, a body
-- that was read whole, of at most 1048576 bytes.
pub serve-admits :
    (reader : Reader) (token : Text) (request : Request) (s : Slot OtelStore)
    → (serve reader token request s).1 ≢ s
    → (request.method ≡ codes "POST")
      × (request.authorization ≡ codes "Bearer " ++ token)
      × (request.read ≡ true)
      × (request.size ≤ 1_048_576)
unfolding serve
serve-admits reader token request s changed =
    elim (Bool-cases (text_eq request.method (codes "POST"))) [
      | inr e ↦ absurd (changed (rw e refl))
      | inl post ↦ elim (Bool-cases (text_eq request.authorization (codes "Bearer " ++ token))) [
        | inr e ↦ absurd (changed (simp (post, e) refl))
        | inl bearer ↦ elim (Bool-cases (not request.read || ltb 1_048_576 request.size)) [
          | inl e ↦ absurd (changed (simp (post, bearer, e) refl))
          | inr fits ↦ (
            (text_eq_iff request.method (codes "POST")).0 post,
            (text_eq_iff request.authorization (codes "Bearer " ++ token)).0 bearer,
            ground (arith, fits),
            ground (arith, fits),
          )
        ]
      ]
    ]
