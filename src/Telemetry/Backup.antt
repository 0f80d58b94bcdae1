-- ===== src/Telemetry/Backup.antt =====
-- What `ConfigureTelemetry` leaves of Codex's configuration, whatever the system answers.
use codex_monitor_group.Base.{
  ◌≡◌, ◌≢◌, ◌⊎◌, inl, inr, refl, String, [], ◌∷◌, some, Result, ok, Exec, ◌>>=◌, ◌>>◌,
}
use codex_monitor_group.Base.Text.{Text}
use codex_monitor_group.Store.{Answer, succeeds, stops, failing, dying}
use codex_monitor_group.Telemetry.{configured}
use codex_monitor_group.Telemetry.Status.{
  Tools, CodexFiles, TextWrite, whole, unopened, part, TelemetryIo, text_of, read_config, answered,
  back_up_config, write_config, telemetry_fingerprint, configure_telemetry,
}

module _ (tools : Tools) where
  -- After success the file has the new text. After any other end, if the copy was written whole, the
  -- file is the old one or the copy is.
  abbrev KeptBy : TextWrite → Text → Text → CodexFiles → Result String × CodexFiles → Type 0
  KeptBy back_up token old f (r, g) =
      ((hash : String) → r ≡ ok hash → g.config ≡ some (configured tools.is_print token old))
      × (back_up ≡ whole → (g.config ≡ f.config) ⊎ (g.backup ≡ some old))

  abbrev finish : Answer → Text → Exec CodexFiles String
  finish read_again token f = (telemetry_fingerprint tools read_again token f, f)

  -- From the write of the file on, behind a copy that may have failed.
  write-KeptBy :
      (back_up write : TextWrite) (read_again : Answer) (token old : Text) (f g : CodexFiles)
      → g.config ≡ f.config
      → (back_up ≡ whole → g.backup ≡ some old)
      → KeptBy back_up token old f
          ((write_config tools write token old >> finish read_again token) g)
  write-KeptBy back_up whole read_again token old f g same copied =
      (λ hash e. refl, λ w. inr (copied w))
  write-KeptBy back_up (unopened why) read_again token old f g same copied =
      (λ hash e. absurd (cc e), λ w. inl same)
  write-KeptBy back_up (part n why) read_again token old f g same copied =
      (λ hash e. absurd (cc e), λ w. inr (copied w))

  copy-KeptBy :
      (back_up write : TextWrite) (read_again : Answer) (token old : Text) (f : CodexFiles)
      → old ≢ []
      → KeptBy back_up token old f (
          (do
            back_up_config back_up old
            write_config tools write token old
            finish read_again token)
            f)
  copy-KeptBy back_up write read_again token [] f there = absurd (there refl)
  copy-KeptBy whole write read_again token (c ∷ cs) f there =
      write-KeptBy whole write read_again token (c ∷ cs) f (record f { backup = some (c ∷ cs) })
        refl (λ w. refl)
  copy-KeptBy (unopened failing) write read_again token (c ∷ cs) f there =
      write-KeptBy (unopened failing) write read_again token (c ∷ cs) f f refl (λ w. absurd (cc w))
  copy-KeptBy (unopened dying) write read_again token (c ∷ cs) f there =
      (λ hash e. absurd (cc e), λ w. inl refl)
  copy-KeptBy (part n failing) write read_again token (c ∷ cs) f there =
      write-KeptBy (part n failing) write read_again token (c ∷ cs) f _ refl (λ w. absurd (cc w))
  copy-KeptBy (part n dying) write read_again token (c ∷ cs) f there =
      (λ hash e. absurd (cc e), λ w. inl refl)

  steps-KeptBy :
      (mkdir read read_again : Answer) (back_up write : TextWrite) (token : Text) (f : CodexFiles)
      → text_of f.config ≢ []
      → KeptBy back_up token (text_of f.config) f (
          (do
            answered mkdir
            old ← read_config read
            back_up_config back_up old
            write_config tools write token old
            finish read_again token)
            f)
  steps-KeptBy (stops why) read read_again back_up write token f there =
      (λ hash e. absurd (cc e), λ w. inl refl)
  steps-KeptBy succeeds (stops why) read_again back_up write token f there =
      (λ hash e. absurd (cc e), λ w. inl refl)
  steps-KeptBy succeeds succeeds read_again back_up write token f there =
      copy-KeptBy back_up write read_again token (text_of f.config) f there

  -- Over a configuration with a text, whatever the system answers, the death of the process
  -- included: where `ConfigureTelemetry` returns a fingerprint, the file has the new text; and where
  -- the system writes the copy whole, the file is the old one or the copy has the old text.
  pub configure_telemetry-Kept :
      (input : TelemetryIo) (token : Text) (f : CodexFiles)
      → text_of f.config ≢ []
      → let done = configure_telemetry tools input token f in
        ((hash : String)
          → done.0 ≡ ok hash
          → done.1.config ≡ some (configured tools.is_print token (text_of f.config)))
        × (input.back_up ≡ whole
            → (done.1.config ≡ f.config) ⊎ (done.1.backup ≡ some (text_of f.config)))
  unfolding configure_telemetry
  configure_telemetry-Kept input token f there =
      steps-KeptBy input.mkdir input.read input.read_again input.back_up input.write token f there
