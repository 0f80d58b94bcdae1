-- ===== src/Store/Crash.antt =====
-- The three steps of a save that change the disk, taken together.
use codex_monitor_group.Base.{
  inl, inr, killed, ◌⊎◌, ◌≡◌, Done, ok, err, Bool, ◌>>=◌, ◌>>◌, refl, arith, Exec, true,
}
use codex_monitor_group.Store.{
  Io, Content, json, Slot, Saved, Answer, succeeds, stops, failing, dying, Write, Rename, written,
  not_opened, emptied, cut, renamed, not_renamed, renamed_then_dead, call, marshal, write_tmp,
  replace,
}

module _ {ℓ} {A : Type ℓ} where
  -- Writing beside the file and renaming over it never leaves a torn file in place.
  pub write_and_replace-Saved :
      (write : Write) (rename : Rename) (a : A) (s : Slot A)
      → Saved s.target a ((do write_tmp write a; replace rename) s)
  unfolding write_tmp replace
  write_and_replace-Saved written renamed a s = refl
  write_and_replace-Saved written (not_renamed failing) a s = refl
  write_and_replace-Saved written (not_renamed dying) a s = ground arith
  write_and_replace-Saved written renamed_then_dead a s = ground arith
  write_and_replace-Saved (not_opened failing) r a s = refl
  write_and_replace-Saved (not_opened dying) r a s = ground arith
  write_and_replace-Saved (emptied failing) r a s = refl
  write_and_replace-Saved (emptied dying) r a s = ground arith
  write_and_replace-Saved (cut failing) r a s = refl
  write_and_replace-Saved (cut dying) r a s = ground arith

  -- A call that leaves the files alone, in front of a save.
  pub call-Saved :
      (answer : Answer) (m : Exec (Slot A) (Unit {0})) (a : A) (s : Slot A)
      → Saved s.target a (m s)
      → Saved s.target a ((call answer >>= λ _. m) s)
  call-Saved succeeds m a s h = h
  call-Saved (stops failing) m a s h = refl
  call-Saved (stops dying) m a s h = ground arith

  pub marshal-Saved :
      (b : Bool) (m : Exec (Slot A) (Unit {0})) (a : A) (s : Slot A)
      → Saved s.target a (m s)
      → Saved s.target a ((marshal b >>= λ _. m) s)
  marshal-Saved Bool.true m a s h = h
  marshal-Saved Bool.false m a s h = refl

  -- The whole save of the queue, the integrity state and the usage totals.
  pub save_all-Saved :
      (answers : Io) (a : A) (s : Slot A)
      → Saved s.target a (
          (do
            call answers.mkdir
            marshal answers.marshals
            write_tmp answers.write a
            replace answers.rename)
            s)
  save_all-Saved answers a s = call-Saved answers.mkdir _ a s (
      marshal-Saved answers.marshals _ a s
        (write_and_replace-Saved answers.write answers.rename a s))

  -- The same with a change of the mode of the new file in between.
  pub write_chmod_replace-Saved :
      (write : Write) (chmod : Answer) (rename : Rename) (a : A) (s : Slot A)
      → Saved s.target a ((do write_tmp write a; call chmod; replace rename) s)
  unfolding write_tmp replace
  write_chmod_replace-Saved written succeeds renamed a s = refl
  write_chmod_replace-Saved written succeeds (not_renamed failing) a s = refl
  write_chmod_replace-Saved written succeeds (not_renamed dying) a s = ground arith
  write_chmod_replace-Saved written succeeds renamed_then_dead a s = ground arith
  write_chmod_replace-Saved written (stops failing) r a s = refl
  write_chmod_replace-Saved written (stops dying) r a s = ground arith
  write_chmod_replace-Saved (not_opened failing) c r a s = refl
  write_chmod_replace-Saved (not_opened dying) c r a s = ground arith
  write_chmod_replace-Saved (emptied failing) c r a s = refl
  write_chmod_replace-Saved (emptied dying) c r a s = ground arith
  write_chmod_replace-Saved (cut failing) c r a s = refl
  write_chmod_replace-Saved (cut dying) c r a s = ground arith

  pub Saved-ok :
      (old : Content A) (a : A) (r : Done) (s : Slot A)
      → Saved old a (r, s)
      → r ≡ ok tt
      → s.target ≡ json a
  Saved-ok old a (ok _) s h e = h
  Saved-ok old a (err _) s h e = absurd (cc e)

  -- Whatever the outcome, the old content or the new value is in place.
  pub Saved-cases :
      (old : Content A) (a : A) (r : Done) (s : Slot A)
      → Saved old a (r, s)
      → (s.target ≡ old) ⊎ (s.target ≡ json a)
  Saved-cases old a (ok _) s h = inr h
  Saved-cases old a (err killed) s h = h
  Saved-cases old a (err _) s h = inl h

-- Every call of a save succeeds.
pub record IsFine (answers : Io) : Type 0 where
  pub mkdir : answers.mkdir ≡ succeeds
  pub marshals : answers.marshals ≡ true
  pub write : answers.write ≡ written
  pub rename : answers.rename ≡ renamed
