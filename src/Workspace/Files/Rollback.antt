-- ===== src/Workspace/Files/Rollback.antt =====
-- internal/workspace/service.go: the backup of a target keeps it, and the rollback restores it.
use codex_remote.Prelude.{
  String, Bool, true, false, ◌≡◌, ◌≢◌, ◌⊎◌, inl, inr, refl, sym, subst, ◌∙◌, ap, Option, none, some,
  arith, if◌then◌else◌,
}
use codex_remote.Workspace.Files.{
  Failure, joined, Looked, found, absent, unreadable, Done, Got, got, failed, Os, Backup,
}
use codex_remote.Workspace.Files.Staging.{
  moved, staged, stage_target, restored, rollback, with_cause, rollback_mutation,
}
use codex_remote.Workspace.Files.Change.{undone}
use codex_remote.Workspace.Files.Frame.{Same, IsOs}

-- The failure tells that the rollback of the files failed too.
unfoldable pub is_joined : Failure → Bool
is_joined (joined a b) = true
is_joined _ = false

module _ {D N C : Type 0} (os : Os D N C) (look : D → String → Option N) (content : N → Option C)
    (is_temp : String → Bool) (laws : IsOs os look content is_temp) where
  -- The backup `b` keeps, on the disk `d'`, what the target was on the disk `d`.
  abbrev pub Keeps : D → Backup → D → Type 0
  Keeps d b d' =
      ((b.existed ≡ true) × (look d' b.backup ≡ look d b.target))
      ⊎ ((b.existed ≡ false) × (look d b.target ≡ none))

  abbrev pub Stages : String → String → D → Got Backup × D → Type 0
  Stages name target d (got b, d') = (b.target ≡ target) × (b.backup ≡ name) × Keeps d b d'
  Stages name target d (failed f, d') = Same look d d' target

  moved-Stages :
      (name target : String) (b : Backup) (d : D) (r : Done D)
      → b.target ≡ target
      → b.backup ≡ name
      → (r.0 ≡ none → look r.1 b.backup ≡ look d b.target)
      → ((f : Failure) → r.0 ≡ some f → Same look d r.1 target)
      → Stages name target d (moved os b r)
  unfolding moved
  moved-Stages name target b d (none, d') t n done undone = (t, n, inl (refl, done refl))
  moved-Stages name target b d (some f, d') t n done undone = undone f refl

  staged-Stages :
      (name target : String) (d : D) (l : Looked N)
      → os.lstat target d ≡ l
      → Stages name target d
          (staged os (record { target = target; backup = name; existed = false }) l d)
  unfolding staged
  staged-Stages name target d (found n) h =
      moved-Stages name target (record { target = target; backup = name; existed = false }) d
        (os.rename target name d) refl refl (laws.rename_done target name d)
        (λ f e. laws.rename_failed target name target d f e)
  staged-Stages name target d absent h = (refl, refl, inr (refl, laws.lstat_absent target d h))
  staged-Stages name target d (unreadable x) h = refl

  pub stage_target-Stages :
      (name target : String) (d : D) → Stages name target d (stage_target os name target d)
  unfolding stage_target
  stage_target-Stages name target d = staged-Stages name target d (os.lstat target d) refl

  pub Keeps-Same :
      (d d' d'' : D) (b : Backup) → Same look d' d'' b.backup → Keeps d b d' → Keeps d b d''
  Keeps-Same d d' d'' b same (inl (was, kept)) = inl (was, same ∙ kept)
  Keeps-Same d d' d'' b same (inr k) = inr k

  restored-Same :
      (d : D) (b : Backup) (r : Done D)
      → (r.0 ≡ none → look r.1 b.target ≡ none)
      → Keeps d b r.1
      → (restored os b r).0 ≡ none
      → Same look d (restored os b r).1 b.target
  unfolding restored
  restored-Same d b (some f, d') gone k h = ground (arith, h)
  restored-Same d b (none, d') gone (inl (was, kept)) h =
      let go : restored os b (none, d') ≡ os.rename b.backup b.target d' =
        ap (λ x. if x then os.rename b.backup b.target d' else (none, d')) was in
      subst (λ (x : Done D). Same look d x.1 b.target) (sym go)
        (laws.rename_done b.backup b.target d' (sym (ap (λ (x : Done D). x.0) go) ∙ h) ∙ kept)
  restored-Same d b (none, d') gone (inr (was, kept)) h =
      let stay : restored os b (none, d') ≡ (none, d') =
        ap (λ x. if x then os.rename b.backup b.target d' else (none, d')) was in
      subst (λ (x : Done D). Same look d x.1 b.target) (sym stay) (gone refl ∙ sym kept)

  rollback-Same :
      (d d' : D) (b : Backup)
      → b.backup ≢ b.target
      → Keeps d b d'
      → (rollback os b d').0 ≡ none
      → Same look d (rollback os b d').1 b.target
  unfolding rollback
  rollback-Same d d' b other k h =
      restored-Same d b (os.remove_all b.target d') (laws.remove_done b.target d')
        (Keeps-Same d d' (os.remove_all b.target d').1 b
          (laws.remove_other b.target b.backup d' other) k)
        h

  with_cause-Same :
      (d : D) (q : String) (cause : Failure) (r : Done D)
      → (r.0 ≡ none → Same look d r.1 q)
      → is_joined (with_cause os cause r).0 ≡ false
      → Same look d (with_cause os cause r).1 q
  unfolding with_cause is_joined
  with_cause-Same d q cause (none, d') h plain = h refl
  with_cause-Same d q cause (some f, d') h plain = ground (arith, plain)

  with_cause-plain :
      (cause : Failure) (r : Done D)
      → is_joined (with_cause os cause r).0 ≡ false
      → (with_cause os cause r).0 ≡ cause
  unfolding with_cause is_joined
  with_cause-plain cause (none, d') plain = refl
  with_cause-plain cause (some f, d') plain = ground (arith, plain)

  -- A rollback that did not fail leaves the cause as it was.
  pub rollback_mutation-plain :
      (b : Backup) (cause : Failure) (d : D)
      → is_joined (rollback_mutation os b cause d).0 ≡ false
      → (rollback_mutation os b cause d).0 ≡ cause
  unfolding rollback_mutation
  rollback_mutation-plain b cause d = with_cause-plain cause (rollback os b d)

  pub rollback_mutation-Same :
      (d d' : D) (b : Backup) (cause : Failure)
      → b.backup ≢ b.target
      → Keeps d b d'
      → is_joined (rollback_mutation os b cause d').0 ≡ false
      → Same look d (rollback_mutation os b cause d').1 b.target
  unfolding rollback_mutation
  rollback_mutation-Same d d' b cause other k =
      with_cause-Same d b.target cause (rollback os b d') (rollback-Same d d' b other k)
