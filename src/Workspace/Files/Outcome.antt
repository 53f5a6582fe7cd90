-- ===== src/Workspace/Files/Outcome.antt =====
-- internal/workspace/service.go: what a write leaves at its target, whatever fails on the way.
use codex_remote.Prelude.{
  ℕ, String, Bool, true, false, ◌≡◌, ◌≢◌, if_cases, Bool-cases, ◌⊎◌, inl, inr, refl, sym, subst, ap,
  ◌∙◌, Option, none, some,
}
use codex_remote.Workspace.{Emitted, delivered, outcome_unknown, sink_failed}
use codex_remote.Workspace.Files.{
  Failure, sink, unknown_outcome, Condition, Done, Got, got, failed, Os, Backup, FileEntry, regular,
}
use codex_remote.Workspace.Files.Staging.{stage_target, discard, rollback_mutation, atomic_file}
use codex_remote.Workspace.Files.Target.{validate_mutation_target}
use codex_remote.Workspace.Files.Change.{
  Changed, changed, refused, undone, described, applied, apply_to, change, write_target, settle,
  settled, finish_change, entry_metadata,
}
use codex_remote.Workspace.Files.Frame.{Same, IsOs, content_at, atomic_file-Same, atomic_file-Holds}
use codex_remote.Workspace.Files.Rollback.{
  is_joined, Keeps, Stages, stage_target-Stages, rollback_mutation-Same, rollback_mutation-plain,
  Keeps-Same,
}

-- What an operation that changed the disk `d`, or refused to, leaves at its target after the answer of
-- the state sink; `p` is what the change brings about there. Only a failed rollback, which the
-- failure tells, leaves the target unknown.
pub data Leaves {D N C : Type 0} (os : Os D N C) (look : D → String → Option N)
    (p : Option N → Type 0) (target : String) (answer : Emitted) (x : ℕ) (d : D) (c : Changed os)
    (r : Done D) : Type 0 where
  refuses :
      (f : Failure)
      → c ≡ refused f
      → r.0 ≡ some f
      → Same look d r.1 target
      → Leaves os look p target answer x d c r
  succeeds :
      (b : Backup) (entry : FileEntry)
      → c ≡ changed b entry
      → answer ≡ delivered
      → r.0 ≡ none
      → p (look r.1 target)
      → Leaves os look p target answer x d c r
  publishes :
      (b : Backup) (entry : FileEntry)
      → c ≡ changed b entry
      → answer ≡ outcome_unknown
      → r.0 ≡ some unknown_outcome
      → p (look r.1 target)
      → Leaves os look p target answer x d c r
  undoes :
      (b : Backup) (entry : FileEntry)
      → c ≡ changed b entry
      → answer ≡ sink_failed
      → r.0 ≡ some (sink x)
      → Same look d r.1 target
      → Leaves os look p target answer x d c r
  loses :
      (f : Failure)
      → (c ≡ refused f)
        ⊎ ((b : Backup) × (entry : FileEntry) × (c ≡ changed b entry) × (answer ≡ sink_failed))
      → r.0 ≡ some f
      → is_joined f ≡ true
      → Leaves os look p target answer x d c r

module _ {D N C : Type 0} (os : Os D N C) (look : D → String → Option N) (content : N → Option C)
    (is_temp : String → Bool) (laws : IsOs os look content is_temp) (name target : String)
    (other : name ≢ target) (p : Option N → Type 0) where
  abbrev Good : D → Changed os × D → Type 0
  Good d (changed b entry, d') =
      (b.target ≡ target)
      × (b.backup ≡ name)
      × Keeps os look content is_temp laws d b d'
      × p (look d' target)
  Good d (refused f, d') = is_joined f ≡ false → Same look d d' target

  rolled_back :
      (d d' : D) (b : Backup) (cause : Failure)
      → b.target ≡ target
      → b.backup ≡ name
      → Keeps os look content is_temp laws d b d'
      → is_joined (rollback_mutation os b cause d').0 ≡ false
      → Same look d (rollback_mutation os b cause d').1 target
  rolled_back d d' b cause t n k plain = subst (Same look d (rollback_mutation os b cause d').1) t (
      rollback_mutation-Same os look content is_temp laws d d' b cause (λ e. other (sym n ∙ e ∙ t))
        k plain)

  described-Good :
      (d d' : D) (b : Backup) (m : Got FileEntry)
      → b.target ≡ target
      → b.backup ≡ name
      → Keeps os look content is_temp laws d b d'
      → p (look d' target)
      → Good d (described os b m d')
  unfolding described undone
  described-Good d d' b (got entry) t n k h = (t, n, k, h)
  described-Good d d' b (failed f) t n k h = rolled_back d d' b f t n k

  applied-Good :
      (limit : ℕ) (d : D) (b : Backup) (r : Done D)
      → b.target ≡ target
      → b.backup ≡ name
      → Keeps os look content is_temp laws d b r.1
      → (r.0 ≡ none → p (look r.1 target))
      → Good d (applied os limit b r)
  unfolding applied undone
  applied-Good limit d b (none, d') t n k h =
      described-Good d d' b (entry_metadata os limit true b.target d') t n k (h refl)
  applied-Good limit d b (some f, d') t n k h = rolled_back d d' b f t n k

  apply_to-Good :
      (limit : ℕ) (apply : D → Done D) (d : D) (r : Got Backup × D)
      → ((d' : D) → Same look d' (apply d').1 name)
      → ((d' : D) → (apply d').0 ≡ none → p (look (apply d').1 target))
      → Stages os look content is_temp laws name target d r
      → Good d (apply_to os limit apply r)
  unfolding apply_to
  apply_to-Good limit apply d (got b, d') frame done (t, n, k) =
      applied-Good limit d b (apply d') t n
        (Keeps-Same os look content is_temp laws d d' (apply d').1 b
          (subst (Same look d' (apply d').1) (sym n) (frame d')) k)
        (done d')
  apply_to-Good limit apply d (failed f, d') frame done h = λ plain. h

  change-Good :
      (limit : ℕ) (check : Option Failure) (apply : D → Done D) (d : D)
      → ((d' : D) → Same look d' (apply d').1 name)
      → ((d' : D) → (apply d').0 ≡ none → p (look (apply d').1 target))
      → Good d (change os limit name target check apply d)
  unfolding change
  change-Good limit (some f) apply d frame done = λ plain. refl
  change-Good limit none apply d frame done =
      apply_to-Good limit apply d (stage_target os name target d) frame done
        (stage_target-Stages os look content is_temp laws name target d)

  discard-Same :
      (d : D) (b : Backup)
      → b.target ≡ target
      → b.backup ≡ name
      → Same look d (discard os b d) target
  unfolding discard
  discard-Same d b t n =
      if_cases (λ x. Same look d x target) b.existed
        (λ was. laws.remove_other b.backup target d (λ e. other (sym (e ∙ n)))) (λ new. refl)

  sink_failed-Leaves :
      (x : ℕ) (b : Backup) (entry : FileEntry) (d d' : D)
      → b.target ≡ target
      → b.backup ≡ name
      → Keeps os look content is_temp laws d b d'
      → Leaves os look p target sink_failed x d (changed b entry) (settle os sink_failed x b d')
  unfolding settle
  sink_failed-Leaves x b entry d d' t n k =
      let r = rollback_mutation os b (sink x) d' in
      elim (Bool-cases (is_joined r.0)) [
        | inl lost ↦ loses r.0 (inr (b, entry, refl, refl)) refl lost
        | inr plain ↦
            undoes b entry refl refl
              (ap some (rollback_mutation-plain os look content is_temp laws b (sink x) d' plain))
              (rolled_back d d' b (sink x) t n k plain)
      ]

  settle-Leaves :
      (answer : Emitted) (x : ℕ) (b : Backup) (entry : FileEntry) (d d' : D)
      → b.target ≡ target
      → b.backup ≡ name
      → Keeps os look content is_temp laws d b d'
      → p (look d' target)
      → Leaves os look p target answer x d (changed b entry) (settle os answer x b d')
  unfolding settle
  settle-Leaves delivered x b entry d d' t n k h =
      succeeds b entry refl refl refl (subst p (sym (discard-Same d' b t n)) h)
  settle-Leaves outcome_unknown x b entry d d' t n k h =
      publishes b entry refl refl refl (subst p (sym (discard-Same d' b t n)) h)
  settle-Leaves sink_failed x b entry d d' t n k h = sink_failed-Leaves x b entry d d' t n k

  settled-Leaves :
      (answer : Emitted) (x : ℕ) (d : D) (r : Changed os × D)
      → Good d r
      → Leaves os look p target answer x d r.0 (settled os answer x r)
  unfolding settled
  settled-Leaves answer x d (changed b entry, d') (t, n, k, h) =
      settle-Leaves answer x b entry d d' t n k h
  settled-Leaves answer x d (refused f, d') h = elim (Bool-cases (is_joined f)) [
    | inl lost ↦ loses f (inl refl) refl lost
    | inr plain ↦ refuses f refl refl (h plain)
  ]

  pub finish_change-Leaves :
      (answer : Emitted) (x limit : ℕ) (check : Option Failure) (apply : D → Done D) (d : D)
      → ((d' : D) → Same look d' (apply d').1 name)
      → ((d' : D) → (apply d').0 ≡ none → p (look (apply d').1 target))
      → let c = change os limit name target check apply d in
        Leaves os look p target answer x d c.0 (finish_change os answer x c)
  unfolding finish_change
  finish_change-Leaves answer x limit check apply d frame done =
      settled-Leaves answer x d (change os limit name target check apply d)
        (change-Good limit check apply d frame done)

module _ {D N C : Type 0} (os : Os D N C) (look : D → String → Option N) (content : N → Option C)
    (is_temp : String → Bool) (laws : IsOs os look content is_temp) where
  -- The files of `WriteText`, whatever call of the system fails, nothing else changing the directory
  -- meanwhile. A write that fails before the state sink is asked leaves its target as it was,
  -- content and kind included. After the change, the text is at the target if the sink answers, and
  -- also if its outcome is unknown, which is then the failure; if the sink fails, the target is as it
  -- was and the failure is the sink's. Only a failure that tells that the rollback failed too may
  -- leave the target otherwise. The name of the backup is assumed to be another than the target, and
  -- neither is a name that os.CreateTemp makes.
  pub write_target-Leaves :
      (answer : Emitted) (x limit : ℕ) (name target : String) (wanted : Condition)
      (expected : String) (text : C) (d : D)
      → name ≢ target
      → is_temp name ≡ false
      → is_temp target ≡ false
      → let c = write_target os limit name target wanted expected text d in
        Leaves os look
          (λ n. content_at content n ≡ some text)
          target
          answer
          x
          d
          c.0
          (finish_change os answer x c)
  unfolding write_target
  write_target-Leaves answer x limit name target wanted expected text d other plain plain' =
      finish_change-Leaves os look content is_temp laws name target other
        (λ n. content_at content n ≡ some text) answer x limit
        (validate_mutation_target os target wanted expected regular d) (atomic_file os target text)
        d (λ d'. atomic_file-Same os look content is_temp laws target text d' name other plain)
        (λ d'. atomic_file-Holds os look content is_temp laws target text d' plain')
