-- ===== src/Workspace/Files/Conditions.antt =====
-- internal/workspace/service.go: which targets a write condition admits.
use codex_remote.Prelude.{String, true, ◌≡◌, ◌≢◌, ◌↔◌, none, arith, eq_iff}
use codex_remote.Workspace.Files.{
  FileKind, Condition, no_condition, create_only, replace_only, upsert, Looked, found, absent,
  unreadable, Os,
}
use codex_remote.Workspace.Files.Target.{
  kind_eq, plain_kind, condition_failure, or_else, entry_failure, target_failure,
  validate_mutation_target,
}

module _ {D N C : Type 0} (os : Os D N C) where
  abbrev pub Matches : String → FileKind → N → Type 0
  Matches expected want n =
      (expected ≢ "")
      × (kind_eq (plain_kind (os.kind_of n)) want ≡ true)
      × (os.revision_of n ≡ expected)

  -- A condition creates a target that is not there, or replaces one of the expected revision.
  abbrev pub Admits : Condition → String → FileKind → Looked N → Type 0
  Admits no_condition expected want l = ⊥
  Admits create_only expected want (found n) = ⊥
  Admits create_only expected want absent = expected ≡ ""
  Admits create_only expected want (unreadable x) = ⊥
  Admits replace_only expected want (found n) = Matches expected want n
  Admits replace_only expected want absent = ⊥
  Admits replace_only expected want (unreadable x) = ⊥
  Admits upsert expected want (found n) = Matches expected want n
  Admits upsert expected want absent = expected ≡ ""
  Admits upsert expected want (unreadable x) = ⊥

  target_failure-Admits :
      (wanted : Condition) (expected : String) (want : FileKind) (l : Looked N)
      → (target_failure os wanted expected want l ≡ none) ↔ Admits wanted expected want l
  unfolding target_failure condition_failure or_else entry_failure
  target_failure-Admits no_condition expected want (found n) = ground arith
  target_failure-Admits no_condition expected want absent = ground arith
  target_failure-Admits no_condition expected want (unreadable x) = ground arith
  target_failure-Admits create_only expected want (found n) = ground arith
  target_failure-Admits create_only expected want absent = ground (arith, eq_iff expected "")
  target_failure-Admits create_only expected want (unreadable x) = ground arith
  target_failure-Admits replace_only expected want (found n) =
      ground (arith, eq_iff expected "", eq_iff (os.revision_of n) expected)
  target_failure-Admits replace_only expected want absent = ground (arith, eq_iff expected "")
  target_failure-Admits replace_only expected want (unreadable x) = ground arith
  target_failure-Admits upsert expected want (found n) =
      ground (arith, eq_iff expected "", eq_iff (os.revision_of n) expected)
  target_failure-Admits upsert expected want absent = ground (arith, eq_iff expected "")
  target_failure-Admits upsert expected want (unreadable x) = ground arith

  -- A write passes its check exactly if it creates a target that is not there, with no revision given
  -- and not under REPLACE_ONLY, or it replaces an entry of the wanted kind whose revision is the one
  -- given, which is not empty, and not under CREATE_ONLY; and a condition is given.
  pub validate_mutation_target-Admits :
      (target : String) (wanted : Condition) (expected : String) (want : FileKind) (d : D)
      → (validate_mutation_target os target wanted expected want d ≡ none)
        ↔ Admits wanted expected want (os.lstat target d)
  unfolding validate_mutation_target
  validate_mutation_target-Admits target wanted expected want d =
      target_failure-Admits wanted expected want (os.lstat target d)
