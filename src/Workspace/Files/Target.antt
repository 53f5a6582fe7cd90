-- ===== src/Workspace/Files/Target.antt =====
-- internal/workspace/service.go: `validateMutationTarget` and `validateUploadTarget`.
use codex_remote.Prelude.{
  String, Bool, true, false, not, ◌&&◌, Option, none, some, if◌then◌else◌, str_eq,
}
use codex_remote.Workspace.Files.{
  Failure, invalid_request, conflict, entry_not_found, revision_conflict, type_unsupported, system,
  FileKind, regular, directory, symbolic_link, other, Condition, no_condition, create_only,
  replace_only, upsert, Looked, found, absent, unreadable, Os,
}

unfoldable pub kind_eq : FileKind → FileKind → Bool
kind_eq regular regular = true
kind_eq directory directory = true
kind_eq symbolic_link symbolic_link = true
kind_eq other other = true
kind_eq _ _ = false

-- `kind`, which does not tell a symbolic link from other entries.
unfoldable pub plain_kind : FileKind → FileKind
plain_kind regular = regular
plain_kind directory = directory
plain_kind symbolic_link = other
plain_kind other = other

-- What the write condition says of a target that exists or not.
unfoldable pub condition_failure : Condition → String → Bool → Option Failure
condition_failure no_condition expected exists = some invalid_request
condition_failure create_only expected exists =
    if not (str_eq expected "")
    then some invalid_request
    else (if exists then some conflict else none)
condition_failure replace_only expected exists =
    if str_eq expected ""
    then some invalid_request
    else (if exists then none else some entry_not_found)
condition_failure upsert expected exists =
    if str_eq expected "" && exists
    then some revision_conflict
    else (if not (str_eq expected "") && not exists then some revision_conflict else none)

unfoldable pub or_else : Option Failure → Option Failure → Option Failure
or_else none later = later
or_else (some f) later = some f

module _ {D N C : Type 0} (os : Os D N C) where
  -- The end of `validateMutationTarget`, on a target that exists.
  unfoldable pub entry_failure : String → FileKind → N → Option Failure
  unfolding kind_eq plain_kind
  entry_failure expected want n =
      if not (kind_eq (plain_kind (os.kind_of n)) want)
      then some conflict
      else if not (str_eq expected "") && not (str_eq (os.revision_of n) expected)
      then some revision_conflict
      else none

  unfoldable pub target_failure : Condition → String → FileKind → Looked N → Option Failure
  unfolding condition_failure entry_failure or_else
  target_failure wanted expected want (unreadable x) = some (system x)
  target_failure wanted expected want absent = condition_failure wanted expected false
  target_failure wanted expected want (found n) =
      or_else (condition_failure wanted expected true) (entry_failure expected want n)

  unfoldable pub validate_mutation_target :
      String → Condition → String → FileKind → D → Option Failure
  unfolding target_failure
  validate_mutation_target target wanted expected want d =
      target_failure wanted expected want (os.lstat target d)

  upload_failure : Looked N → Option Failure
  unfolding kind_eq
  upload_failure absent = none
  upload_failure (unreadable x) = some (system x)
  upload_failure (found n) =
      if not (kind_eq (os.kind_of n) regular) && not (kind_eq (os.kind_of n) directory)
      then some type_unsupported
      else none

  unfoldable pub validate_upload_target : String → D → Option Failure
  unfolding upload_failure
  validate_upload_target target d = upload_failure (os.lstat target d)
