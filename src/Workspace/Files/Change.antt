-- ===== src/Workspace/Files/Change.antt =====
-- internal/workspace/service.go: the file half of `WriteText` and `Upload`, and `entryMetadata`.
use codex_remote.Prelude.{
  ℕ, String, Bool, true, false, ◌&&◌, Option, none, some, if◌then◌else◌, leb,
}
use codex_remote.Workspace.{Emitted, delivered, outcome_unknown, sink_failed}
use codex_remote.Workspace.Files.{
  Failure, invalid_request, system, sink, unknown_outcome, regular, Condition, Looked, found,
  absent, unreadable, Done, Got, got, failed, Os, Backup, FileEntry,
}
use codex_remote.Workspace.Files.Staging.{stage_target, rollback_mutation, discard, atomic_file}
use codex_remote.Workspace.Files.Target.{validate_mutation_target, validate_upload_target, kind_eq}

pub data UploadKind : Type 0 where
  no_kind regular_file zip_directory : UploadKind

module _ {D N C : Type 0} (os : Os D N C) where
  unfoldable pub readable : Option C → Bool
  readable (some content) = os.is_utf8 content
  readable none = false

  -- A regular file within the limit, which is read if `inspect` says so.
  unfoldable pub viewable : ℕ → Bool → String → N → D → Bool
  unfolding readable kind_eq
  viewable limit inspect target n d =
      if kind_eq (os.kind_of n) regular && leb (os.size_of n) limit
      then (if inspect then readable (os.read target d) else true)
      else false

  unfoldable pub metadata_of : ℕ → Bool → String → Looked N → D → Got FileEntry
  unfolding viewable kind_eq
  metadata_of limit inspect target absent d = failed (system 2)
  metadata_of limit inspect target (unreadable x) d = failed (system x)
  metadata_of limit inspect target (found n) d = got (record {
    kind = os.kind_of n;
    size = os.size_of n;
    revision = if kind_eq (os.kind_of n) regular then os.revision_of n else "";
    text_viewable = viewable limit inspect target n d;
  })

  -- os.Lstat says ENOENT, error 2, of an entry that is not there.
  unfoldable pub entry_metadata : ℕ → Bool → String → D → Got FileEntry
  unfolding metadata_of
  entry_metadata limit inspect target d = metadata_of limit inspect target (os.lstat target d) d

  -- A target that was replaced, or the failure.
  pub data Changed : Type 0 where
    changed : Backup → FileEntry → Changed
    refused : Failure → Changed

  unfoldable pub undone : Failure × D → Changed × D
  undone (f, d) = (refused f, d)

  unfoldable pub described : Backup → Got FileEntry → D → Changed × D
  unfolding undone
  described b (got entry) d = (changed b entry, d)
  described b (failed f) d = undone (rollback_mutation os b f d)

  unfoldable pub applied : ℕ → Backup → Done D → Changed × D
  unfolding described undone
  applied limit b (none, d) = described b (entry_metadata limit true b.target d) d
  applied limit b (some f, d) = undone (rollback_mutation os b f d)

  unfoldable pub apply_to : ℕ → (D → Done D) → Got Backup × D → Changed × D
  unfolding applied
  apply_to limit apply (got b, d) = applied limit b (apply d)
  apply_to limit apply (failed f, d) = (refused f, d)

  -- From the check of the target to its description.
  unfoldable pub change : ℕ → String → String → Option Failure → (D → Done D) → D → Changed × D
  unfolding apply_to
  change limit name target (some f) apply d = (refused f, d)
  change limit name target none apply d = apply_to limit apply (stage_target os name target d)

  unfoldable pub write_target : ℕ → String → String → Condition → String → C → D → Changed × D
  unfolding change
  write_target limit name target condition expected text d =
      change limit name target (validate_mutation_target os target condition expected regular d)
        (atomic_file os target text) d

  -- `extract` is `extractZIPAtomic` on the content.
  unfoldable pub upload_apply : UploadKind → String → C → (D → Done D) → D → Done D
  upload_apply regular_file target content extract d = atomic_file os target content d
  upload_apply no_kind target content extract d = extract d
  upload_apply zip_directory target content extract d = extract d

  unfoldable pub upload_failure : UploadKind → String → D → Option Failure
  upload_failure no_kind target d = some invalid_request
  upload_failure regular_file target d = validate_upload_target os target d
  upload_failure zip_directory target d = validate_upload_target os target d

  unfoldable pub upload_target :
      ℕ → String → String → UploadKind → C → (D → Done D) → D → Changed × D
  unfolding change upload_failure upload_apply
  upload_target limit name target kind content extract d =
      change limit name target (upload_failure kind target d)
        (upload_apply kind target content extract) d

  -- The end of both operations, from the answer of the state sink.
  unfoldable pub settle : Emitted → ℕ → Backup → D → Done D
  settle delivered x b d = (none, discard os b d)
  settle outcome_unknown x b d = (some unknown_outcome, discard os b d)
  settle sink_failed x b d = let r = rollback_mutation os b (sink x) d in (some r.0, r.1)

  unfoldable pub settled : Emitted → ℕ → Changed × D → Done D
  unfolding settle
  settled answer x (changed b entry, d) = settle answer x b d
  settled answer x (refused f, d) = (some f, d)

  -- An operation on the files, with the answer of the state sink.
  unfoldable pub finish_change : Emitted → ℕ → Changed × D → Done D
  unfolding settled
  finish_change answer x r = settled answer x r
