-- ===== src/Workspace/Files/Uploaded.antt =====
-- internal/workspace/service.go: what an upload leaves at its target, whatever fails on the way.
use codex_remote.Prelude.{ℕ, String, Bool, false, ◌≡◌, ◌≢◌, Option, none, some, List}
use codex_remote.Workspace.{Emitted}
use codex_remote.Workspace.Files.{Done, Os, Item, ArchiveOs}
use codex_remote.Workspace.Files.Archive.{Limits, extract_zip_atomic}
use codex_remote.Workspace.Files.Change.{
  UploadKind, no_kind, regular_file, zip_directory, upload_apply, upload_failure, upload_target,
  finish_change,
}
use codex_remote.Workspace.Files.Frame.{Same, IsOs, content_at, atomic_file-Same, atomic_file-Holds}
use codex_remote.Workspace.Files.Outcome.{Leaves, finish_change-Leaves}
use codex_remote.Workspace.Files.Unarchive.{IsArchiveOs, extract_zip_atomic-Same}

-- What an upload that is done has put at its target.
abbrev pub IsUploaded : {N C : Type 0} → (N → Option C) → UploadKind → C → Option N → Type 0
IsUploaded content regular_file c n = content_at content n ≡ some c
IsUploaded content zip_directory c n = Unit
IsUploaded content no_kind c n = Unit

module _ {D N C : Type 0} (os : Os D N C) (zip : ArchiveOs D) (look : D → String → Option N)
    (content : N → Option C) (is_temp : String → Bool) (laws : IsOs os look content is_temp)
    (zip_laws : IsArchiveOs zip look is_temp) where
  upload_apply-Same :
      (kind : UploadKind) (target : String) (c : C) (extract : D → Done D) (d : D) (q : String)
      → q ≢ target
      → is_temp q ≡ false
      → Same look d (extract d).1 q
      → Same look d (upload_apply os kind target c extract d).1 q
  unfolding upload_apply
  upload_apply-Same no_kind target c extract d q other plain h = h
  upload_apply-Same regular_file target c extract d q other plain h =
      atomic_file-Same os look content is_temp laws target c d q other plain
  upload_apply-Same zip_directory target c extract d q other plain h = h

  upload_apply-IsUploaded :
      (kind : UploadKind) (target : String) (c : C) (extract : D → Done D) (d : D)
      → is_temp target ≡ false
      → (upload_apply os kind target c extract d).0 ≡ none
      → IsUploaded content kind c (look (upload_apply os kind target c extract d).1 target)
  unfolding upload_apply
  upload_apply-IsUploaded no_kind target c extract d plain h = tt
  upload_apply-IsUploaded regular_file target c extract d plain h =
      atomic_file-Holds os look content is_temp laws target c d plain h
  upload_apply-IsUploaded zip_directory target c extract d plain h = tt

  -- The files of `Upload`, whatever call of the system or check of the archive fails, nothing else
  -- changing the directory meanwhile. An upload that fails before the state sink is asked leaves its
  -- target as it was. After the change, the content of an uploaded file is at the target if the sink
  -- answers, and also if its outcome is unknown, which is then the failure; if the sink fails, the
  -- target is as it was and the failure is the sink's. Only a failure that tells that the rollback
  -- failed too may leave the target otherwise. Of an extracted archive nothing is said but what is
  -- undone. The names of the two backups are assumed to be others than the target and each other, and
  -- neither the target nor the first backup is named like a temporary entry.
  pub upload_target-Leaves :
      (answer : Emitted) (x limit : ℕ) (name target second : String) (kind : UploadKind) (c : C)
      (utf8 : List ℕ → Bool) (limits : Limits) (elements : String → List (List ℕ))
      (archive : Option (List Item)) (d : D)
      → name ≢ target
      → name ≢ second
      → is_temp name ≡ false
      → is_temp target ≡ false
      → let extract = extract_zip_atomic os zip utf8 limits elements target second archive in
        let done = upload_target os limit name target kind c extract d in
        Leaves os look
          (IsUploaded content kind c)
          target
          answer
          x
          d
          done.0
          (finish_change os answer x done)
  unfolding upload_target
  upload_target-Leaves answer x limit name target second kind c utf8 limits elements archive d other
        apart plain plain' =
      let extract = extract_zip_atomic os zip utf8 limits elements target second archive in
      finish_change-Leaves os look content is_temp laws name target other
        (IsUploaded content kind c) answer x limit (upload_failure os kind target d)
        (upload_apply os kind target c extract) d
        (λ d'. upload_apply-Same kind target c extract d' name other plain (
          extract_zip_atomic-Same os zip look content is_temp laws zip_laws utf8 limits elements
            target second archive d' name other apart plain))
        (λ d'. upload_apply-IsUploaded kind target c extract d' plain')
