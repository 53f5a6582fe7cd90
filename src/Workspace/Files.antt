-- ===== src/Workspace/Files.antt =====
-- internal/workspace/service.go: the files of `WriteText` and `Upload`. A disk is seen as the entries
-- of the target's directory, by name; every call of the operating system may fail.
pub mod Staging
pub mod Target
pub mod Conditions
pub mod Change
pub mod Frame
pub mod Rollback
pub mod Archive
pub mod Archived
pub mod Unarchive
pub mod Uploaded
pub mod Outcome
use codex_remote.Prelude.{ℕ, String, Bool, Option, List}

-- The codes of workspaceErr, an error of the system or of the state sink, and errors.Join.
pub data Failure : Type 0 where
  invalid_request conflict entry_not_found revision_conflict type_unsupported : Failure
  archive_invalid too_many_entries expanded_too_large text_too_large text_not_utf8 : Failure
  system sink : ℕ → Failure
  unknown_outcome : Failure
  joined : Failure → Failure → Failure

pub data FileKind : Type 0 where
  regular directory symbolic_link other : FileKind

pub data Condition : Type 0 where
  no_condition create_only replace_only upsert : Condition

-- What os.Lstat answers.
pub data Looked (N : Type 0) : Type 0 where
  found : N → Looked N
  absent : Looked N
  unreadable : ℕ → Looked N

-- What an operation that may fail leaves: a failure or none, and the disk.
abbrev pub Done : Type 0 → Type 0
Done D = Option Failure × D

pub data Got (A : Type 0) : Type 0 where
  got : A → Got A
  failed : Failure → Got A

-- The operating system, with disks `D`, entries `N` and file contents `C`.
pub record Os (D N C : Type 0) : Type 0 where
  pub lstat : String → D → Looked N
  pub rename : String → String → D → Done D
  pub remove_all : String → D → Done D
  pub create_temp : D → Got String × D
  pub chmod : String → D → Done D
  pub write : String → C → D → Done D
  pub sync : String → D → Done D
  pub close : String → D → Done D
  pub read : String → D → Option C
  pub is_utf8 : C → Bool
  pub size_of : N → ℕ
  pub kind_of : N → FileKind
  -- metadataRevision, a SHA-256 digest
  pub revision_of : N → String

-- targetBackup
pub record Backup : Type 0 where
  pub target : String
  pub backup : String
  pub existed : Bool

-- WorkspaceEntry, without its names and its time.
pub record FileEntry : Type 0 where
  pub kind : FileKind
  pub size : ℕ
  pub revision : String
  pub text_viewable : Bool

-- A zip.File: its name, its mode and its declared UncompressedSize64.
pub record Item : Type 0 where
  pub name : List ℕ
  pub is_link : Bool
  pub is_regular : Bool
  pub is_directory : Bool
  pub size : ℕ

-- The calls that an extraction makes inside its staging directory.
pub record ArchiveOs (D : Type 0) : Type 0 where
  pub context : D → Option Failure
  pub mkdir_temp : D → Got String × D
  pub mkdir_all : String → List (List ℕ) → D → Done D
  pub copy_item : String → List (List ℕ) → Item → ℕ → D → Done D
