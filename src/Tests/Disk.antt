-- ===== src/Tests/Disk.antt =====
-- The files of a workspace on a disk whose calls succeed, its paths and its archives.
use codex_remote.Prelude.{
  ℕ, ◌-◌, ◌≤◌, ◌<◌, ◌^◌, String, Bool, true, false, ◌≡◌, ◌≢◌, ◌↔◌, ◌∙◌, ap, refl, Option, none,
  some, List, [], ◌∷◌, All, length, if◌then◌else◌, arith, eq_iff, str_eq, not, ◌&&◌,
}
use codex_remote.Workspace.{Emitted, delivered, outcome_unknown, sink_failed}
use codex_remote.Workspace.Files.{
  Failure, regular, create_only, upsert, Looked, found, absent, Got, got, failed, conflict, Os,
  Item, ArchiveOs,
}
use codex_remote.Workspace.Reads.{Stat, stat, Look, read_text, list_page}
use codex_remote.Workspace.Files.Frame.{IsOs, content_at}
use codex_remote.Workspace.Files.Change.{
  Changed, write_target, upload_target, finish_change, zip_directory, regular_file,
}
use codex_remote.Workspace.Files.Outcome.{Leaves, write_target-Leaves}
use codex_remote.Workspace.Files.Unarchive.{IsArchiveOs}
use codex_remote.Workspace.Files.Uploaded.{IsUploaded, upload_target-Leaves}
use codex_remote.Workspace.Files.Conditions.{Admits, validate_mutation_target-Admits}
use codex_remote.Workspace.Files.Target.{validate_mutation_target}
use codex_remote.Workspace.Files.Archive.{Limits, extract_zip_atomic}
use codex_remote.Workspace.Files.Archived.{IsProper, Distinct, total, extract_zip_atomic-items}
use codex_remote.Workspace.Paths.{canonical_relative, is_empty_text, has_byte, split, all_proper}
use codex_remote.Workspace.Paths.Canonical.{canonical_relative-proper}

abbrev Disk : Type 0
Disk = String → Option String

looked : Option String → Looked String
looked none = absent
looked (some n) = found n

put : String → Option String → Disk → Disk
put a n d q = if str_eq q a then n else d q

abbrev os : Os Disk String String
unfolding looked put
os = record {
  lstat = λ q d. looked (d q);
  rename = λ a b d. (none, put b (d a) (put a none d));
  remove_all = λ q d. (none, put q none d);
  create_temp = λ d. (got "temp", d);
  chmod = λ q d. (none, d);
  write = λ q c d. (none, put q (some c) d);
  sync = λ q d. (none, d);
  close = λ q d. (none, d);
  read = λ q d. d q;
  is_utf8 = λ c. true;
  size_of = λ n. 1;
  kind_of = λ n. regular;
  revision_of = λ n. n;
}

abbrev look : Disk → String → Option String
look d q = d q

abbrev is_temp : String → Bool
is_temp q = str_eq q "temp"

put_self : (a : String) (n : Option String) (d : Disk) → put a n d a ≡ n
unfolding put
put_self a n d = ground (arith, eq_iff a a)

put_other : (a q : String) (n : Option String) (d : Disk) → q ≢ a → put a n d q ≡ d q
unfolding put
put_other a q n d other = ground (arith, eq_iff q a, other)

looked-found : (o : Option String) (n : String) → looked o ≡ found n → o ≡ some n
unfolding looked
looked-found none n h = ground (arith, h)
looked-found (some m) n h = ground (arith, h)

looked-absent : (o : Option String) → looked o ≡ absent → o ≡ none
unfolding looked
looked-absent none h = refl
looked-absent (some m) h = ground (arith, h)

os-IsOs : IsOs os look some is_temp
unfolding content_at looked os
os-IsOs = record {
  lstat_found = λ q d n h. looked-found (d q) n h;
  lstat_absent = λ q d h. looked-absent (d q) h;
  rename_done = λ a b d h. put_self b (d a) (put a none d);
  rename_failed = λ a b q d f h. ground (arith, h);
  rename_other = λ a b q d x y. put_other b q (d a) (put a none d) y ∙ put_other a q none d x;
  remove_done = λ q d h. put_self q none d;
  remove_other = λ a q d other. put_other a q none d other;
  temp_named = λ d name h. ground (arith, h, eq_iff name "temp");
  temp_other = λ d q h. refl;
  chmod_other = λ a q d other. refl;
  write_other = λ a q c d other. put_other a q (some c) d other;
  write_done = λ a c d h. ap (content_at some) (put_self a (some c) d);
  sync_same = λ a q d. refl;
  close_same = λ a q d. refl;
}

abbrev disk : Disk
disk q = none

abbrev name : String
name = "rollback"

abbrev target : String
target = "target"

apart : name ≢ target
apart e = ground (arith, e, eq_iff name target)

write_target-Leaves_example :
    Leaves os look
      (λ n. content_at some n ≡ some "text")
      target
      outcome_unknown
      0
      disk
      (write_target os 10 name target upsert "" "text" disk).0
      (finish_change os outcome_unknown 0 (write_target os 10 name target upsert "" "text" disk))
write_target-Leaves_example =
    write_target-Leaves os look some is_temp os-IsOs outcome_unknown 0 10 name target upsert ""
      "text" disk apart refl refl

write_succeeds :
    (finish_change os delivered 0 (write_target os 10 name target upsert "" "text" disk)).0 ≡ none
unfolding finish_change write_target os looked validate_mutation_target
    codex_remote.Workspace.Files.Staging.stage_target
    codex_remote.Workspace.Files.Staging.atomic_file
    codex_remote.Workspace.Files.Change.entry_metadata
write_succeeds = refl

abbrev archive : ArchiveOs Disk
archive = record {
  context = λ d. none;
  mkdir_temp = λ d. (got "temp", d);
  mkdir_all = λ staging parts d. (none, d);
  copy_item = λ staging parts item limit d. (none, d);
}

archive-IsArchiveOs : IsArchiveOs archive look is_temp
archive-IsArchiveOs = record {
  temp_named = λ d name h. ground (arith, h, eq_iff name "temp");
  temp_other = λ d q h. refl;
  mkdir_other = λ staging parts d q proper other. refl;
  copy_other = λ staging parts item limit d q proper other. refl;
}

abbrev utf8 : List ℕ → Bool
utf8 p = true

abbrev limits : Limits
limits = record { max_entry_count = 3; max_expanded_bytes = 100 }

abbrev item : ℕ → ℕ → Item
item byte size = record {
  name = byte ∷ [];
  is_link = false;
  is_regular = true;
  is_directory = false;
  size = size;
}

abbrev items : List Item
items = item 97 40 ∷ item 98 60 ∷ []

abbrev elements : String → List (List ℕ)
elements staging = (116 ∷ []) ∷ []

abbrev second : String
second = "second"

apart_too : name ≢ second
apart_too e = ground (arith, e, eq_iff name second)

abbrev uploaded : Changed os × Disk
uploaded =
    upload_target os 10 name target zip_directory "content"
      (extract_zip_atomic os archive utf8 limits elements target second (some items)) disk

upload_target-Leaves_example :
    Leaves os look
      (IsUploaded some zip_directory "content")
      target
      sink_failed
      0
      disk
      uploaded.0
      (finish_change os sink_failed 0 uploaded)
upload_target-Leaves_example =
    upload_target-Leaves os archive look some is_temp os-IsOs archive-IsArchiveOs sink_failed 0 10
      name target second zip_directory "content" utf8 limits elements (some items) disk apart
      apart_too refl refl

extracted :
    (extract_zip_atomic os archive utf8 limits elements target second (some items) disk).0 ≡ none
unfolding extract_zip_atomic os looked
extracted = refl

fits : total items < 2 ^ 64
unfolding total
fits = omega arith

extract_zip_atomic-items_example :
    (length items ≤ limits.max_entry_count)
    × All IsProper items
    × Distinct items
    × (total items ≤ limits.max_expanded_bytes)
extract_zip_atomic-items_example =
    extract_zip_atomic-items os archive utf8 limits elements target second items disk (omega arith)
      fits extracted

-- The declared sizes are added in 64 bits, so that a sum of 2^64 or more passes the limit.
expanded_wraps :
    (extract_zip_atomic os archive utf8 limits elements target second
      (some (item 97 1 ∷ item 98 (2 ^ 64 - 1) ∷ []))
      disk).0
    ≡ none
unfolding extract_zip_atomic os looked
expanded_wraps = refl

validate_mutation_target-Admits_example :
    (validate_mutation_target os target create_only "" regular disk ≡ none)
    ↔ Admits os create_only "" regular (os.lstat target disk)
validate_mutation_target-Admits_example =
    validate_mutation_target-Admits os target create_only "" regular disk

canonical_relative-proper_example : canonical_relative utf8 false (97 ∷ 47 ∷ 46 ∷ []) ≡ (
    if is_empty_text (97 ∷ 47 ∷ 46 ∷ [])
    then false
    else utf8 (97 ∷ 47 ∷ 46 ∷ [])
      && not (has_byte 92 (97 ∷ 47 ∷ 46 ∷ []))
      && all_proper (split (97 ∷ 47 ∷ 46 ∷ [])))
canonical_relative-proper_example = canonical_relative-proper utf8 false (97 ∷ 47 ∷ 46 ∷ [])

abbrev stable_file : Stat
stable_file = record { is_regular = true; size = 4; identity = 1; modified_at = 10 }

abbrev changing : Look String
changing = record {
  before = stat stable_file;
  content = got "old";
  after = stat (record stable_file { modified_at = 11 });
}

abbrev settled : Look String
settled = record { before = stat stable_file; content = got "text"; after = stat stable_file }

-- A file that changed during the first attempt is read by the second one.
second_attempt : read_text (λ c. true) 10 changing settled ≡ got "text"
unfolding read_text
second_attempt = refl

both_change : read_text (λ c. true) 10 changing changing ≡ failed conflict
unfolding read_text
both_change = refl

second_page : list_page {E = ℕ} 2 2 (got 1 ∷ got 2 ∷ got 3 ∷ []) ≡ (got (3 ∷ []), 3)
unfolding list_page
second_page = refl
