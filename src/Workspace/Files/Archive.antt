-- ===== src/Workspace/Files/Archive.antt =====
-- internal/workspace/service.go: `extractZIPAtomic` and `replaceTree`.
use codex_remote.Prelude.{
  ℕ, ◌+◌, ◌%◌, ◌^◌, String, Bool, true, false, not, ◌&&◌, ◌||◌, Option, none, some, List, [], ◌∷◌,
  ◌++◌, length, if◌then◌else◌, ltb, ◌==◌,
}
use codex_remote.Workspace.Files.{
  Failure, archive_invalid, too_many_entries, expanded_too_large, system, Looked, found, absent,
  unreadable, Done, Got, got, failed, Os, Item, ArchiveOs,
}
use codex_remote.Workspace.Paths.{text_eq, split, canonical_relative, within}

pub record Limits : Type 0 where
  pub max_entry_count : ℕ
  pub max_expanded_bytes : ℕ

-- strings.TrimSuffix(name, "/")
unfoldable pub trim_slash : List ℕ → List ℕ
trim_slash [] = []
trim_slash (b ∷ []) = if b == 47 then [] else b ∷ []
trim_slash (b ∷ c ∷ bs) = let rest = trim_slash (c ∷ bs) in b ∷ rest

unfoldable pub was_seen : List ℕ → List (List ℕ) → Bool
unfolding text_eq
was_seen name [] = false
was_seen name (x ∷ xs) = text_eq x name || was_seen name xs

-- The checks of one entry, before anything of it is written; `expanded` is a uint64. The elements of
-- the staging directory are `staging`.
unfoldable pub item_failure :
    (List ℕ → Bool) → Limits → List (List ℕ) → List (List ℕ) → ℕ → Item → Option Failure
unfolding trim_slash canonical_relative was_seen within split
item_failure utf8 limits staging seen expanded item =
    let name = trim_slash item.name in
    if not (canonical_relative utf8 false name)
    then some archive_invalid
    else if was_seen name seen
    then some archive_invalid
    else if item.is_link || (not item.is_regular && not item.is_directory)
    then some archive_invalid
    else if ltb limits.max_expanded_bytes ((expanded + item.size) % 2 ^ 64)
    then some expanded_too_large
    else if not (within staging (staging ++ split name))
    then some archive_invalid
    else none

unfoldable pub drop_last : List (List ℕ) → List (List ℕ)
drop_last [] = []
drop_last (x ∷ []) = []
drop_last (x ∷ y ∷ ys) = let rest = drop_last (y ∷ ys) in x ∷ rest

module _ {D N C : Type 0} (os : Os D N C) (zip : ArchiveOs D) where
  unfoldable pub then_copy : Done D → (D → Done D) → Done D
  then_copy (none, d) copy = copy d
  then_copy (some f, d) copy = (some f, d)

  unfoldable pub write_item : Limits → String → Item → D → Done D
  unfolding then_copy drop_last trim_slash split
  write_item limits staging item d =
      let parts = split (trim_slash item.name) in
      if item.is_directory
      then zip.mkdir_all staging parts d
      else then_copy (zip.mkdir_all staging (drop_last parts) d)
          (zip.copy_item staging parts item (limits.max_expanded_bytes + 1))

  unfoldable pub unless_failed : Option Failure → D → Done D → Done D
  unless_failed (some f) d go = (some f, d)
  unless_failed none d go = go

  unfoldable pub and_next : Done D → (D → Done D) → Done D
  and_next (none, d) next = next d
  and_next (some f, d) next = (some f, d)

  -- The loop over the entries; `elements` are those of the staging directory's path.
  unfoldable pub extract_items :
      (List ℕ → Bool) → Limits → String → List (List ℕ) → List (List ℕ) → ℕ → List Item → D → Done D
  unfolding unless_failed and_next write_item item_failure trim_slash
  extract_items utf8 limits staging elements seen expanded [] d = (none, d)
  extract_items utf8 limits staging elements seen expanded (item ∷ items) d =
      unless_failed (zip.context d) d (
        unless_failed (item_failure utf8 limits elements seen expanded item) d (
          and_next (write_item limits staging item d) (
            extract_items utf8 limits staging elements (trim_slash item.name ∷ seen)
              ((expanded + item.size) % 2 ^ 64) items)))

  unfoldable pub put_back : Bool → String → String → Done D → Done D
  put_back existed target backup (none, d) =
      (none, if existed then (os.remove_all backup d).1 else d)
  put_back existed target backup (some f, d) =
      (some f, if existed then (os.rename backup target d).1 else d)

  unfoldable pub replace_moved : String → String → String → Done D → Done D
  unfolding put_back
  replace_moved target staging backup (some f, d) = (some f, d)
  replace_moved target staging backup (none, d) =
      put_back true target backup (os.rename staging target d)

  unfoldable pub replace_with : String → String → String → Looked N → D → Done D
  unfolding replace_moved put_back
  replace_with target staging backup (found n) d =
      replace_moved target staging backup (os.rename target backup d)
  replace_with target staging backup absent d =
      put_back false target backup (os.rename staging target d)
  replace_with target staging backup (unreadable x) d = (some (system x), d)

  -- `backup` is the target's name with ".codex-remote-backup-" and a new token.
  unfoldable pub replace_tree : String → String → String → D → Done D
  unfolding replace_with
  replace_tree target staging backup d = replace_with target staging backup (os.lstat target d) d

  unfoldable pub cleaned : String → Done D → Done D
  cleaned staging (f, d) = (f, (os.remove_all staging d).1)

  unfoldable pub extract_in :
      (List ℕ → Bool)
      → Limits
      → (String → List (List ℕ))
      → String
      → String
      → List Item
      → Got String × D
      → Done D
  unfolding cleaned and_next extract_items replace_tree
  extract_in utf8 limits elements target backup items (failed f, d) = (some f, d)
  extract_in utf8 limits elements target backup items (got staging, d) = cleaned staging (
      and_next (extract_items utf8 limits staging (elements staging) [] 0 items d)
        (replace_tree target staging backup))

  -- `archive` is what zip.NewReader makes of the content, if it is an archive.
  unfoldable pub extract_zip_atomic :
      (List ℕ → Bool)
      → Limits
      → (String → List (List ℕ))
      → String
      → String
      → Option (List Item)
      → D
      → Done D
  unfolding extract_in
  extract_zip_atomic utf8 limits elements target backup none d = (some archive_invalid, d)
  extract_zip_atomic utf8 limits elements target backup (some items) d =
      if ltb limits.max_entry_count (length items % 2 ^ 32)
      then (some too_many_entries, d)
      else extract_in utf8 limits elements target backup items (zip.mkdir_temp d)
