-- ===== src/Workspace/Files/Unarchive.antt =====
-- internal/workspace/service.go: what `extractZIPAtomic` leaves alone.
use codex_remote.Prelude.{
  ℕ, ◌+◌, ◌%◌, ◌^◌, String, Bool, true, false, ◌≡◌, ◌≢◌, refl, sym, ◌∙◌, ap, Option, none, some,
  List, [], ◌∷◌, length, if_cases, ltb, arith,
}
use codex_remote.Workspace.Files.{
  Failure, Looked, found, absent, unreadable, Done, Got, got, failed, Os, Item, ArchiveOs,
}
use codex_remote.Workspace.Files.Archive.{
  Limits, trim_slash, then_copy, write_item, unless_failed, and_next, item_failure, extract_items,
  put_back, replace_moved, replace_with, replace_tree, cleaned, extract_in, extract_zip_atomic,
  drop_last,
}
use codex_remote.Workspace.Files.Frame.{Same, IsOs}
use codex_remote.Workspace.Files.Archived.{IsProper, item_failure-IsProper}
use codex_remote.Workspace.Paths.{split, all_proper}

-- What is written in the staging directory, at a path of proper elements, changes no other entry
-- beside it.
pub record IsArchiveOs {D N : Type 0} (zip : ArchiveOs D) (look : D → String → Option N)
    (is_temp : String → Bool) : Type 0 where
  pub temp_named : (d : D) (name : String) → (zip.mkdir_temp d).0 ≡ got name → is_temp name ≡ true
  pub temp_other : (d : D) (q : String) → is_temp q ≡ false → Same look d (zip.mkdir_temp d).1 q
  pub mkdir_other :
      (staging : String) (parts : List (List ℕ)) (d : D) (q : String)
      → all_proper parts ≡ true
      → q ≢ staging
      → Same look d (zip.mkdir_all staging parts d).1 q
  pub copy_other :
      (staging : String) (parts : List (List ℕ)) (item : Item) (limit : ℕ) (d : D) (q : String)
      → all_proper parts ≡ true
      → q ≢ staging
      → Same look d (zip.copy_item staging parts item limit d).1 q

drop_last-proper :
    (parts : List (List ℕ)) → all_proper parts ≡ true → all_proper (drop_last parts) ≡ true
unfolding all_proper drop_last
drop_last-proper [] h = refl
drop_last-proper (x ∷ []) h = refl
drop_last-proper (x ∷ y ∷ ys) h = ground (arith, h, drop_last-proper (y ∷ ys))

module _ {D N C : Type 0} (os : Os D N C) (zip : ArchiveOs D) (look : D → String → Option N)
    (content : N → Option C) (is_temp : String → Bool) (laws : IsOs os look content is_temp)
    (zip_laws : IsArchiveOs zip look is_temp) where
  then_copy-Same :
      (r : Done D) (copy : D → Done D) (d : D) (q : String)
      → Same look d r.1 q
      → ((d' : D) → Same look d' (copy d').1 q)
      → Same look d (then_copy os zip r copy).1 q
  unfolding then_copy
  then_copy-Same (none, d') copy d q h k = k d' ∙ h
  then_copy-Same (some f, d') copy d q h k = h

  and_next-Same :
      (r : Done D) (next : D → Done D) (d : D) (q : String)
      → Same look d r.1 q
      → ((d' : D) → Same look d' (next d').1 q)
      → Same look d (and_next os zip r next).1 q
  unfolding and_next
  and_next-Same (none, d') next d q h k = k d' ∙ h
  and_next-Same (some f, d') next d q h k = h

  unless_failed-Same :
      (o : Option Failure) (d : D) (go : Done D) (q : String)
      → (o ≡ none → Same look d go.1 q)
      → Same look d (unless_failed os zip o d go).1 q
  unfolding unless_failed
  unless_failed-Same none d go q h = h refl
  unless_failed-Same (some f) d go q h = refl

  write_item-Same :
      (limits : Limits) (staging : String) (item : Item) (d : D) (q : String)
      → IsProper item
      → q ≢ staging
      → Same look d (write_item os zip limits staging item d).1 q
  unfolding write_item
  write_item-Same limits staging item d q proper other =
      let parts = split (trim_slash item.name) in
      let copy = zip.copy_item staging parts item (limits.max_expanded_bytes + 1) in
      if_cases (λ (r : Done D). Same look d r.1 q) item.is_directory
        (λ folder. zip_laws.mkdir_other staging parts d q proper other)
        (λ file.
          then_copy-Same (zip.mkdir_all staging (drop_last parts) d) copy d q
            (zip_laws.mkdir_other staging (drop_last parts) d q (drop_last-proper parts proper)
              other)
            (λ d'.
              zip_laws.copy_other staging parts item (limits.max_expanded_bytes + 1) d' q proper
                other))

  extract_items-Same :
      (utf8 : List ℕ → Bool) (limits : Limits) (staging : String) (elements seen : List (List ℕ))
      (expanded : ℕ) (items : List Item) (d : D) (q : String)
      → q ≢ staging
      → Same look d (extract_items os zip utf8 limits staging elements seen expanded items d).1 q
  unfolding extract_items
  extract_items-Same utf8 limits staging elements seen expanded [] d q other = refl
  extract_items-Same utf8 limits staging elements seen expanded (item ∷ items) d q other =
      let next =
        extract_items os zip utf8 limits staging elements (trim_slash item.name ∷ seen)
          ((expanded + item.size) % 2 ^ 64) items in
      let go = and_next os zip (write_item os zip limits staging item d) next in
      let check = item_failure utf8 limits elements seen expanded item in
      unless_failed-Same (zip.context d) d (unless_failed os zip check d go) q (λ on.
        unless_failed-Same check d go q (λ admitted.
          and_next-Same (write_item os zip limits staging item d) next d q
            (write_item-Same limits staging item d q
              (item_failure-IsProper utf8 limits elements seen expanded item admitted) other)
            (λ d'.
              extract_items-Same utf8 limits staging elements (trim_slash item.name ∷ seen)
                ((expanded + item.size) % 2 ^ 64) items d' q other)))

  put_back-Same :
      (existed : Bool) (target backup : String) (r : Done D) (d : D) (q : String)
      → q ≢ target
      → q ≢ backup
      → Same look d r.1 q
      → Same look d (put_back os zip existed target backup r).1 q
  unfolding put_back
  put_back-Same existed target backup (none, d') d q t b h =
      if_cases (λ x. Same look d x q) existed (λ was. laws.remove_other backup q d' b ∙ h)
        (λ new. h)
  put_back-Same existed target backup (some f, d') d q t b h =
      if_cases (λ x. Same look d x q) existed (λ was. laws.rename_other backup target q d' b t ∙ h)
        (λ new. h)

  replace_moved-Same :
      (target staging backup : String) (r : Done D) (d : D) (q : String)
      → q ≢ target
      → q ≢ staging
      → q ≢ backup
      → Same look d r.1 q
      → Same look d (replace_moved os zip target staging backup r).1 q
  unfolding replace_moved
  replace_moved-Same target staging backup (none, d') d q t s b h =
      put_back-Same true target backup (os.rename staging target d') d q t b
        (laws.rename_other staging target q d' s t ∙ h)
  replace_moved-Same target staging backup (some f, d') d q t s b h = h

  replace_with-Same :
      (target staging backup : String) (l : Looked N) (d : D) (q : String)
      → q ≢ target
      → q ≢ staging
      → q ≢ backup
      → Same look d (replace_with os zip target staging backup l d).1 q
  unfolding replace_with
  replace_with-Same target staging backup (found n) d q t s b =
      replace_moved-Same target staging backup (os.rename target backup d) d q t s b
        (laws.rename_other target backup q d t b)
  replace_with-Same target staging backup absent d q t s b =
      put_back-Same false target backup (os.rename staging target d) d q t b
        (laws.rename_other staging target q d s t)
  replace_with-Same target staging backup (unreadable x) d q t s b = refl

  pub cleaned-Same :
      (staging : String) (r : Done D) (d : D) (q : String)
      → q ≢ staging
      → Same look d r.1 q
      → Same look d (cleaned os zip staging r).1 q
  unfolding cleaned
  cleaned-Same staging (f, d') d q other h = laws.remove_other staging q d' other ∙ h

  fresh_staging : (q name : String) → is_temp q ≡ false → is_temp name ≡ true → q ≢ name
  fresh_staging q name a b e = ground (arith, sym (ap is_temp e) ∙ a, b)

  extract_in-Same :
      (utf8 : List ℕ → Bool) (limits : Limits) (elements : String → List (List ℕ))
      (target backup : String) (items : List Item) (r : Got String × D) (d : D) (q : String)
      → q ≢ target
      → q ≢ backup
      → ((name : String) → r.0 ≡ got name → q ≢ name)
      → Same look d r.1 q
      → Same look d (extract_in os zip utf8 limits elements target backup items r).1 q
  unfolding extract_in replace_tree
  extract_in-Same utf8 limits elements target backup items (failed f, d') d q t b s h = h
  extract_in-Same utf8 limits elements target backup items (got staging, d') d q t b s h =
      let all = extract_items os zip utf8 limits staging (elements staging) [] 0 items d' in
      let replace = replace_tree os zip target staging backup in
      cleaned-Same staging (and_next os zip all replace) d q (s staging refl) (
        and_next-Same all replace d q
          (extract_items-Same utf8 limits staging (elements staging) [] 0 items d' q
              (s staging refl)
            ∙ h)
          (λ d''.
            replace_with-Same target staging backup (os.lstat target d'') d'' q t (s staging refl)
              b))

  pub extract_zip_atomic-Same :
      (utf8 : List ℕ → Bool) (limits : Limits) (elements : String → List (List ℕ))
      (target backup : String) (archive : Option (List Item)) (d : D) (q : String)
      → q ≢ target
      → q ≢ backup
      → is_temp q ≡ false
      → Same look d (extract_zip_atomic os zip utf8 limits elements target backup archive d).1 q
  unfolding extract_zip_atomic
  extract_zip_atomic-Same utf8 limits elements target backup none d q t b plain = refl
  extract_zip_atomic-Same utf8 limits elements target backup (some items) d q t b plain =
      if_cases (λ (r : Done D). Same look d r.1 q)
        (ltb limits.max_entry_count (length items % 2 ^ 32)) (λ many. refl)
        (λ few.
          extract_in-Same utf8 limits elements target backup items (zip.mkdir_temp d) d q t b
            (λ name named. fresh_staging q name plain (zip_laws.temp_named d name named))
            (zip_laws.temp_other d q plain))
