-- ===== src/Workspace/Files/Archived.antt =====
-- internal/workspace/service.go: what an archive that was extracted is like.
use codex_remote.Prelude.{
  ℕ, ◌+◌, ◌%◌, ◌^◌, ◌≤◌, ◌<◌, String, Bool, true, false, ◌≡◌, ◌≢◌, refl, Option, none, some, List,
  [], ◌∷◌, All, length, if◌then◌else◌, ltb, arith,
}
use codex_remote.Workspace.Files.{
  Failure, too_many_entries, Done, Got, got, failed, Os, Item, ArchiveOs,
}
use codex_remote.Workspace.Files.Archive.{
  Limits, trim_slash, was_seen, item_failure, unless_failed, and_next, write_item, extract_items,
  cleaned, replace_tree, extract_in, extract_zip_atomic,
}
use codex_remote.Workspace.Paths.{text_eq, split, canonical_relative, all_proper, is_empty_text}
use codex_remote.Workspace.Paths.Canonical.{canonical_relative-proper}

abbrev pub IsProper : Item → Type 0
IsProper item = all_proper (split (trim_slash item.name)) ≡ true

abbrev pub Distinct : List Item → Type 0
Distinct [] = Unit
Distinct (item ∷ items) =
    All (λ (other : Item). text_eq (trim_slash item.name) (trim_slash other.name) ≡ false) items
    × Distinct items

unfoldable pub total : List Item → ℕ
total [] = 0
total (item ∷ items) = item.size + total items

text_eq_none :
    (utf8 : List ℕ → Bool) (p : List ℕ)
    → canonical_relative utf8 false p ≡ true
    → all_proper (split p) ≡ true
unfolding is_empty_text
text_eq_none utf8 p h = ground (arith, h, canonical_relative-proper utf8 false p)

item_failure-none :
    (utf8 : List ℕ → Bool) (limits : Limits) (staging seen : List (List ℕ)) (expanded : ℕ)
    (item : Item)
    → item_failure utf8 limits staging seen expanded item ≡ none
    → (canonical_relative utf8 false (trim_slash item.name) ≡ true)
      × (was_seen (trim_slash item.name) seen ≡ false)
      × ((expanded + item.size) % 2 ^ 64 ≤ limits.max_expanded_bytes)
unfolding item_failure
item_failure-none utf8 limits staging seen expanded item h = ground (arith, h)

pub item_failure-IsProper :
    (utf8 : List ℕ → Bool) (limits : Limits) (staging seen : List (List ℕ)) (expanded : ℕ)
    (item : Item)
    → item_failure utf8 limits staging seen expanded item ≡ none
    → IsProper item
item_failure-IsProper utf8 limits staging seen expanded item h =
    text_eq_none utf8 (trim_slash item.name)
      (item_failure-none utf8 limits staging seen expanded item h).0

module _ {D N C : Type 0} (os : Os D N C) (zip : ArchiveOs D) where
  unless_failed-none :
      (o : Option Failure) (d : D) (go : Done D)
      → (unless_failed os zip o d go).0 ≡ none
      → (o ≡ none) × (go.0 ≡ none)
  unfolding unless_failed
  unless_failed-none none d go h = (refl, h)
  unless_failed-none (some f) d go h = ground (arith, h)

  and_next-none :
      (r : Done D) (next : D → Done D) → (and_next os zip r next).0 ≡ none → (next r.1).0 ≡ none
  unfolding and_next
  and_next-none (none, d) next h = h
  and_next-none (some f, d) next h = ground (arith, h)

  abbrev Extracts :
      (List ℕ → Bool) → Limits → String → List (List ℕ) → List (List ℕ) → ℕ → List Item → D → Type 0
  Extracts utf8 limits staging elements seen expanded items d =
      (extract_items os zip utf8 limits staging elements seen expanded items d).0 ≡ none

  extract_item :
      (utf8 : List ℕ → Bool) (limits : Limits) (staging : String) (elements seen : List (List ℕ))
      (expanded : ℕ) (item : Item) (items : List Item) (d : D)
      → Extracts utf8 limits staging elements seen expanded (item ∷ items) d
      → (item_failure utf8 limits elements seen expanded item ≡ none)
        × Extracts utf8 limits staging elements
            (trim_slash item.name ∷ seen)
            ((expanded + item.size) % 2 ^ 64)
            items
            (write_item os zip limits staging item d).1
  unfolding extract_items
  extract_item utf8 limits staging elements seen expanded item items d h =
      let live = unless_failed-none (zip.context d) d _ h in
      let good =
        unless_failed-none (item_failure utf8 limits elements seen expanded item) d _ live.1 in
      (good.0, and_next-none (write_item os zip limits staging item d) _ good.1)

  extract_items-IsProper :
      (utf8 : List ℕ → Bool) (limits : Limits) (staging : String) (elements seen : List (List ℕ))
      (expanded : ℕ) (items : List Item) (d : D)
      → Extracts utf8 limits staging elements seen expanded items d
      → All IsProper items
  extract_items-IsProper utf8 limits staging elements seen expanded [] d h = tt
  extract_items-IsProper utf8 limits staging elements seen expanded (item ∷ items) d h =
      let s = extract_item utf8 limits staging elements seen expanded item items d h in
      let c = item_failure-none utf8 limits elements seen expanded item s.0 in
      (
        text_eq_none utf8 (trim_slash item.name) c.0,
        extract_items-IsProper utf8 limits staging elements (trim_slash item.name ∷ seen)
            ((expanded + item.size) % 2 ^ 64) items (write_item os zip limits staging item d).1 s.1,
      )

  extract_items-total :
      (utf8 : List ℕ → Bool) (limits : Limits) (staging : String) (elements seen : List (List ℕ))
      (expanded : ℕ) (items : List Item) (d : D)
      → expanded ≤ limits.max_expanded_bytes
      → expanded + total items < 2 ^ 64
      → Extracts utf8 limits staging elements seen expanded items d
      → expanded + total items ≤ limits.max_expanded_bytes
  unfolding total
  extract_items-total utf8 limits staging elements seen expanded [] d low fits h =
      omega (arith, low)
  extract_items-total utf8 limits staging elements seen expanded (item ∷ items) d low fits h =
      let s = extract_item utf8 limits staging elements seen expanded item items d h in
      let c = item_failure-none utf8 limits elements seen expanded item s.0 in
      let same : (expanded + item.size) % 2 ^ 64 ≡ expanded + item.size = omega (arith, fits) in
      omega (
        arith,
        same,
        extract_items-total utf8 limits staging elements (trim_slash item.name ∷ seen)
            ((expanded + item.size) % 2 ^ 64) items (write_item os zip limits staging item d).1 c.2
            (omega (arith, same, fits)) s.1,
      )

  abbrev Fresh : List (List ℕ) → List Item → Type 0
  Fresh seen items = All (λ (item : Item). was_seen (trim_slash item.name) seen ≡ false) items

  Fresh-tail :
      (x : List ℕ) (seen : List (List ℕ)) (items : List Item)
      → Fresh (x ∷ seen) items
      → Fresh seen items
  unfolding was_seen
  Fresh-tail x seen [] h = tt
  Fresh-tail x seen (item ∷ items) h = (ground (arith, h.0), Fresh-tail x seen items h.1)

  Fresh-head :
      (x : List ℕ) (seen : List (List ℕ)) (items : List Item)
      → Fresh (x ∷ seen) items
      → All (λ (other : Item). text_eq x (trim_slash other.name) ≡ false) items
  unfolding was_seen
  Fresh-head x seen [] h = tt
  Fresh-head x seen (item ∷ items) h = (ground (arith, h.0), Fresh-head x seen items h.1)

  extract_items-Distinct :
      (utf8 : List ℕ → Bool) (limits : Limits) (staging : String) (elements seen : List (List ℕ))
      (expanded : ℕ) (items : List Item) (d : D)
      → Extracts utf8 limits staging elements seen expanded items d
      → Fresh seen items × Distinct items
  extract_items-Distinct utf8 limits staging elements seen expanded [] d h = (tt, tt)
  extract_items-Distinct utf8 limits staging elements seen expanded (item ∷ items) d h =
      let s = extract_item utf8 limits staging elements seen expanded item items d h in
      let c = item_failure-none utf8 limits elements seen expanded item s.0 in
      let name = trim_slash item.name in
      let r =
        extract_items-Distinct utf8 limits staging elements (name ∷ seen)
          ((expanded + item.size) % 2 ^ 64) items (write_item os zip limits staging item d).1 s.1 in
      ((c.1, Fresh-tail name seen items r.0), (Fresh-head name seen items r.0, r.1))

  cleaned-none : (staging : String) (r : Done D) → (cleaned os zip staging r).0 ≡ none → r.0 ≡ none
  unfolding cleaned
  cleaned-none staging (f, d) h = h

  and_next-first : (r : Done D) (next : D → Done D) → (and_next os zip r next).0 ≡ none → r.0 ≡ none
  unfolding and_next
  and_next-first (none, d) next h = refl
  and_next-first (some f, d) next h = h

  extract_in-items :
      (utf8 : List ℕ → Bool) (limits : Limits) (elements : String → List (List ℕ))
      (target backup : String) (items : List Item) (r : Got String × D)
      → total items < 2 ^ 64
      → (extract_in os zip utf8 limits elements target backup items r).0 ≡ none
      → All IsProper items × Distinct items × (total items ≤ limits.max_expanded_bytes)
  unfolding extract_in
  extract_in-items utf8 limits elements target backup items (failed f, d) fits h = ground (arith, h)
  extract_in-items utf8 limits elements target backup items (got staging, d) fits h =
      let all = extract_items os zip utf8 limits staging (elements staging) [] 0 items d in
      let replace = replace_tree os zip target staging backup in
      let e = and_next-first all replace (cleaned-none staging (and_next os zip all replace) h) in
      (
        extract_items-IsProper utf8 limits staging (elements staging) [] 0 items d e,
        (extract_items-Distinct utf8 limits staging (elements staging) [] 0 items d e).1,
        omega (
          arith,
          extract_items-total utf8 limits staging (elements staging) [] 0 items d (omega arith)
              (omega (arith, fits)) e,
        ),
      )

  within_count :
      (many : Bool) (refused go : Done D)
      → refused.0 ≢ none
      → (if many then refused else go).0 ≡ none
      → (many ≡ false) × (go.0 ≡ none)
  within_count true refused go k h = elim (k h) [ ]
  within_count false refused go k h = (refl, h)

  -- An archive of fewer than 2^32 entries whose declared sizes add up to less than 2^64, if it is
  -- extracted without a failure: it has at most the configured number of entries; every entry's
  -- path is made of names, so that none of its elements is empty, "." or ".."; no two entries have
  -- the same path; and the declared sizes add up to at most the configured limit.
  pub extract_zip_atomic-items :
      (utf8 : List ℕ → Bool) (limits : Limits) (elements : String → List (List ℕ))
      (target backup : String) (items : List Item) (d : D)
      → length items < 2 ^ 32
      → total items < 2 ^ 64
      → (extract_zip_atomic os zip utf8 limits elements target backup (some items) d).0 ≡ none
      → (length items ≤ limits.max_entry_count)
        × All IsProper items
        × Distinct items
        × (total items ≤ limits.max_expanded_bytes)
  unfolding extract_zip_atomic
  extract_zip_atomic-items utf8 limits elements target backup items d few_enough fits h =
      let few =
        within_count (ltb limits.max_entry_count (length items % 2 ^ 32)) (some too_many_entries, d)
          _ (λ e. ground (arith, e)) h in
      let r =
        extract_in-items utf8 limits elements target backup items (zip.mkdir_temp d) fits few.1 in
      (ground (arith, few.0, few_enough), r.0, r.1, r.2)
