-- ===== src/Codex/Budget/Warnings.antt =====
-- internal/codex/budget.go: `boundWarning`, `boundError` and `boundCodex`. The maps of metadata are
-- lists of entries, whose order plays no part.
use codex_remote.Prelude.{
  ℕ, ◌/◌, ◌≤◌, max, String, Bool, true, ◌≡◌, refl, sym, ap, subst, ◌⊎◌, ◌<◌, Bool-cases, inl, inr,
  Option, none, some, List, [], map, Map, length, if_cases, if◌then◌else◌, ltb, leb, arith,
}
use codex_remote.Codex.Budget.{Completeness, budget_completeness, at_least_one, bound_string}
use codex_remote.Codex.Budget.Text.{IsLongest, bound_string-IsLongest}

-- A warning and an error have a message and metadata.
pub record Note : Type 0 where
  pub message : List ℕ
  pub metadata : Map (List ℕ)

pub record CodexTexts : Type 0 where
  pub title : List ℕ
  pub warnings : List Note

module _ (valid : List ℕ → Bool) where
  unfoldable pub bound_entry : ℕ → String × List ℕ → String × List ℕ
  unfolding bound_string
  bound_entry field (key, value) = (key, (bound_string valid value field).0)

  unfoldable pub bound_note : ℕ → Note → Note
  unfolding bound_string bound_entry
  bound_note budget n = record {
    message = (bound_string valid n.message (max (budget / 3) 1)).0;
    metadata = map (bound_entry (max (budget / 8) 1)) n.metadata;
  }

module _ (valid : List ℕ → Bool) (size : Note → ℕ) where
  without_metadata : ℕ → Note → Note
  without_metadata budget n = if ltb budget (size n) then record n { metadata = [] } else n

  unfoldable pub bound_warning : Note → ℕ → Note × Option Completeness
  unfolding bound_note without_metadata budget_completeness
  bound_warning n budget = if leb (size n) budget then (n, none) else (
    without_metadata budget (bound_note valid budget n),
    some (budget_completeness (size n) "warning exceeds C/S frame budget"),
  )

  unfoldable pub bound_error : Note → ℕ → Note × Option Completeness
  unfolding bound_note budget_completeness
  bound_error n budget = if leb (size n) budget then (n, none) else (
    bound_note valid budget n,
    some (budget_completeness (size n) "turn failure exceeds C/S frame budget"),
  )

module _ (valid : List ℕ → Bool) (size : Note → ℕ) (codex_size : CodexTexts → ℕ) where
  without_warnings : ℕ → CodexTexts → CodexTexts
  without_warnings budget c = if ltb budget (codex_size c) then record c { warnings = [] } else c

  unfoldable pub bound_codex : CodexTexts → ℕ → CodexTexts × Option Completeness
  unfolding bound_warning without_warnings budget_completeness bound_string
  bound_codex c budget = if leb (codex_size c) budget then (c, none) else (
    let kept = without_warnings budget (record c {
      warnings = map (λ w. (bound_warning valid size w (max (budget / 4) 1)).0) c.warnings;
    }) in
        record kept { title = (bound_string valid kept.title (max (budget / 8) 1)).0 },
    some (budget_completeness (codex_size c) "codex presentation fields exceed C/S frame budget"),
  )

-- A text within the limit as it is, or its longest valid prefix within the limit.
abbrev pub IsCut : (List ℕ → Bool) → List ℕ → ℕ → List ℕ → Type 0
IsCut valid value limit result =
    ((length value ≤ limit) × (result ≡ value))
    ⊎ ((limit < length value) × IsLongest valid value limit result)

bound_string-IsCut :
    (valid : List ℕ → Bool) (value : List ℕ) (budget : ℕ)
    → valid [] ≡ true
    → IsCut valid value (max budget 1) (bound_string valid value (max budget 1)).0
unfolding at_least_one
bound_string-IsCut valid value budget empty =
    let e : at_least_one (max budget 1) ≡ max budget 1 = ground arith in
    subst (λ (b : ℕ). IsCut valid value b (bound_string valid value (max budget 1)).0) e
      (elim (bound_string-IsLongest valid value (max budget 1) empty) [
        | inl (small, same) ↦ inl (small, ap (λ r. r.0) same)
        | inr (large, longest, flagged) ↦ inr (large, longest)
      ])

module _ (valid : List ℕ → Bool) (size : Note → ℕ) where
  -- A warning `n` that is too large, cut to `r`: the message is cut to a third of the budget, and
  -- the metadata, each value cut to an eighth of it, is dropped exactly if that is still too large.
  pub record IsShortened (n : Note) (budget : ℕ) (r : Note) : Type 0 where
    pub message : IsCut valid n.message (max (budget / 3) 1) r.message
    pub metadata :
        let kept : Note = record {
          message = r.message;
          metadata = map (bound_entry valid (max (budget / 8) 1)) n.metadata;
        } in
        ((size kept ≤ budget) × (r.metadata ≡ kept.metadata))
        ⊎ ((budget < size kept) × (r.metadata ≡ []))

  without_metadata-IsShortened :
      (n : Note) (budget : ℕ)
      → valid [] ≡ true
      → IsShortened n budget (without_metadata valid size budget (bound_note valid budget n))
  unfolding without_metadata bound_note
  without_metadata-IsShortened n budget empty =
      let kept = bound_note valid budget n in
      let cut = bound_string-IsCut valid n.message (budget / 3) empty in
      if_cases (λ (r : Note). IsShortened n budget r) (ltb budget (size kept))
        (λ large. record { message = cut; metadata = inr (ground (arith, large), refl) })
        (λ small. record { message = cut; metadata = inl (ground (arith, small), refl) })

  -- `boundWarning` returns a warning within the budget as it is. Else it flags the warning with its
  -- size, cuts its message to a third of the budget (at least one byte) and each value of its
  -- metadata to an eighth, and drops the metadata exactly if the warning is then still too large; all
  -- if the empty text is valid.
  pub bound_warning-IsShortened :
      (n : Note) (budget : ℕ)
      → valid [] ≡ true
      → ((size n ≤ budget) × (bound_warning valid size n budget ≡ (n, none)))
        ⊎ ((budget < size n)
            × IsShortened n budget (bound_warning valid size n budget).0
            × ((bound_warning valid size n budget).1
                ≡ some (budget_completeness (size n) "warning exceeds C/S frame budget")))
  unfolding bound_warning
  bound_warning-IsShortened n budget empty = elim (Bool-cases (leb (size n) budget)) [
    | inl small ↦ inl (ground (arith, small), ground (arith, small))
    | inr large ↦ inr (
        let e : bound_warning valid size n budget ≡ (
          without_metadata valid size budget (bound_note valid budget n),
          some (budget_completeness (size n) "warning exceeds C/S frame budget"),
        ) =
          ground (arith, large) in
        (
          ground (arith, large),
          subst (λ (r : Note × Option Completeness). IsShortened n budget r.0) (sym e)
              (without_metadata-IsShortened n budget empty),
          ap (λ r. r.1) e,
        ))
  ]
