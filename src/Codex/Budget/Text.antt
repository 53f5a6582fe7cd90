-- ===== src/Codex/Budget/Text.antt =====
-- internal/codex/manager.go: what `boundString` and `mergeCompleteness` keep.
use codex_remote.Prelude.{
  ℕ, zero, suc, ◌≤◌, ◌<◌, Bool, true, false, ◌≡◌, refl, sym, ap, subst, ◌∙◌, ◌⊎◌, inl, inr,
  Bool-cases, none, some, List, [], length, take, if_cases, arith, leb,
}
use codex_remote.Codex.Budget.{
  budget_completeness, shrink, at_least_one, valid_utf8_prefix, bound_string,
}

-- The longest prefix of at most `budget` bytes that is valid, or the empty one.
pub record IsLongest (valid : List ℕ → Bool) (value : List ℕ) (budget : ℕ) (result : List ℕ)
    : Type 0 where
  pub size : ℕ
  pub within : size ≤ budget
  pub is_prefix : result ≡ take size value
  pub is_valid : valid result ≡ true
  pub beyond : (n : ℕ) → size < n → n ≤ budget → valid (take n value) ≡ false

last_or_before : (n m : ℕ) → m ≤ suc n → (m ≡ suc n) ⊎ (m ≤ n)
last_or_before n m within = elim (Bool-cases (leb m n)) [
  | inl before ↦ inr (ground (arith, before))
  | inr last ↦ inl (ground (arith, last, within))
]

shrink-IsLongest :
    (valid : List ℕ → Bool) (value : List ℕ) (budget : ℕ)
    → valid [] ≡ true
    → IsLongest valid value budget (shrink valid value budget)
unfolding shrink
shrink-IsLongest valid value zero empty = record {
  size = 0;
  within = omega arith;
  is_prefix = refl;
  is_valid = empty;
  beyond = λ n past within. ground arith;
}
shrink-IsLongest valid value (suc n) empty =
    if_cases (λ (r : List ℕ). IsLongest valid value (suc n) r) (valid (take (suc n) value))
      (λ good. record {
        size = suc n;
        within = omega arith;
        is_prefix = refl;
        is_valid = good;
        beyond = λ m past within. ground arith;
      })
      (λ bad.
        let r = shrink-IsLongest valid value n empty in
        record {
          size = r.size;
          within = omega (arith, r.within);
          is_prefix = r.is_prefix;
          is_valid = r.is_valid;
          beyond = λ m past within. elim (last_or_before n m within) [
            | inl last ↦ ap (λ (j : ℕ). valid (take j value)) last ∙ bad
            | inr before ↦ r.beyond m past before
          ];
        })

-- `boundString` returns the text as it is if it is within the budget, which counts as 1 if it is 0;
-- else the longest prefix within the budget that is valid UTF-8, flagged as truncated, with the
-- text's size, if the empty text is valid.
pub bound_string-IsLongest :
    (valid : List ℕ → Bool) (value : List ℕ) (budget : ℕ)
    → valid [] ≡ true
    → ((length value ≤ at_least_one budget) × (bound_string valid value budget ≡ (value, none)))
      ⊎ ((at_least_one budget < length value)
          × IsLongest valid value (at_least_one budget) (bound_string valid value budget).0
          × ((bound_string valid value budget).1
              ≡ some (budget_completeness (length value) "content exceeds C/S frame budget")))
unfolding bound_string valid_utf8_prefix
bound_string-IsLongest valid value budget empty =
    elim (Bool-cases (leb (length value) (at_least_one budget))) [
      | inl small ↦ inl (ground (arith, small), ground (arith, small))
      | inr large ↦ inr (
        ground (arith, large),
        subst (λ (r : List ℕ). IsLongest valid value (at_least_one budget) r)
            (sym (ground (arith, large)))
            (shrink-IsLongest valid value (at_least_one budget) empty),
        ground (arith, large),
      )
    ]
