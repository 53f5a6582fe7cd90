-- ===== src/Codex/Budget.antt =====
-- internal/codex/budget.go and internal/codex/manager.go: how texts and collections are cut down to
-- the frame budget. A text is the list of its bytes; utf8.ValidString is the argument `valid`, and
-- the size of a message as JSON is an argument too.
pub mod Prefix
pub mod Text
pub mod Pending
pub mod Warnings
use codex_remote.Prelude.{
  ℕ, zero, suc, ◌+◌, ◌-◌, ◌*◌, ◌/◌, min, max, Bool, true, false, not, ◌||◌, Option, none, some,
  List, [], ◌∷◌, length, take, if◌then◌else◌, ltb, leb, ◌==◌, String, str_eq,
}

pub record Completeness : Type 0 where
  pub truncated : Bool
  pub incomplete : Bool
  pub original_size_bytes : ℕ
  pub reason : String

unfoldable pub content_budget : ℕ → ℕ
content_budget budget = if budget == 0 then 262144 else budget

unfoldable pub collection_budget : ℕ → ℕ
unfolding content_budget
collection_budget configured =
    let budget = content_budget configured * 2 in max (budget - max (min (budget / 8) 1024) 128) 1

unfoldable pub budget_completeness : ℕ → String → Completeness
budget_completeness original reason = record {
  truncated = true;
  incomplete = true;
  original_size_bytes = original;
  reason = reason;
}

unfoldable pub merged : Completeness → Completeness → Completeness
merged dst src = record {
  truncated = dst.truncated || src.truncated;
  incomplete = dst.incomplete || src.incomplete;
  original_size_bytes =
      if ltb dst.original_size_bytes src.original_size_bytes
      then src.original_size_bytes
      else dst.original_size_bytes;
  reason = if str_eq dst.reason "" then src.reason else dst.reason;
}

unfoldable pub merge_completeness : Option Completeness → Option Completeness → Option Completeness
unfolding merged
merge_completeness dst none = dst
merge_completeness none (some src) = some src
merge_completeness (some dst) (some src) = some (merged dst src)

-- The loop of `validUTF8Prefix`, from `end` down.
unfoldable pub shrink : (List ℕ → Bool) → List ℕ → ℕ → List ℕ
shrink valid value zero = []
shrink valid value (suc n) =
    let rest = shrink valid value n in
    if valid (take (suc n) value) then take (suc n) value else rest

unfoldable pub valid_utf8_prefix : (List ℕ → Bool) → List ℕ → ℕ → List ℕ
unfolding shrink
valid_utf8_prefix valid value budget =
    if leb (length value) budget then value else shrink valid value budget

unfoldable pub at_least_one : ℕ → ℕ
at_least_one budget = if budget == 0 then 1 else budget

unfoldable pub bound_string : (List ℕ → Bool) → List ℕ → ℕ → List ℕ × Option Completeness
unfolding valid_utf8_prefix budget_completeness at_least_one
bound_string valid value budget =
    if leb (length value) (at_least_one budget) then (value, none) else (
      valid_utf8_prefix valid value (at_least_one budget),
      some (budget_completeness (length value) "content exceeds C/S frame budget"),
    )

-- The interval of the binary search after one probe in its middle.
unfoldable pub narrowed : (ℕ → Bool) → ℕ → ℕ → ℕ × ℕ
narrowed fits low high =
    let mid = low + (high - low + 1) / 2 in if fits mid then (mid, high) else (low, mid - 1)

-- The loop of `boundedProtoPrefix`, on fuel.
unfoldable pub search : ℕ → (ℕ → Bool) → ℕ → ℕ → ℕ
unfolding narrowed
search zero fits low high = low
search (suc n) fits low high =
    let (low', high') = narrowed fits low high in
    let rest = search n fits low' high' in if ltb low high then rest else low

module _ {T : Type 0} where
  unfoldable pub search_prefix : List T → ℕ → (List T → Bool) → List T
  unfolding search
  search_prefix values least fits =
      if fits (take least values)
      then take (search (length values) (λ n. fits (take n values)) least (length values)) values
      else take least values

  unfoldable pub bounded_proto_prefix : List T → ℕ → (List T → Bool) → List T
  unfolding search_prefix
  bounded_proto_prefix [] minimum fits = []
  bounded_proto_prefix (x ∷ xs) minimum fits =
      if fits (x ∷ xs) then x ∷ xs else search_prefix (x ∷ xs) (min minimum (length (x ∷ xs))) fits
