-- ===== src/Codex/Items.antt =====
-- internal/codex/manager.go: `findItem`, `upsertItem` and `boundHistoryPage`. The content of an item is
-- the type parameter `C`; a nil turn has no items.
use codex_remote.Prelude.{
  ℕ, String, Bool, false, ◌≡◌, refl, Option, none, some, List, [], ◌∷◌, if◌then◌else◌, leb, str_eq,
  arith, eq_iff,
}
use codex_remote.Codex.Budget.{
  Completeness, budget_completeness, merge_completeness, bounded_proto_prefix, collection_budget,
}

pub record Item (C : Type 0) : Type 0 where
  pub item_id : String
  pub content : C

pub record HistoryPage (T : Type 0) : Type 0 where
  pub turns : List T
  pub history_complete : Bool
  pub completeness : Option Completeness

module _ {C : Type 0} where
  unfoldable pub find_item : List (Item C) → String → Option (Item C)
  find_item [] id = none
  find_item (item ∷ items) id = if str_eq item.item_id id then some item else find_item items id

  unfoldable pub upsert_item : List (Item C) → Item C → List (Item C)
  upsert_item [] item = item ∷ []
  upsert_item (old ∷ items) item =
      if str_eq old.item_id item.item_id then item ∷ items else old ∷ upsert_item items item

  -- After an upsert the item is found under its id, and every other id finds what it found before.
  pub find_item-upsert_item :
      (items : List (Item C)) (item : Item C) (id : String)
      → find_item (upsert_item items item) id
        ≡ (if str_eq item.item_id id then some item else find_item items id)
  unfolding find_item upsert_item
  find_item-upsert_item [] item id = refl
  find_item-upsert_item (old ∷ items) item id = ground (
    arith,
    find_item-upsert_item items item id,
    eq_iff old.item_id item.item_id,
    eq_iff old.item_id id,
    eq_iff item.item_id id,
  )

module _ {T : Type 0} (size : HistoryPage T → ℕ) where
  unfoldable pub cut_history : ℕ → HistoryPage T → HistoryPage T
  unfolding merge_completeness budget_completeness bounded_proto_prefix
  cut_history budget page =
      let marked = record page {
        history_complete = false;
        completeness =
            merge_completeness page.completeness (
              some (budget_completeness (size page) "history collection exceeds C/S frame budget"));
      } in
      record marked {
        turns =
            bounded_proto_prefix marked.turns 0
              (λ values. leb (size (record marked { turns = values })) budget);
      }

  unfoldable pub bound_history_page : ℕ → Option (HistoryPage T) → Option (HistoryPage T)
  unfolding cut_history collection_budget
  bound_history_page configured none = none
  bound_history_page configured (some page) =
      if leb (size page) (collection_budget configured)
      then some page
      else some (cut_history (collection_budget configured) page)
