-- ===== src/Prelude/Maps.antt =====
-- A Go map with string keys as an association list. The code never depends on the order of a map.
use Prim.Native.String.{String}
use mathlib.Core.Path.{◌≡◌}
use mathlib.Core.Logic.{◌≢◌, ◌⊎◌, inl, inr}
use mathlib.Core.List.{List, [], ◌∷◌}
use mathlib.Core.Option.{Option, none, some}
use native.Mathlib.Omega.{arith}
use text.Mathlib.Text.{◌==◌ as str_eq}
use text.Mathlib.TextEquality.{eq_iff}
use codex_remote.Prelude.Tests.{Bool-cases, if◌then◌else◌}

abbrev pub Map {ℓ} : Type ℓ → Type ℓ
Map V = List (String × V)

module _ {ℓ} {V : Type ℓ} where
  -- m[k], with `none` for a missing key
  unfoldable pub lookup : String → Map V → Option V
  lookup k [] = none
  lookup k ((l, found) ∷ rest) = if str_eq l k then some found else lookup k rest

  -- m[k] = v
  unfoldable pub insert : String → V → Map V → Map V
  insert k v [] = (k, v) ∷ []
  insert k v ((l, old) ∷ rest) = if str_eq l k then (k, v) ∷ rest else (l, old) ∷ insert k v rest

  -- delete(m, k)
  unfoldable pub remove : String → Map V → Map V
  remove k [] = []
  remove k ((j, v) ∷ m) = let rest = remove k m in if str_eq j k then rest else (j, v) ∷ rest

  pub lookup-insert :
      (k j : String) (v : V) (m : Map V)
      → lookup j (insert k v m) ≡ (if str_eq k j then some v else lookup j m)
  unfolding lookup insert
  lookup-insert k j v [] = ground arith
  lookup-insert k j v ((l, old) ∷ rest) =
      ground (arith, lookup-insert k j v rest, eq_iff k j, eq_iff l k, eq_iff l j)

  pub lookup-remove :
      (k j : String) (m : Map V) → lookup j (remove k m) ≡ (if str_eq k j then none else lookup j m)
  unfolding lookup remove
  lookup-remove k j [] = ground arith
  lookup-remove k j ((l, old) ∷ rest) =
      ground (arith, lookup-remove k j rest, eq_iff k j, eq_iff l k, eq_iff l j)

  pub lookup-insert_self : (k : String) (v : V) (m : Map V) → lookup k (insert k v m) ≡ some v
  lookup-insert_self k v m = ground (arith, lookup-insert k k v m, eq_iff k k)

module _ {ℓ} {V : Type ℓ} where
  -- What is found after a write is what was written, or stands under another key.
  pub lookup-insert_cases :
      (k j : String) (v x : V) (m : Map V)
      → lookup j (insert k v m) ≡ some x
      → ((j ≡ k) × (v ≡ x)) ⊎ ((j ≢ k) × (lookup j m ≡ some x))
  lookup-insert_cases k j v x m h = elim (Bool-cases (str_eq k j)) [
    | inl same ↦ inl (ground (arith, eq_iff k j), ground (arith, lookup-insert k j v m))
    | inr other ↦ inr ((λ e. ground (arith, eq_iff k j)), ground (arith, lookup-insert k j v m))
  ]

  pub lookup-remove_cases :
      (k j : String) (x : V) (m : Map V)
      → lookup j (remove k m) ≡ some x
      → (j ≢ k) × (lookup j m ≡ some x)
  lookup-remove_cases k j x m h =
      ((λ e. ground (arith, eq_iff k j, lookup-remove k j m)), ground (arith, lookup-remove k j m))

pub ruleset map_laws = (lookup-insert, lookup-remove)
