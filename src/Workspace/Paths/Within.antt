-- ===== src/Workspace/Paths/Within.antt =====
-- internal/workspace/service.go: `within`, by the elements of the paths.
use codex_remote.Prelude.{
  ℕ, Bool, true, false, not, ◌&&◌, ◌≡◌, refl, ◌∙◌, List, [], ◌∷◌, ◌++◌, arith,
}
use codex_remote.Workspace.Paths.{
  text_eq, dot_dot, proper, all_proper, ups, rel, leaves_root, within,
}
use codex_remote.Workspace.Paths.Canonical.{text_eq_self}

unfoldable pub starts_with : List (List ℕ) → List (List ℕ) → Bool
unfolding text_eq
starts_with [] parts = true
starts_with (x ∷ xs) [] = false
starts_with (x ∷ xs) (y ∷ ys) = text_eq x y && starts_with xs ys

leaves_root-ups : (x : List ℕ) (xs ys : List (List ℕ)) → leaves_root (ups (x ∷ xs) ys) ≡ true
unfolding ups leaves_root
leaves_root-ups x xs ys = text_eq_self dot_dot

leaves_root-proper : (ys : List (List ℕ)) → all_proper ys ≡ true → leaves_root ys ≡ false
unfolding leaves_root all_proper proper
leaves_root-proper [] h = refl
leaves_root-proper (y ∷ ys) h = ground (arith, h)

leaves_root-rel :
    (xs ys : List (List ℕ))
    → all_proper ys ≡ true
    → leaves_root (rel xs ys) ≡ not (starts_with xs ys)
unfolding rel starts_with ups all_proper
leaves_root-rel [] ys h = leaves_root-proper ys h
leaves_root-rel (x ∷ xs) [] h = leaves_root-ups x xs []
leaves_root-rel (x ∷ xs) (y ∷ ys) h =
    ground (arith, h, leaves_root-rel xs ys, leaves_root-ups x xs (y ∷ ys))

-- For a clean absolute candidate, `within` says exactly whether the elements of the root are the
-- first elements of the candidate.
pub within-starts_with :
    (root candidate : List (List ℕ))
    → all_proper candidate ≡ true
    → within root candidate ≡ starts_with root candidate
unfolding within
within-starts_with root candidate h = ground (arith, leaves_root-rel root candidate h)

starts_with_append : (root parts : List (List ℕ)) → starts_with root (root ++ parts) ≡ true
unfolding starts_with
starts_with_append [] parts = refl
starts_with_append (x ∷ xs) parts = ground (arith, text_eq_self x, starts_with_append xs parts)

all_proper-append :
    (xs ys : List (List ℕ))
    → all_proper xs ≡ true
    → all_proper ys ≡ true
    → all_proper (xs ++ ys) ≡ true
unfolding all_proper
all_proper-append [] ys h k = k
all_proper-append (x ∷ xs) ys h k = ground (arith, h, k, all_proper-append xs ys)

pub within_append :
    (root parts : List (List ℕ))
    → all_proper root ≡ true
    → all_proper parts ≡ true
    → within root (root ++ parts) ≡ true
within_append root parts h k =
    within-starts_with root (root ++ parts) (all_proper-append root parts h k)
    ∙ starts_with_append root parts
