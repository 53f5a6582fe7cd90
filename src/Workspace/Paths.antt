-- ===== src/Workspace/Paths.antt =====
-- internal/workspace/service.go: `canonicalRelative` and `within`. A path is its bytes: 47 is "/",
-- 46 is "." and 92 is "\".
pub mod Canonical
pub mod Within
use codex_remote.Prelude.{
  ℕ, Bool, true, false, not, ◌&&◌, ◌||◌, List, [], ◌∷◌, ◌++◌, if◌then◌else◌, ◌==◌,
}

unfoldable pub text_eq : List ℕ → List ℕ → Bool
text_eq [] [] = true
text_eq (x ∷ xs) (y ∷ ys) = (x == y) && text_eq xs ys
text_eq _ _ = false

unfoldable pub is_empty_text : List ℕ → Bool
is_empty_text [] = true
is_empty_text (x ∷ xs) = false

unfoldable pub has_byte : ℕ → List ℕ → Bool
has_byte b [] = false
has_byte b (x ∷ xs) = (x == b) || has_byte b xs

unfoldable pub starts_with_slash : List ℕ → Bool
starts_with_slash [] = false
starts_with_slash (x ∷ xs) = x == 47

unfoldable pub push_byte : ℕ → List (List ℕ) → List (List ℕ)
push_byte b [] = (b ∷ []) ∷ []
push_byte b (part ∷ parts) = (b ∷ part) ∷ parts

-- strings.Split(p, "/")
unfoldable pub split : List ℕ → List (List ℕ)
unfolding push_byte
split [] = [] ∷ []
split (b ∷ bs) = let rest = split bs in if b == 47 then [] ∷ rest else push_byte b rest

-- strings.Join(parts, "/")
unfoldable pub join : List (List ℕ) → List ℕ
join [] = []
join (part ∷ []) = part
join (part ∷ next ∷ parts) = part ++ (47 ∷ join (next ∷ parts))

abbrev pub dot : List ℕ
dot = 46 ∷ []

abbrev pub dot_dot : List ℕ
dot_dot = 46 ∷ 46 ∷ []

unfoldable pub rev_onto : List (List ℕ) → List (List ℕ) → List (List ℕ)
rev_onto [] parts = parts
rev_onto (x ∷ xs) parts = rev_onto xs (x ∷ parts)

-- What ".." does to the elements before it, the last one first.
unfoldable pub up : Bool → List (List ℕ) → List (List ℕ)
unfolding text_eq
up rooted [] = if rooted then [] else dot_dot ∷ []
up rooted (x ∷ xs) = if text_eq x dot_dot then dot_dot ∷ x ∷ xs else xs

unfoldable pub clean_parts : Bool → List (List ℕ) → List (List ℕ) → List (List ℕ)
unfolding rev_onto up text_eq is_empty_text
clean_parts rooted stack [] = rev_onto stack []
clean_parts rooted stack (part ∷ parts) =
    clean_parts rooted
      (if is_empty_text part || text_eq part dot
        then stack
        else (if text_eq part dot_dot then up rooted stack else part ∷ stack))
      parts

or_dot : List ℕ → List ℕ
or_dot [] = dot
or_dot (x ∷ xs) = x ∷ xs

-- path.Clean
unfoldable pub clean : List ℕ → List ℕ
unfolding or_dot starts_with_slash clean_parts split join
clean p =
    if starts_with_slash p
    then 47 ∷ join (clean_parts true [] (split p))
    else or_dot (join (clean_parts false [] (split p)))

-- An element that stands for a name.
unfoldable pub proper : List ℕ → Bool
unfolding is_empty_text text_eq
proper part = not (is_empty_text part || text_eq part dot || text_eq part dot_dot)

unfoldable pub all_proper : List (List ℕ) → Bool
unfolding proper
all_proper [] = true
all_proper (part ∷ parts) = proper part && all_proper parts

-- Whether the path is accepted; `utf8` is utf8.ValidString.
unfoldable pub canonical_relative : (List ℕ → Bool) → Bool → List ℕ → Bool
unfolding is_empty_text has_byte starts_with_slash clean text_eq all_proper split
canonical_relative utf8 allow_root p =
    if is_empty_text p
    then allow_root
    else utf8 p
      && not (has_byte 92 p || starts_with_slash p || not (text_eq (clean p) p) || text_eq p dot)
      && all_proper (split p)

-- filepath.Rel of two absolute clean paths, by their elements.
unfoldable pub ups : List (List ℕ) → List (List ℕ) → List (List ℕ)
ups [] parts = parts
ups (x ∷ xs) parts = dot_dot ∷ ups xs parts

unfoldable pub rel : List (List ℕ) → List (List ℕ) → List (List ℕ)
unfolding ups text_eq
rel [] parts = parts
rel (x ∷ xs) [] = ups (x ∷ xs) []
rel (x ∷ xs) (y ∷ ys) = let rest = rel xs ys in if text_eq x y then rest else ups (x ∷ xs) (y ∷ ys)

unfoldable pub leaves_root : List (List ℕ) → Bool
unfolding text_eq
leaves_root [] = false
leaves_root (x ∷ xs) = text_eq x dot_dot

unfoldable pub within : List (List ℕ) → List (List ℕ) → Bool
unfolding leaves_root rel
within root candidate = not (leaves_root (rel root candidate))
