-- ===== src/Workspace/Paths/Canonical.antt =====
-- internal/workspace/service.go: what `canonicalRelative` accepts.
use codex_remote.Prelude.{
  ℕ, Bool, true, false, not, ◌&&◌, ◌≡◌, inl, inr, ◌≢◌, refl, ap, ◌∙◌, List, [], ◌∷◌, if◌then◌else◌,
  ◌==◌, arith, if_cases, Bool-cases,
}
use codex_remote.Workspace.Paths.{
  text_eq, is_empty_text, has_byte, starts_with_slash, push_byte, split, join, dot, rev_onto,
  clean_parts, or_dot, clean, proper, all_proper, canonical_relative,
}

pub text_eq_self : (p : List ℕ) → text_eq p p ≡ true
unfolding text_eq
text_eq_self [] = refl
text_eq_self (x ∷ xs) = ground (arith, text_eq_self xs)

join-push_byte :
    (b : ℕ) (parts : List (List ℕ)) → parts ≢ [] → join (push_byte b parts) ≡ b ∷ join parts
unfolding join push_byte
join-push_byte b [] h = elim (h refl) [ ]
join-push_byte b (part ∷ []) h = refl
join-push_byte b (part ∷ next ∷ parts) h = refl

push_byte-some : (b : ℕ) (parts : List (List ℕ)) → push_byte b parts ≢ []
unfolding push_byte
push_byte-some b [] h = ground (arith, h)
push_byte-some b (part ∷ parts) h = ground (arith, h)

join_empty : (parts : List (List ℕ)) → parts ≢ [] → join ([] ∷ parts) ≡ 47 ∷ join parts
unfolding join
join_empty [] h = elim (h refl) [ ]
join_empty (part ∷ parts) h = refl

split-some : (p : List ℕ) → split p ≢ []
unfolding split push_byte
split-some [] = λ h. ground (arith, h)
split-some (b ∷ bs) =
    if_cases (λ x. x ≢ []) (b == 47) (λ slash h. ground (arith, h))
      (λ other. push_byte-some b (split bs))

pub join-split : (p : List ℕ) → join (split p) ≡ p
unfolding split join
join-split [] = refl
join-split (b ∷ bs) =
    if_cases (λ x. join x ≡ b ∷ bs) (b == 47)
      (λ slash. ground (arith, slash, join_empty (split bs) (split-some bs), join-split bs))
      (λ other. join-push_byte b (split bs) (split-some bs) ∙ ap (λ x. b ∷ x) (join-split bs))

clean_parts-proper :
    (rooted : Bool) (stack parts : List (List ℕ))
    → all_proper parts ≡ true
    → clean_parts rooted stack parts ≡ rev_onto stack parts
unfolding clean_parts all_proper proper rev_onto
clean_parts-proper rooted stack [] h = refl
clean_parts-proper rooted stack (part ∷ parts) h =
    ground (arith, h, clean_parts-proper rooted (part ∷ stack) parts)

not_slash :
    (b : ℕ) (parts : List (List ℕ))
    → all_proper (if b == 47 then [] ∷ parts else push_byte b parts) ≡ true
    → (b == 47) ≡ false
unfolding all_proper proper is_empty_text
not_slash b parts h = ground (arith, h)

proper-split :
    (p : List ℕ)
    → all_proper (split p) ≡ true
    → (starts_with_slash p ≡ false) × (text_eq p dot ≡ false) × (is_empty_text p ≡ false)
unfolding split push_byte all_proper proper text_eq is_empty_text starts_with_slash
proper-split [] h = ground (arith, h)
proper-split (b ∷ []) h = ground (arith, h)
proper-split (b ∷ c ∷ bs) h = (not_slash b (split (c ∷ bs)) h, ground arith, refl)

or_dot_some : (p : List ℕ) → is_empty_text p ≡ false → or_dot p ≡ p
unfolding or_dot is_empty_text
or_dot_some [] h = ground (arith, h)
or_dot_some (x ∷ xs) h = refl

pub clean_canonical : (p : List ℕ) → all_proper (split p) ≡ true → clean p ≡ p
unfolding clean rev_onto
clean_canonical p h =
    let facts = proper-split p h in
    let same : join (clean_parts false [] (split p)) ≡ p =
      ap join (clean_parts-proper false [] (split p) h) ∙ join-split p in
    if_cases (λ x. x ≡ p) (starts_with_slash p) (λ slash. ground (arith, slash, facts.0))
      (λ relative. ap or_dot same ∙ or_dot_some p facts.2)

-- `canonicalRelative` accepts a path exactly if it is empty, where the root is allowed, or it is
-- UTF-8 text without a backslash none of whose elements between slashes is empty, "." or "..": the
-- comparison with path.Clean and the tests for "/" and "." refuse nothing more.
pub canonical_relative-proper :
    (utf8 : List ℕ → Bool) (allow_root : Bool) (p : List ℕ)
    → canonical_relative utf8 allow_root p ≡ (
        if is_empty_text p
        then allow_root
        else utf8 p && not (has_byte 92 p) && all_proper (split p))
unfolding canonical_relative
canonical_relative-proper utf8 allow_root p = elim (Bool-cases (all_proper (split p))) [
  | inl good ↦ ground (
    arith,
    good,
    proper-split p good,
    ap (λ x. text_eq x p) (clean_canonical p good) ∙ text_eq_self p,
  )
  | inr bad ↦ ground (arith, bad)
]
