-- ===== src/Codex/Budget/Prefix.antt =====
-- internal/codex/budget.go: `boundedProtoPrefix` finds the longest prefix that fits.
use codex_remote.Prelude.{
  ℕ, zero, suc, ◌+◌, ◌-◌, ◌/◌, ◌≤◌, ◌<◌, min, Bool, true, false, ◌≡◌, refl, sym, ap, subst, ◌∙◌,
  inl, inr, List, [], ◌∷◌, length, take, take_all, Bool-cases, if_cases, ltb, arith,
}
use codex_remote.Codex.Budget.{search, search_prefix, bounded_proto_prefix}

-- `k` is the last number up to `top` that passes the test.
pub record IsLast (f : ℕ → Bool) (top k : ℕ) : Type 0 where
  pub passes : f k ≡ true
  pub beyond : (n : ℕ) → k < n → n ≤ top → f n ≡ false

search-IsLast :
    (fuel : ℕ) (f : ℕ → Bool) (top low high : ℕ)
    → ((a b : ℕ) → a ≤ b → f b ≡ true → f a ≡ true)
    → high - low ≤ fuel
    → low ≤ high
    → f low ≡ true
    → ((n : ℕ) → high < n → n ≤ top → f n ≡ false)
    → IsLast f top (search fuel f low high)
unfolding search
search-IsLast zero f top low high down enough order here above = record {
  passes = here;
  beyond = λ n past within. above n (omega arith) within;
}
search-IsLast (suc n) f top low high down enough order here above =
    if_cases (λ (k : ℕ). IsLast f top k) (ltb low high)
      (λ wide.
        if_cases (λ (p : ℕ × ℕ). IsLast f top (search n f p.0 p.1)) (f (low + (high - low + 1) / 2))
          (λ fit.
            search-IsLast n f top (low + (high - low + 1) / 2) high down (ground arith)
              (ground arith) fit above)
          (λ over.
            search-IsLast n f top low (low + (high - low + 1) / 2 - 1) down (ground arith)
              (ground arith) here
              (λ m past within. elim (Bool-cases (f m)) [
                | inl passed ↦
                    ground (arith, down (low + (high - low + 1) / 2) m (ground arith) passed, over)
                | inr failed ↦ failed
              ])))
      (λ closed. record { passes = here; beyond = λ m past within. above m (ground arith) within })

take_nil : {T : Type 0} (n : ℕ) → take {A = T} n [] ≡ []
take_nil zero = refl
take_nil (suc n) = refl

module _ {T : Type 0} where
  -- The longest prefix that fits, no shorter than `least`.
  pub record IsLongestPrefix (fits : List T → Bool) (values : List T) (result : List T)
      : Type 0 where
    pub size : ℕ
    pub is_prefix : result ≡ take size values
    pub last : IsLast (λ n. fits (take n values)) (length values) size

  -- `boundedProtoPrefix` returns the longest prefix that fits, if the prefix of the minimal length
  -- fits and no prefix fits when a shorter one does not: `length` many probes are enough.
  pub bounded_proto_prefix-IsLongestPrefix :
      (fits : List T → Bool) (values : List T) (minimum : ℕ)
      → ((a b : ℕ) → a ≤ b → fits (take b values) ≡ true → fits (take a values) ≡ true)
      → fits (take (min minimum (length values)) values) ≡ true
      → IsLongestPrefix fits values (bounded_proto_prefix values minimum fits)
  unfolding bounded_proto_prefix search_prefix
  bounded_proto_prefix-IsLongestPrefix fits [] minimum down least = record {
    size = 0;
    is_prefix = refl;
    last = record {
      passes = subst (λ (xs : List T). fits xs ≡ true) (take_nil (min minimum 0)) least;
      beyond = λ n past within. ground arith;
    };
  }
  bounded_proto_prefix-IsLongestPrefix fits (x ∷ xs) minimum down least =
      if_cases (IsLongestPrefix fits (x ∷ xs)) (fits (x ∷ xs))
        (λ all. record {
          size = length (x ∷ xs);
          is_prefix = sym (take_all (length (x ∷ xs)) (x ∷ xs) (omega arith));
          last = record {
            passes = ap fits (take_all (length (x ∷ xs)) (x ∷ xs) (omega arith)) ∙ all;
            beyond = λ n past within. ground arith;
          };
        })
        (λ part.
          if_cases (IsLongestPrefix fits (x ∷ xs))
            (fits (take (min minimum (length (x ∷ xs))) (x ∷ xs)))
            (λ fit. record {
              size =
                  search (length (x ∷ xs)) (λ n. fits (take n (x ∷ xs)))
                    (min minimum (length (x ∷ xs))) (length (x ∷ xs));
              is_prefix = refl;
              last =
                  search-IsLast (length (x ∷ xs)) (λ n. fits (take n (x ∷ xs))) (length (x ∷ xs))
                    (min minimum (length (x ∷ xs))) (length (x ∷ xs)) down (omega arith)
                    (omega arith) fit (λ n past within. ground arith);
            })
            (λ unfit. ground (arith, unfit, least)))
