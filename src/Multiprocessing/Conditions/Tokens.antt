-- ===== src/Multiprocessing/Conditions/Tokens.antt =====
-- The tokens under the keys of those that wait.
use lithops.Base.{
  ℕ, suc, ◌≤◌, ◌<◌, ◌≡◌, ◌≢◌, refl, sym, ap, ◌∙◌, true, Bool-cases, ◌⊎◌, inl, inr, List, [], ◌∷◌,
  length, length-append, ◌==◌, arith,
}
use lithops.Redis.{Redis, IsRedis}
use lithops.Multiprocessing.Conditions.Defs.{push_each, NotIn}
use lithops.Multiprocessing.Conditions.Members.{has, has-later}

module _ {S : Type 0} (redis : Redis S) (is : IsRedis redis) where
  abbrev pub tokens : ℕ → S → ℕ
  tokens k s = length (is.items k s)

  pub key_cases : (j k : ℕ) → (j ≡ k) ⊎ (j ≢ k)
  key_cases j k = elim (Bool-cases (j == k)) [
    | inl e ↦ inl (ground arith)
    | inr e ↦ inr (ground arith)
  ]

  pub tokens-rpush_self : (k : ℕ) (s : S) → tokens k (redis.rpush k 0 s) ≡ suc (tokens k s)
  tokens-rpush_self k s =
      ap length (is.rpush-items k 0 s) ∙ length-append (is.items k s) (0 ∷ []) ∙ omega arith

  pub same_tokens : (j : ℕ) (s t : S) → is.items j t ≡ is.items j s → tokens j t ≡ tokens j s
  same_tokens j s t e = ap length e

  pub tokens-rpush : (j k : ℕ) (s : S) → tokens j s ≤ tokens j (redis.rpush k 0 s)
  tokens-rpush j k s = elim (key_cases j k) [
    | inl e ↦ rw e (omega (arith, tokens-rpush_self k s))
    | inr ne ↦ omega (arith, same_tokens j s (redis.rpush k 0 s) (is.rpush_other j k 0 s ne))
  ]

  pub tokens-push_each :
      (j : ℕ) (handles : List ℕ) (s : S) → tokens j s ≤ tokens j (push_each redis handles s)
  unfolding push_each
  tokens-push_each j [] s = omega arith
  tokens-push_each j (h ∷ handles) s =
      omega (arith, tokens-rpush j h s, tokens-push_each j handles (redis.rpush h 0 s))

  pub push_each-has :
      (j : ℕ) (handles : List ℕ) (s : S)
      → has j handles ≡ true
      → 0 < tokens j (push_each redis handles s)
  unfolding push_each
  push_each-has j [] s e = cc
  push_each-has j (h ∷ handles) s e =
      let kept = tokens-push_each j handles (redis.rpush h 0 s) in
      elim (key_cases h j) [
        | inl same ↦
            let grown : 0 < tokens j (redis.rpush h 0 s) =
              rw same (omega (arith, tokens-rpush_self j s)) in
            omega (arith, grown, kept)
        | inr ne ↦ push_each-has j handles (redis.rpush h 0 s) (has-later j h handles ne e)
      ]

  pub items-push_each :
      (k : ℕ) (handles : List ℕ) (s : S)
      → NotIn k handles
      → is.items k (push_each redis handles s) ≡ is.items k s
  unfolding push_each
  items-push_each k [] s n = refl
  items-push_each k (h ∷ handles) s (ne, n) =
      items-push_each k handles (redis.rpush h 0 s) n ∙ is.rpush_other k h 0 s (λ e. ne (sym e))
