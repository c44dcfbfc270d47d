-- ===== src/Payload/Chunks.antt =====
-- `iterchunks`: the chunks lst[i:i + n] at i = 0, n, 2 n and so on.
use lithops.Base.{ℕ, zero, suc, Option, none, some, List, [], ◌∷◌, take, drop, length, cons?}

-- On fuel; a step of 0, which `range` refuses, and fuel that ran out give `none`.
unfoldable pub chunks_of : {A : Type 0} → ℕ → List A → ℕ → Option (List (List A))
chunks_of fuel lst zero = none
chunks_of zero lst (suc n) = none
chunks_of (suc fuel) [] (suc n) = some []
chunks_of (suc fuel) (x ∷ lst) (suc n) =
    cons? (take (suc n) (x ∷ lst)) (chunks_of fuel (drop (suc n) (x ∷ lst)) (suc n))

unfoldable pub iterchunks : {A : Type 0} → List A → ℕ → Option (List (List A))
unfolding chunks_of
iterchunks lst n = chunks_of (suc (length lst)) lst n
