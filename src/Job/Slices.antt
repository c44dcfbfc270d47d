-- ===== src/Job/Slices.antt =====
-- What the reducers take together.
use lithops.Base.{
  ℕ, zero, suc, ◌+◌, ◌≡◌, refl, ap, sym, ◌∙◌, true, some, List, [], ◌∷◌, ◌++◌, take, drop, map,
  length, sum, length-take, length-drop, take-append-drop, arith,
}
use lithops.Payload.Pieces.{flatten}
use lithops.Job.Reduce.{slices, reduce_iterdata}

module _ {A : Type 0} where
  abbrev no_elements : List A
  no_elements = []

  drop_nil : (m : ℕ) → drop m no_elements ≡ []
  drop_nil zero = refl
  drop_nil (suc m) = refl

  drop-drop : (m n : ℕ) (xs : List A) → drop m (drop n xs) ≡ drop (n + m) xs
  drop-drop m zero xs = ground arith
  drop-drop m (suc n) [] = drop_nil m ∙ sym (drop_nil (suc n + m))
  drop-drop m (suc n) (x ∷ xs) =
      let e : suc (n + m) ≡ suc n + m = omega arith in
      drop-drop m n xs ∙ ap (λ k. drop k (x ∷ xs)) e

  empty : (xs : List A) → length xs ≡ 0 → [] ≡ xs
  empty [] e = refl
  empty (x ∷ xs) e = absurd (omega arith)

  slices_lem :
      (parts : List ℕ) (from : ℕ) (fs : List A)
      → from + sum parts ≡ length fs
      → (flatten (slices from parts fs) ≡ drop from fs)
        × (map length (slices from parts fs) ≡ parts)
  unfolding slices
  slices_lem [] from fs e = (empty (drop from fs) (omega (arith, length-drop from fs)), refl)
  slices_lem (n ∷ parts) from fs e =
      let (whole, lengths) = slices_lem parts (from + n) fs (omega arith) in
      let n_here : length (take n (drop from fs)) ≡ n =
        omega (arith, length-take n (drop from fs), length-drop from fs) in
      (
        ap (λ r. take n (drop from fs) ++ r) (whole ∙ sym (drop-drop n from fs))
            ∙ take-append-drop n (drop from fs),
        rw (n_here, lengths) refl,
      )

  -- If there are as many futures as partitions, then the reducers by key take all futures, in order,
  -- and each takes as many as its object has partitions.
  pub reduce_iterdata_lem :
      (parts_per_object : List ℕ) (map_futures : List A)
      → sum parts_per_object ≡ length map_futures
      → (flatten (reduce_iterdata (some parts_per_object) true map_futures) ≡ map_futures)
        × (map length (reduce_iterdata (some parts_per_object) true map_futures) ≡ parts_per_object)
  unfolding reduce_iterdata
  reduce_iterdata_lem parts_per_object map_futures e =
      slices_lem parts_per_object 0 map_futures (omega arith)
