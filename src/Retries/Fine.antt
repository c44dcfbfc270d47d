-- ===== src/Retries/Fine.antt =====
-- What is left of a round in which no call is made again.
use lithops.Base.{
  Bool, true, false, ◌&&◌, ℕ, zero, suc, ◌<◌, ◌≡◌, refl, sym, subst, ap, ◌∙◌, ◌⊎◌, inl, inr,
  Bool-cases, Option-cases, some, List, [], ◌∷◌, length, length-append, get_elem?, set, arith,
}
use lithops.Retries.Wait.{
  Executor, RetryingFuture, inc_failure_count, should_retry, find, Round, handle, process_round,
}
use lithops.Retries.Lookup.{responses}

-- What an update leaves at a place, and of the response futures.
get-set_self :
    (xs : List RetryingFuture) (i : ℕ) (f f' : RetryingFuture)
    → get_elem? xs i ≡ some f
    → get_elem? (set xs i f') i ≡ some f'
get-set_self [] i f f' e = cc
get-set_self (x ∷ xs) zero f f' e = refl
get-set_self (x ∷ xs) (suc i) f f' e = get-set_self xs i f f' e

get-set :
    (xs : List RetryingFuture) (i j : ℕ) (f f' : RetryingFuture)
    → get_elem? xs i ≡ some f
    → (get_elem? (set xs j f') i ≡ some f) ⊎ (get_elem? (set xs j f') i ≡ some f')
get-set [] i j f f' e = cc
get-set (x ∷ xs) zero zero f f' e = inr refl
get-set (x ∷ xs) zero (suc j) f f' e = inl e
get-set (x ∷ xs) (suc i) zero f f' e = inl e
get-set (x ∷ xs) (suc i) (suc j) f f' e = get-set xs i j f f' e

responses-set :
    (xs : List RetryingFuture) (i : ℕ) (f f' : RetryingFuture)
    → get_elem? xs i ≡ some f
    → f'.response_future ≡ f.response_future
    → responses (set xs i f') ≡ responses xs
responses-set [] i f f' e same = refl
responses-set (x ∷ xs) zero f f' e same =
    let here : x ≡ f = cc in
    ap (λ r. r ∷ responses xs) (same ∙ sym (ap (λ (y : RetryingFuture). y.response_future) here))
responses-set (x ∷ xs) (suc i) f f' e same =
    ap (λ l. x.response_future ∷ l) (responses-set xs i f f' e same)

module _ {S : Type 0} (ex : Executor S) where
  -- A response future has no error, or there is an object whose call is not made again.
  abbrev pub Fine : S → List RetryingFuture → ℕ → Type 0
  Fine s all rf =
      (i : ℕ) × (f : RetryingFuture) × (get_elem? all i ≡ some f)
      × ((ex.error s rf && should_retry f) ≡ false)

  abbrev pub AllFine : S → List RetryingFuture → List ℕ → Type 0
  AllFine s all [] = Unit
  AllFine s all (rf ∷ rfs) = Fine s all rf × AllFine s all rfs

  and-false_right : (a b : Bool) → b ≡ false → (a && b) ≡ false
  and-false_right true b e = e
  and-false_right false b e = refl

  Fine-set :
      (s : S) (all : List RetryingFuture) (rf j : ℕ) (f' : RetryingFuture)
      → should_retry f' ≡ false
      → Fine s all rf
      → Fine s (set all j f') rf
  Fine-set s all rf j f' over (i, f, there, fine) = elim (get-set all i j f f' there) [
    | inl same ↦ (i, f, same, fine)
    | inr new ↦ (i, f', new, and-false_right (ex.error s rf) (should_retry f') over)
  ]

  -- Steps from r to r' in which no call was made again.
  pub record Quiet (seen : S) (r r' : Round S) : Type 0 where
    pub pending : length r'.pending ≡ length r.pending
    pub executor : r'.executor ≡ r.executor
    pub responses_kept : responses r'.all ≡ responses r.all
    pub fine : (rf : ℕ) → Fine seen r.all rf → Fine seen r'.all rf

  Quiet-handle :
      (seen : S) (rf i : ℕ) (f : RetryingFuture) (r : Round S)
      → get_elem? r.all i ≡ some f
      → (length r.pending < length (handle ex seen rf i f r).pending)
        ⊎ (Quiet seen r (handle ex seen rf i f r) × Fine seen (handle ex seen rf i f r).all rf)
  unfolding handle inc_failure_count
  Quiet-handle seen rf i f r there =
      let failed = inc_failure_count f in
      elim (Bool-cases (ex.error seen rf)) [
        | inr good ↦
            rw (good, handle)
              (inr (
                record { pending = refl; executor = refl; responses_kept = refl; fine = λ q h. h },
                (i, f, there, refl),
              ))
        | inl bad ↦ elim (Bool-cases (should_retry failed)) [
          | inl once_more ↦
              let one_more = length-append r.pending (i ∷ []) in
              rw (bad, once_more, handle) (inl (omega (arith, one_more)))
          | inr over ↦
              rw (bad, over, handle)
                (inr (
                  record {
                    pending = refl;
                    executor = refl;
                    responses_kept = responses-set r.all i f failed there refl;
                    fine = λ q h. Fine-set seen r.all q i failed over h;
                  },
                  (i, failed, get-set_self r.all i f failed there, over),
                ))
        ]
      ]

  Quiet-trans :
      {seen : S} {r r' r'' : Round S} → Quiet seen r r' → Quiet seen r' r'' → Quiet seen r r''
  Quiet-trans first later = record {
    pending = later.pending ∙ first.pending;
    executor = later.executor ∙ first.executor;
    responses_kept = later.responses_kept ∙ first.responses_kept;
    fine = λ rf h. later.fine rf (first.fine rf h);
  }

  -- A round makes some call again, or all its futures are fine.
  pub process_round-fine :
      (seen : S) (rfs : List ℕ) (r : Round S) {r' : Round S}
      → process_round ex seen rfs r ≡ some r'
      → (length r.pending < length r'.pending) ⊎ (Quiet seen r r' × AllFine seen r'.all rfs)
  unfolding process_round
  process_round-fine seen [] r {r'} e =
      let same : r ≡ r' = cc in
      let none_gone : Quiet seen r r = record {
        pending = refl;
        executor = refl;
        responses_kept = refl;
        fine = λ q h. h;
      } in
      inr (subst (Quiet seen r) same none_gone, tt)
  process_round-fine seen (rf ∷ rfs) r {r'} e = elim (Option-cases (find rf r.lookup)) [
    | inl unknown ↦ absurd (cc (rw (unknown, process_round) at e))
    | inr (i, found) ↦ elim (Option-cases (get_elem? r.all i)) [
      | inl out ↦ absurd (cc (rw (found, out, process_round) at e))
      | inr (f, there) ↦
          let rest =
            process_round-fine seen rfs (handle ex seen rf i f r)
              (rw (found, there, process_round) at e) in
          elim (Quiet-handle seen rf i f r there) [
            | inl more ↦ elim rest [
              | inl yet_more ↦ inl (omega arith)
              | inr (quiet, fine) ↦ inl (omega (arith, quiet.pending))
            ]
            | inr (quiet1, fine1) ↦ elim rest [
              | inl more ↦ inl (omega (arith, quiet1.pending))
              | inr (quiet, fine) ↦ inr (Quiet-trans quiet1 quiet, (quiet.fine rf fine1, fine))
            ]
          ]
    ]
  ]
