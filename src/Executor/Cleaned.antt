-- ===== src/Executor/Cleaned.antt =====
-- Which jobs are given to the cleaner, and how often.
use lithops.Base.{
  ℕ, ◌+◌, ◌≡◌, refl, ap, ◌∙◌, Bool, true, false, not, ◌&&◌, ◌||◌, Option, none, some, List, [], ◌∷◌,
  ◌++◌, keep, count_if, count_if-append, Text, text_eq, text_eq→eq, if◌then◌else◌, arith,
}
use lithops.Payload.Pieces.{flatten}
use lithops.Wait.{Tracked}
use lithops.Executor.State.{Executor}
use lithops.Executor.Cleaning.{
  has_text, add, to_clean, present_jobs, clean_jobs, clean_futures, clean, Given, nothing, one,
  plain_list, futures_list,
}

abbrev pub times : Bool → ℕ
times b = if b then 1 else 0

-- How often a job was given to the cleaner.
abbrev pub given : {V E : Type 0} → Text → Executor V E → ℕ
given j ex = count_if (text_eq j) (flatten ex.saved)

-- A job has been cleaned once if it is among the cleaned, else never.
abbrev pub IsOnce : {V E : Type 0} → Executor V E → Type 0
IsOnce ex = (j : Text) → given j ex ≡ times (has_text j ex.cleaned_jobs)

text_eq-swap : (p : Text → Bool) (s t : Text) → text_eq s t ≡ true → p s ≡ p t
text_eq-swap p s t h = ap p (text_eq→eq s t h)

has_text-add : (j t : Text) (ts : List Text) → has_text j (add t ts) ≡ text_eq j t || has_text j ts
has_text-add j t ts = let same = text_eq-swap (λ k. has_text k ts) j t in ground (arith, same)

count-add :
    (j t : Text) (ts : List Text)
    → count_if (text_eq j) ts ≡ times (has_text j ts)
    → count_if (text_eq j) (add t ts) ≡ times (has_text j (add t ts))
count-add j t ts h = let same = text_eq-swap (λ k. has_text k ts) j t in ground (arith, same, h)

has_text-append :
    (j : Text) (ts us : List Text) → has_text j (ts ++ us) ≡ has_text j ts || has_text j us
has_text-append j [] us = refl
has_text-append j (t ∷ ts) us = ground (arith, has_text-append j ts us)

has_text-keep :
    (p : Text → Bool) (j : Text) (ts : List Text) → has_text j (keep p ts) ≡ p j && has_text j ts
has_text-keep p j [] = ground arith
has_text-keep p j (t ∷ ts) =
    let same = text_eq-swap p j t in ground (arith, same, has_text-keep p j ts)

count-keep :
    (p : Text → Bool) (j : Text) (ts : List Text)
    → count_if (text_eq j) (keep p ts) ≡ (if p j then count_if (text_eq j) ts else 0)
count-keep p j [] = ground arith
count-keep p j (t ∷ ts) = let same = text_eq-swap p j t in ground (arith, same, count-keep p j ts)

module _ {V E : Type 0} (job_key : ℕ → Text) (top_level : ℕ → Bool) where
  -- A future of the job is done, or the cleaning is forced.
  abbrev pub wanted : (force : Bool) → Text → List (Tracked V E) → Bool
  wanted force j [] = false
  wanted force j (f ∷ fs) =
      text_eq j (job_key f.call) && to_clean job_key top_level force f || wanted force j fs

  has_text-present_jobs :
      (force : Bool) (j : Text) (fs : List (Tracked V E))
      → has_text j (present_jobs job_key top_level force fs) ≡ wanted force j fs
  unfolding present_jobs
  has_text-present_jobs force j [] = refl
  has_text-present_jobs force j (f ∷ fs) =
      let rest = present_jobs job_key top_level force fs in
      ground (arith, has_text-add j (job_key f.call) rest, has_text-present_jobs force j fs)

  count-present_jobs :
      (force : Bool) (j : Text) (fs : List (Tracked V E))
      → count_if (text_eq j) (present_jobs job_key top_level force fs)
        ≡ times (has_text j (present_jobs job_key top_level force fs))
  unfolding present_jobs
  count-present_jobs force j [] = refl
  count-present_jobs force j (f ∷ fs) =
      let rest = present_jobs job_key top_level force fs in
      ground (arith, count-add j (job_key f.call) rest, count-present_jobs force j fs)

  -- clean_jobs, whether or not there is a job to clean.
  cleaned-clean_jobs :
      (jobs : List Text) (ex : Executor V E)
      → (clean_jobs job_key top_level jobs ex).cleaned_jobs ≡ jobs ++ ex.cleaned_jobs
  unfolding clean_jobs
  cleaned-clean_jobs [] ex = refl
  cleaned-clean_jobs (j ∷ jobs) ex = refl

  given-clean_jobs :
      (j : Text) (jobs : List Text) (ex : Executor V E)
      → given j (clean_jobs job_key top_level jobs ex) ≡ count_if (text_eq j) jobs + given j ex
  unfolding clean_jobs
  given-clean_jobs j [] ex = omega arith
  given-clean_jobs j (k ∷ jobs) ex = count_if-append (text_eq j) (k ∷ jobs) (flatten ex.saved)

  has_text-clean_jobs :
      (j : Text) (jobs : List Text) (ex : Executor V E)
      → has_text j (clean_jobs job_key top_level jobs ex).cleaned_jobs
        ≡ has_text j jobs || has_text j ex.cleaned_jobs
  has_text-clean_jobs j jobs ex =
      ap (has_text j) (cleaned-clean_jobs jobs ex) ∙ has_text-append j jobs ex.cleaned_jobs

  -- What cleaning is to do.
  abbrev pub IsCleaned : (force : Bool) → List (Tracked V E) → Executor V E → Executor V E → Type 0
  IsCleaned force fs ex ex' =
      IsOnce ex'
      × ((j : Text) → has_text j ex'.cleaned_jobs ≡ has_text j ex.cleaned_jobs || wanted force j fs)

  clean_futures_lem :
      (force : Bool) (fs : List (Tracked V E)) (ex : Executor V E)
      → IsOnce ex
      → IsCleaned force fs ex (clean_futures job_key top_level force fs ex)
  unfolding clean_futures
  clean_futures_lem force fs ex once =
      let old : Text → Bool = λ j. not (has_text j ex.cleaned_jobs) in
      let present = present_jobs job_key top_level force fs in
      let jobs = keep old present in
      (
        λ j. ground (
          arith,
          once j,
          has_text-clean_jobs j jobs ex,
          has_text-keep old j present,
          count-keep old j present,
          given-clean_jobs j jobs ex,
          count-present_jobs force j fs,
        ),
        λ j. ground (
          arith,
          has_text-clean_jobs j jobs ex,
          has_text-keep old j present,
          has_text-present_jobs force j fs,
        ),
      )

  abbrev pub given_futures : Given V E → Executor V E → List (Tracked V E)
  given_futures nothing ex = ex.futures
  given_futures (one f) ex = f ∷ []
  given_futures (plain_list []) ex = ex.futures
  given_futures (plain_list (f ∷ fs)) ex = f ∷ fs
  given_futures (futures_list []) ex = ex.futures
  given_futures (futures_list (f ∷ fs)) ex = f ∷ fs

  abbrev pub AfterClean : (force : Bool) → Given V E → Executor V E → Option (Executor V E) → Type 0
  AfterClean force fs ex none = (l : List (Tracked V E)) × (fs ≡ futures_list l)
  AfterClean force fs ex (some ex') = IsCleaned force (given_futures fs ex) ex ex'

  -- If each cleaned job was given to the cleaner once, and no other job, then this is so after
  -- `clean`, which fails at most for a FuturesList. The jobs cleaned by then are those cleaned
  -- before and those of which a given future of a client's own executor is done, or any given
  -- future if the cleaning is forced.
  pub clean-IsOnce :
      (force : Bool) (fs : Given V E) (ex : Executor V E)
      → IsOnce ex
      → AfterClean force fs ex (clean job_key top_level force fs ex)
  unfolding clean
  clean-IsOnce force nothing ex once = clean_futures_lem force ex.futures ex once
  clean-IsOnce force (one f) ex once = clean_futures_lem force (f ∷ []) ex once
  clean-IsOnce force (plain_list []) ex once = clean_futures_lem force ex.futures ex once
  clean-IsOnce force (plain_list (f ∷ fs)) ex once = clean_futures_lem force (f ∷ fs) ex once
  clean-IsOnce force (futures_list []) ex once = clean_futures_lem force ex.futures ex once
  clean-IsOnce force (futures_list (f ∷ fs)) ex once = (f ∷ fs, refl)
