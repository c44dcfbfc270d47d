-- ===== src/Executor/Cleaning.antt =====
-- `clean`, without cloud objects and functions.
use lithops.Base.{
  ℕ, Bool, false, not, ◌&&◌, ◌||◌, Option, none, some, List, [], ◌∷◌, ◌++◌, Text, text_eq, keep,
  if◌then◌else◌,
}
use lithops.Future.{is_done}
use lithops.Wait.{Tracked}
use lithops.Executor.State.{Executor}

abbrev pub has_text : Text → List Text → Bool
has_text t [] = false
has_text t (u ∷ us) = text_eq t u || has_text t us

-- A set, as a list without doubles.
abbrev pub add : Text → List Text → List Text
add t ts = if has_text t ts then ts else t ∷ ts

-- What the argument `fs` can be.
pub data Given (V E : Type 0) : Type 0 where
  nothing : Given V E
  one : Tracked V E → Given V E
  plain_list futures_list : List (Tracked V E) → Given V E

-- `job_key` is what the future of a call gives, with `-` once in its executor's id if `top_level`.
module _ {V E : Type 0} (job_key : ℕ → Text) (top_level : ℕ → Bool) where
  unfoldable pub to_clean : (force : Bool) → Tracked V E → Bool
  to_clean force f = (top_level f.call && is_done f.future.state) || force

  -- present_jobs
  unfoldable pub present_jobs : (force : Bool) → List (Tracked V E) → List Text
  unfolding to_clean
  present_jobs force [] = []
  present_jobs force (f ∷ futures) =
      let rest = present_jobs force futures in
      if to_clean force f then add (job_key f.call) rest else rest

  unfoldable pub clean_jobs : List Text → Executor V E → Executor V E
  clean_jobs [] ex = ex
  clean_jobs (j ∷ jobs_to_clean) ex = record ex {
    saved = (j ∷ jobs_to_clean) ∷ ex.saved;
    cleaned_jobs = (j ∷ jobs_to_clean) ++ ex.cleaned_jobs;
  }

  unfoldable pub clean_futures : (force : Bool) → List (Tracked V E) → Executor V E → Executor V E
  unfolding present_jobs clean_jobs
  clean_futures force futures ex =
      clean_jobs (keep (λ j. not (has_text j ex.cleaned_jobs)) (present_jobs force futures)) ex

  -- `futures = fs or self.futures`, which is put in a list unless its type is `list`. A FuturesList
  -- in a list has no `executor_id`: `none` is the AttributeError.
  unfoldable pub clean : (force : Bool) → Given V E → Executor V E → Option (Executor V E)
  unfolding clean_futures
  clean force nothing ex = some (clean_futures force ex.futures ex)
  clean force (one f) ex = some (clean_futures force (f ∷ []) ex)
  clean force (plain_list []) ex = some (clean_futures force ex.futures ex)
  clean force (plain_list (f ∷ fs)) ex = some (clean_futures force (f ∷ fs) ex)
  clean force (futures_list []) ex = some (clean_futures force ex.futures ex)
  clean force (futures_list (f ∷ fs)) ex = none
