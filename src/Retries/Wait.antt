-- ===== src/Retries/Wait.antt =====
-- RetryingFuture and the loop of RetryingFunctionExecutor.wait. The futures are objects, told apart by
-- their place in the list `fs`; the dictionary `lookup` is a list of pairs, the last one first.
use lithops.Base.{
  ℕ, zero, suc, ◌+◌, Bool, true, false, not, ◌&&◌, Option, none, some, List, [], ◌∷◌, ◌++◌, map,
  length, ltb, leb, ◌==◌, if◌then◌else◌, or_zero, set, get_elem?, cons?,
}
use lithops.Wait.{ReturnWhen, always, any_completed, all_completed, percentage}

-- What `wait` uses of a FunctionExecutor, whose state is S: a response future is a number. `wait` gives
-- the futures that are done and those that are pending; it is none where the executor raises.
pub record Executor (S : Type 0) : Type 0 where
  pub map : S → ℕ → ℕ × S
  pub wait : ReturnWhen → List ℕ → S → Option (List ℕ × List ℕ × S)
  pub error : S → ℕ → Bool

-- The map function and its arguments are what `input` stands for.
pub record RetryingFuture : Type 0 where
  pub response_future : ℕ
  pub input : ℕ
  pub retries : ℕ
  pub failure_count : ℕ
  pub cancelled : Bool

-- __init__
unfoldable pub retrying_future : ℕ → ℕ → Option ℕ → RetryingFuture
retrying_future response_future input retries = record {
  response_future = response_future;
  input = input;
  retries = or_zero retries;
  failure_count = 0;
  cancelled = false;
}

unfoldable pub inc_failure_count : RetryingFuture → RetryingFuture
inc_failure_count f = record f { failure_count = f.failure_count + 1 }

unfoldable pub should_retry : RetryingFuture → Bool
should_retry f = not f.cancelled && leb f.failure_count f.retries

unfoldable pub cancel : RetryingFuture → RetryingFuture
cancel f = record f { cancelled = true }

-- RetryingFunctionExecutor.map, behind the executor's own: `zip` ends with the shorter list.
abbrev pub retries_to_use : Option ℕ → Option ℕ → ℕ
retries_to_use (some n) config = n
retries_to_use none config = or_zero config

unfoldable pub wrap_all : ℕ → List ℕ → List ℕ → List RetryingFuture
unfolding retrying_future
wrap_all retries [] fs = []
wrap_all retries (i ∷ is) [] = []
wrap_all retries (i ∷ is) (f ∷ fs) = retrying_future f i (some retries) ∷ wrap_all retries is fs

-- lookup[response_future]: `none` is the KeyError.
abbrev pub find : ℕ → List (ℕ × ℕ) → Option ℕ
find response_future [] = none
find response_future ((r, i) ∷ lookup) =
    let rest = find response_future lookup in if r == response_future then some i else rest

unfoldable pub find_all : List ℕ → List (ℕ × ℕ) → Option (List ℕ)
find_all [] lookup = some []
find_all (r ∷ rs) lookup = elim (find r lookup) [
  | none ↦ none
  | some i ↦ cons? i (find_all rs lookup)
]

-- The dictionary over `fs`, whose places begin with i.
abbrev pub lookup_of : ℕ → List RetryingFuture → List (ℕ × ℕ)
lookup_of i [] = []
lookup_of i (f ∷ fs) = lookup_of (suc i) fs ++ (f.response_future, i) ∷ []

-- The objects and the dictionary, and the lists `retrying_done` and `retrying_pending`, by places.
pub record Round (S : Type 0) : Type 0 where
  pub executor : S
  pub all : List RetryingFuture
  pub lookup : List (ℕ × ℕ)
  pub done : List ℕ
  pub pending : List ℕ

pub data Waited (S : Type 0) : Type 0 where
  raised : Waited S
  key_error : Waited S
  out_of_fuel : Waited S
  returned : (all : List RetryingFuture) (done pending : List ℕ) → S → Waited S

module _ {S : Type 0} (ex : Executor S) where
  -- _retry
  unfoldable pub retry : RetryingFuture → S → RetryingFuture × S
  retry f s =
      let (response_future, s') = ex.map s f.input in
      (record f { response_future = response_future }, s')

  -- What is done with the object f at place i, whose future is done; `seen` is the executor's state
  -- as its `wait` left it.
  unfoldable pub handle : S → (response_future i : ℕ) → RetryingFuture → Round S → Round S
  unfolding inc_failure_count should_retry retry
  handle seen response_future i f r =
      let failed = inc_failure_count f in
      let (again, s') = retry failed r.executor in
      if ex.error seen response_future
      then (if should_retry failed
          then record r {
            executor = s';
            all = set r.all i again;
            lookup = (again.response_future, i) ∷ r.lookup;
            pending = r.pending ++ i ∷ [];
          }
          else record r { all = set r.all i failed; done = r.done ++ i ∷ [] })
      else record r { done = r.done ++ i ∷ [] }

  -- The futures that are done, in turn: `none` is the KeyError.
  unfoldable pub process_round : S → (done : List ℕ) → Round S → Option (Round S)
  unfolding handle
  process_round seen [] r = some r
  process_round seen (response_future ∷ done) r = elim (find response_future r.lookup) [
    | none ↦ none
    | some i ↦ elim (get_elem? r.all i) [
      | none ↦ none
      | some f ↦ process_round seen done (handle seen response_future i f r)
    ]
  ]

  -- The tests that leave the loop.
  unfoldable pub ends : ReturnWhen → (done pending : List ℕ) → Bool
  ends always done pending = true
  ends any_completed done pending = ltb 0 (length done)
  ends all_completed done pending = length pending == 0
  ends (percentage n) done pending = false

  -- `while True`, on fuel.
  unfoldable pub wait_loop :
      ℕ → ReturnWhen → (fs : List RetryingFuture) → (lookup : List (ℕ × ℕ)) → S → Waited S
  unfolding process_round ends find_all
  wait_loop zero return_when fs lookup s = out_of_fuel
  wait_loop (suc fuel) return_when fs lookup s =
      elim (ex.wait return_when (map (λ f. f.response_future) fs) s) [
        | none ↦ raised
        | some (done, pending, seen) ↦ elim (find_all pending lookup) [
          | none ↦ key_error
          | some waiting ↦
              let start : Round S = record {
                executor = seen;
                all = fs;
                lookup = lookup;
                done = [];
                pending = waiting;
              } in
              elim (process_round seen done start) [
                | none ↦ key_error
                | some r ↦
                    let again = wait_loop fuel return_when r.all r.lookup r.executor in
                    if ends return_when r.done r.pending
                    then returned r.all r.done r.pending r.executor
                    else again
              ]
        ]
      ]

  unfoldable pub wait : ℕ → ReturnWhen → List RetryingFuture → S → Waited S
  unfolding wait_loop
  wait fuel return_when fs s = wait_loop fuel return_when fs (lookup_of 0 fs) s
