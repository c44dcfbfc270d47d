-- ===== src/Examples/Retried.antt =====
-- A call that fails and is made again.
use lithops.Base.{ℕ, suc, some, List, [], ◌∷◌, leb}
use lithops.Retries.{Executor, RetryingFuture, retrying_future, wait}

-- The state is the number of the next response future; the first three fail.
abbrev failing : Executor ℕ
failing = record {
  map = λ s input. (s, suc s);
  wait = λ return_when rs s. some (rs, [], s);
  error = λ s r. leb r 2;
}

abbrev two_calls : List RetryingFuture
unfolding retrying_future
two_calls = retrying_future 0 5 (some 2) ∷ retrying_future 1 6 (some 1) ∷ []
