-- ===== src/Examples/Executors.antt =====
-- The function executor.
use lithops.Base.{ℕ, ◌≡◌, refl, true, false, none, some, Option, [], ◌∷◌, Text, codes, length}
use lithops.Future.{
  success, done, fresh, Storage, value, result, status, finish_result, after_status,
}
use lithops.Wait.{Tracked, nothing}
use lithops.Executor.{Executor, new_executor, clean, plain_list, Setting, read_results}
use lithops.Executor.Cleaned.{AfterClean, clean-IsOnce}
use lithops.Executor.Results.{read_results-once}

abbrev map_job : ℕ
map_job = b'M'

abbrev reduce_job : ℕ
reduce_job = b'R'

abbrev twelve : ℕ
twelve = 12

-- Two calls of one job, the first of which has given its result, in the storage.
abbrev read_one : Tracked ℕ ℕ
unfolding fresh
read_one = record { call = 0; future = record fresh { state = done; call_output = some (value 7) } }

abbrev unread_one : Tracked ℕ ℕ
unfolding fresh
unread_one = record { call = 1; future = record fresh { state = success } }

abbrev job_of : ℕ → Text
job_of n = codes "e-0-M000"

abbrev cleaning : Option (Executor ℕ ℕ)
cleaning = clean job_of (λ n. true) false (plain_list (read_one ∷ unread_one ∷ [])) new_executor

clean-IsOnce_example :
    AfterClean job_of
      (λ n. true)
      false
      (plain_list (read_one ∷ unread_one ∷ []))
      new_executor
      cleaning
unfolding new_executor
clean-IsOnce_example =
    clean-IsOnce job_of (λ n. true) false (plain_list (read_one ∷ unread_one ∷ [])) new_executor
      (λ j. refl)

abbrev nothing_stored : Storage ℕ ℕ
nothing_stored = record { get_call_status = λ n. none; get_call_output = λ n. none }

abbrev setting : Setting ℕ ℕ
setting = record {
  fuel = 1;
  retries = 1;
  rounds = 1;
  storages = λ n. nothing_stored;
  made = λ n. read_one;
  marked = λ n fs. fs;
  job_key = job_of;
  top_level = λ n. true;
  data_cleaner = true;
}

read_results-once_example :
    (length (read_results setting true false (read_one ∷ [])).1 ≡ 1)
    × (read_results setting true false (read_results setting true false (read_one ∷ [])).2
        ≡ (nothing, [], (read_results setting true false (read_one ∷ [])).2))
unfolding read_results result status finish_result after_status read_one
read_results-once_example = read_results-once setting true (read_one ∷ []) refl
