-- ===== src/Examples/Waits.antt =====
-- A wait with a monitor.
use lithops.Base.{ℕ, ◌≡◌, refl, false, true, none, some, List, [], ◌∷◌, length, arith}
use lithops.Future.{invoked, end, CallStatus, fresh, Storage}
use lithops.Wait.{Tracked, wait_rounds, completed, check_done, states, all_completed}
use lithops.Monitor.{Seen, tag_futures}
use lithops.Monitor.Marks.{IsPending}
use lithops.Monitor.Rounds.{wait_rounds-ends}

abbrev ended_call : CallStatus ℕ ℕ
ended_call = record {
  type = end;
  exception = none;
  new_futures = none;
  func_result_size = some 1;
  result = some 7;
}

abbrev all_stored : Storage ℕ ℕ
all_stored = record { get_call_status = λ n. some ended_call; get_call_output = λ n. none }

abbrev waiting_one : Tracked ℕ ℕ
unfolding fresh
waiting_one = record { call = 4; future = record fresh { state = invoked } }

abbrev seen : Seen ℕ ℕ
seen = record {
  storages = λ c. all_stored;
  fuel = 1;
  made = λ n. waiting_one;
  timed_out = λ c. false;
  timeout_error = 0;
}

abbrev polled : ℕ → List (Tracked ℕ ℕ) → List (Tracked ℕ ℕ)
polled n fs =
    (tag_futures seen [] (4 ∷ []) (record {
      futures = fs;
      callids_running_processed_timeout = [];
      callids_done_processed_status = [];
    })).futures

is_pending : IsPending seen.storages waiting_one
unfolding waiting_one
is_pending = record {
  cs = ended_call;
  is_end = record { ended = refl; no_exception = refl; no_futures = refl; size = 1; sized = refl };
  there = λ n. refl;
  not_over = refl;
  not_new = refl;
  no_own = refl;
}

wait_rounds-ends_example :
    (hs : List (Tracked ℕ ℕ)) × (wait_rounds 1 3 false true seen.storages seen.made polled 2 0
        all_completed
        (waiting_one ∷ [])
      ≡ completed hs)
    × (check_done (states hs) all_completed false ≡ true)
    × (length hs ≡ 1)
unfolding waiting_one
wait_rounds-ends_example =
    wait_rounds-ends 1 3 0 true seen.made seen polled [] (4 ∷ []) (waiting_one ∷ []) (omega arith)
      (λ c. refl) (is_pending, tt) (refl, tt) refl
