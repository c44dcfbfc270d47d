-- ===== src/Examples/Futures.antt =====
-- Futures, waits and monitors.
use lithops.Base.{
  ℕ, ◌+◌, ◌≡◌, ◌≢◌, refl, true, false, none, some, List, [], ◌∷◌, if◌then◌else◌, length, count_if,
  leb, ◌==◌, arith,
}
use lithops.Future.{
  State, ready, error, success, done, end, CallStatus, value, Future, fresh, Storage, returned,
  blocked, status, result,
}
use lithops.Future.Results.{result_again, status_ends}
use lithops.Monitor.{Ended, generate_each, has_id}
use lithops.Monitor.Counts.{AllOnce, started, generate_each_tokens}

abbrev seven : CallStatus ℕ ℕ
seven = record {
  type = end;
  exception = none;
  new_futures = none;
  func_result_size = some 1;
  result = some 7;
}

-- The storage has the status at the second query.
abbrev slow : Storage ℕ ℕ
slow = record {
  get_call_status = λ n. if n == 0 then none else some seven;
  get_call_output = λ n. none;
}

abbrev invoked_call : Future ℕ ℕ
unfolding fresh
invoked_call = record fresh { state = ready }

abbrev finished : Future ℕ ℕ
unfolding fresh
finished = record fresh {
  state = done;
  call_status = some seven;
  call_output = some (value 7);
  status_query_count = 2;
}

abbrev failed : Future ℕ ℕ
unfolding fresh
failed = record fresh { state = error; exception = some 3 }

result_again_example : result 0 0 false slow finished ≡ (returned (some (value 7)), finished)
unfolding result invoked_call finished
result_again_example = result_again 3 10 0 0 true false slow slow invoked_call refl

status_ends_example : (status 3 true false slow invoked_call).0 ≢ blocked
unfolding invoked_call
status_ends_example = status_ends 1 3 true false slow invoked_call (omega arith) refl

abbrev three_states : List State
three_states = done ∷ success ∷ ready ∷ []

-- Worker 1 has done both of its calls, worker 2 one of two.
abbrev call_ended : ℕ → ℕ → Ended
call_ended worker call_id = record {
  call = record { job = 0; call_id = call_id };
  activation_id = worker;
  chunksize = 2;
}

abbrev three_ended : List Ended
three_ended = call_ended 1 0 ∷ call_ended 2 2 ∷ call_ended 1 1 ∷ []

generate_each_tokens_example :
    let m = generate_each three_ended (started 2) in
    (m.token_bucket_q ≡ 2 + length m.workers_done)
    × AllOnce m.workers_done
    × (has_id 1 m.workers_done ≡ leb 2 (count_if (λ s. 1 == s.activation_id) three_ended))
generate_each_tokens_example =
    generate_each_tokens 2 1 2 three_ended (omega arith)
      ((λ e. refl), ((λ e. refl), ((λ e. refl), tt)))
