-- ===== src/Executor/Calls.antt =====
-- `call_async`, `map`, `map_reduce`, `wait` and `get_result`. What select_runtime, the creation of the
-- job and run_job give for a job's id is a parameter of the calls, `none` where they raise. A future
-- is known by the number of its call, so that the futures of a list are the executor's own. The
-- clearing of the handler and the stop of the invoker and the monitor are left out.
use lithops.Base.{
  ℕ, ◌+◌, ◌||◌, Bool, true, false, not, ◌&&◌, Option, none, some, List, [], ◌∷◌, ◌++◌, map, keep,
  Text, ◌==◌, if◌then◌else◌, is_none,
}
use lithops.Future.{Future, Storage, Outcome, Output, result, set_exception, set_mapreduce}
use lithops.Wait.{
  Tracked, has_number, ReturnWhen, always, any_completed, all_completed, percentage, counts, Raised,
  raised_by, Waited, completed, failed, out_of_fuel,
}
use lithops.Wait as Wait
use lithops.Executor.Ids.{replace, job_name}
use lithops.Executor.State.{Executor, LastCall, by_call_async, by_map, by_map_reduce, create_job_id}
use lithops.Executor.Cleaning.{Given, nothing, one, plain_list, futures_list, clean_futures}

abbrev pub is_all : ReturnWhen → Bool
is_all all_completed = true
is_all _ = false

module _ {V E : Type 0} where
  -- The futures of a list, as they are in another.
  abbrev pub find_call : ℕ → Tracked V E → List (Tracked V E) → Tracked V E
  find_call n f [] = f
  find_call n f (g ∷ gs) = let rest = find_call n f gs in if n == g.call then g else rest

  unfoldable pub update_all : List (Tracked V E) → List (Tracked V E) → List (Tracked V E)
  update_all gs fs = map (λ f. find_call f.call f gs) fs

  abbrev pub change : (Future V E → Future V E) → Tracked V E → Tracked V E
  change g f = record f { future = g f.future }

  -- `fut._produce_output = False`, for the futures of a FuturesList.
  unfoldable pub drop_outputs : Option (List ℕ) → List (Tracked V E) → List (Tracked V E)
  drop_outputs none fs = fs
  drop_outputs (some calls) fs =
      map
        (λ f.
          if has_number f.call calls
          then change (λ g. record g { produce_output = false }) f
          else f)
        fs

  unfoldable pub call_async_job :
      (run : Text → Option (List (Tracked V E)))
      → Executor V E
      → Option (List (Tracked V E)) × Executor V E
  unfolding create_job_id
  call_async_job run ex =
      let (job_id, counted) = create_job_id b'A' ex in
      let ex' = record counted { last_call = some by_call_async } in
      elim (run job_id) [
        | none ↦ (none, ex')
        | some fs ↦ (some fs, record ex' { futures = ex'.futures ++ fs })
      ]

  -- `inputs` are the futures of a FuturesList that is mapped over.
  unfoldable pub map_job :
      (run : Text → Option (List (Tracked V E))) (inputs : Option (List ℕ))
      → Executor V E
      → Option (List (Tracked V E)) × Executor V E
  unfolding create_job_id drop_outputs
  map_job run inputs ex =
      let (job_id, counted) = create_job_id b'M' ex in
      let ex' = record counted { last_call = some by_map } in
      elim (run job_id) [
        | none ↦ (none, ex')
        | some fs ↦ (some fs, record ex' { futures = drop_outputs inputs (ex'.futures ++ fs) })
      ]

-- How `wait` or `get_result` ends: a list of results, a single one, or what was raised.
pub data Result (V E : Type 0) : Type 0 where
  many : List (Outcome E (Option (Output V))) → Result V E
  single : Outcome E (Option (Output V)) → Result V E
  raised : Raised E → Result V E
  type_error : Result V E
  blocked : Result V E

-- What a wait takes from elsewhere: the fuel and the retries of the futures, the rounds, the
-- storage, the futures that calls return, and the marks of the monitor.
pub record Setting (V E : Type 0) : Type 0 where
  pub fuel : ℕ
  pub retries : ℕ
  pub rounds : ℕ
  pub storages : ℕ → Storage V E
  pub made : ℕ → Tracked V E
  pub marked : ℕ → List (Tracked V E) → List (Tracked V E)
  pub job_key : ℕ → Text
  pub top_level : ℕ → Bool
  pub data_cleaner : Bool

abbrev pub is_always : ReturnWhen → Bool
is_always always = true
is_always _ = false

module _ {V E : Type 0} (set : Setting V E) where
  -- The futures to wait for, and whether the list is the executor's own.
  abbrev pub waited_for : Given V E → Executor V E → List (Tracked V E) × Bool
  waited_for nothing ex = (ex.futures, true)
  waited_for (one f) ex = (f ∷ [], false)
  waited_for (plain_list []) ex = (ex.futures, true)
  waited_for (plain_list (f ∷ fs)) ex = (f ∷ fs, false)
  waited_for (futures_list []) ex = (ex.futures, true)
  waited_for (futures_list (f ∷ fs)) ex = (f ∷ fs, false)

  abbrev pub keep_waited : Bool → List (Tracked V E) → Executor V E → Executor V E
  unfolding update_all
  keep_waited true gs ex = record ex { futures = gs }
  keep_waited false gs ex = record ex { futures = update_all gs ex.futures }

  unfoldable pub clean_if : (cleans force : Bool) → Executor V E → Executor V E
  unfolding clean_futures
  clean_if cleans force ex =
      if set.data_cleaner && cleans
      then clean_futures set.job_key set.top_level force ex.futures ex
      else ex

  -- `fs_done` and `fs_notdone`, or what was raised; the exception is passed on.
  unfoldable pub after_wait :
      (return_when : ReturnWhen) (own : Bool)
      → Waited V E
      → Executor V E
      → Waited V E × Executor V E
  unfolding clean_if set_exception
  after_wait return_when own (completed gs) ex =
      (completed gs, clean_if (is_all return_when) false (keep_waited own gs ex))
  after_wait return_when own (failed r gs) ex =
      let hs = map (change set_exception) gs in
      (failed r hs, clean_if true true (keep_waited own hs ex))
  after_wait return_when own (out_of_fuel gs) ex = (out_of_fuel gs, keep_waited own gs ex)

  unfoldable pub wait :
      (throw_except download_results : Bool)
      → ReturnWhen
      → Given V E
      → Executor V E
      → Waited V E × Executor V E
  unfolding after_wait
  wait throw_except download_results return_when given ex =
      let (futures, own) = waited_for given ex in
      after_wait return_when own
        (Wait.wait set.fuel set.retries download_results throw_except set.storages set.made
          set.marked set.rounds return_when futures)
        ex

  unfoldable pub fs_done : Bool → List (Tracked V E) → List (Tracked V E)
  fs_done download_results futures = keep (λ f. counts download_results f.future.state) futures

  unfoldable pub fs_notdone : Bool → List (Tracked V E) → List (Tracked V E)
  fs_notdone download_results futures =
      keep (λ f. not (counts download_results f.future.state)) futures

  -- The loop over the futures that are done; the first exception ends it.
  abbrev pub to_read : (by_user : Bool) → Future V E → Bool
  to_read by_user f = is_none f.new_futures && f.produce_output && (by_user || not f.read)

  unfoldable pub read_results :
      (throw_except by_user : Bool)
      → List (Tracked V E)
      → Raised E × List (Outcome E (Option (Output V))) × List (Tracked V E)
  unfolding result
  read_results throw_except by_user [] = (Raised.nothing, [], [])
  read_results throw_except by_user (f ∷ fs) =
      let (raised_there, outs, gs) = read_results throw_except by_user fs in
      let (out, g) = result set.fuel set.retries throw_except (set.storages f.call) f.future in
      let read = record g { read = g.read || not by_user } in
      if to_read by_user f.future
      then elim (raised_by out) [
        | Raised.nothing ↦ (raised_there, out ∷ outs, record f { future = read } ∷ gs)
        | Raised.exception e ↦ (Raised.exception e, [], record f { future = g } ∷ fs)
        | Raised.another ↦ (Raised.another, [], record f { future = g } ∷ fs)
      ]
      else (raised_there, outs, f ∷ gs)

  abbrev pub unwrap : Option LastCall → List (Outcome E (Option (Output V))) → Result V E
  unwrap (some by_map) outs = many outs
  unwrap last_call (out ∷ []) = single out
  unwrap last_call outs = many outs

  abbrev pub is_own : Given V E → Bool
  is_own nothing = true
  is_own (one f) = false
  is_own (plain_list []) = true
  is_own (plain_list (f ∷ fs)) = false
  is_own (futures_list []) = true
  is_own (futures_list (f ∷ fs)) = false

  unfoldable pub read_waited :
      (throw_except by_user : Bool) → Waited V E × Executor V E → Result V E × Executor V E
  unfolding read_results fs_done update_all
  read_waited throw_except by_user (completed gs, ex) =
      let (failure, outs, read) = read_results throw_except by_user (fs_done true gs) in
      let ex' = record ex { futures = update_all read ex.futures } in
      elim failure [
        | Raised.nothing ↦ (unwrap ex.last_call outs, ex')
        | Raised.exception e ↦ (raised (Raised.exception e), ex')
        | Raised.another ↦ (raised Raised.another, ex')
      ]
  read_waited throw_except by_user (failed r gs, ex) = (raised r, ex)
  read_waited throw_except by_user (out_of_fuel gs, ex) = (blocked, ex)

  -- `len(fs)` is a TypeError for a single future.
  unfoldable pub get_result :
      (throw_except : Bool) → Given V E → Executor V E → Result V E × Executor V E
  unfolding wait read_waited
  get_result throw_except (one f) ex = (type_error, ex)
  get_result throw_except given ex =
      read_waited throw_except (not (is_own given)) (wait throw_except true all_completed given ex)

  -- `spawn_reducer` is what the wait for the map's futures returns on; `run_reduce` is given the
  -- futures of the map job.
  unfoldable pub map_reduce_job :
      (run : Text → Option (List (Tracked V E))) (inputs : Option (List ℕ))
      (run_reduce : Text → List (Tracked V E) → Option (List (Tracked V E)))
      (spawn_reducer : ReturnWhen)
      → Executor V E
      → Option (List (Tracked V E)) × Executor V E
  unfolding job_name wait set_mapreduce drop_outputs update_all
  map_reduce_job run inputs run_reduce spawn_reducer ex =
      let map_id = job_name b'M' ex.total_jobs in
      let ex1 = record ex { last_call = some by_map_reduce; total_jobs = ex.total_jobs + 1 } in
      elim (run map_id) [
        | none ↦ (none, ex1)
        | some fs ↦
            let ex2 = record ex1 { futures = drop_outputs inputs (ex1.futures ++ fs) } in
            let (waited, ex3) =
              if is_always spawn_reducer
              then (completed fs, ex2)
              else wait true false spawn_reducer (plain_list fs) ex2 in
            elim waited [
              | completed gs ↦ elim (run_reduce (replace b'M' b'R' map_id) gs) [
                | none ↦ (none, ex3)
                | some hs ↦
                    let ms = map (change set_mapreduce) gs in
                    (some (ms ++ hs), record ex3 { futures = update_all ms (ex3.futures ++ hs) })
              ]
              | _ ↦ (none, ex3)
            ]
      ]
