-- ===== src/Future/Fields.antt =====
-- The fields of a ResponseFuture, its predicates and the methods that set its state. Times, metrics,
-- logs and the printing of exceptions are left out; what is pickled stands for itself.
use lithops.Base.{ℕ, Bool, true, false, Option, none, some, List, if◌then◌else◌}

pub data State : Type 0 where
  new invoked running ready success error done unknown : State

pub data StatusType : Type 0 where
  init end : StatusType

-- A call status as a worker writes it. V is the type of results, E of exceptions; a future that a
-- function returns is its number. A field that may be missing in the dictionary is an Option.
pub record CallStatus (V E : Type 0) : Type 0 where
  pub type : StatusType
  pub exception : Option E
  pub new_futures : Option (List ℕ)
  pub func_result_size : Option ℕ
  pub result : Option V

-- `_call_output` holds a result, or the futures that the call returned.
pub data Output (V : Type 0) : Type 0 where
  value : V → Output V
  futures : List ℕ → Output V

pub record Future (V E : Type 0) : Type 0 where
  pub state : State
  pub produce_output : Bool
  pub read : Bool
  pub exception : Option E
  pub new_futures : Option (List ℕ)
  pub call_status : Option (CallStatus V E)
  pub call_output : Option (Output V)
  pub status_query_count : ℕ
  pub output_query_count : ℕ

-- __init__
unfoldable pub fresh : {V E : Type 0} → Future V E
fresh = record {
  state = new;
  produce_output = true;
  read = false;
  exception = none;
  new_futures = none;
  call_status = none;
  call_output = none;
  status_query_count = 0;
  output_query_count = 0;
}

-- The properties `success` and `done`; an error is both.
abbrev pub is_success : State → Bool
is_success success = true
is_success error = true
is_success _ = false

abbrev pub is_done : State → Bool
is_done done = true
is_done error = true
is_done unknown = true
is_done _ = false

abbrev pub is_ready : State → Bool
is_ready ready = true
is_ready _ = false

abbrev pub is_running : State → Bool
is_running running = true
is_running _ = false

abbrev pub is_new : State → Bool
is_new new = true
is_new _ = false

abbrev pub is_error : State → Bool
is_error error = true
is_error _ = false

abbrev pub is_invoked : State → Bool
is_invoked invoked = true
is_invoked _ = false

module _ {V E : Type 0} where
  unfoldable pub set_state : State → Future V E → Future V E
  set_state s f = record f { state = s }

  unfoldable pub set_invoked : Future V E → Future V E
  set_invoked f = record f { state = invoked }

  unfoldable pub set_running : CallStatus V E → Future V E → Future V E
  set_running cs f = record f { call_status = some cs; state = running }

  unfoldable pub set_exception : Future V E → Future V E
  set_exception f = record f { read = true; state = if is_done f.state then f.state else unknown }

  unfoldable pub set_ready : CallStatus V E → Future V E → Future V E
  set_ready cs f = record f { call_status = some cs; state = ready }

  unfoldable pub set_mapreduce : Future V E → Future V E
  set_mapreduce f = record f {
    read = true;
    produce_output = false;
    state = if is_success f.state then done else f.state;
  }
