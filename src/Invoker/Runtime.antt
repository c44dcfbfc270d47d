-- ===== src/Invoker/Runtime.antt =====
-- `select_runtime` of lithops/invokers.py. A version is a number; of the compute handler only the key of
-- a runtime and the metadata of its deployment are used, `none` where that raises.
use lithops.Base.{ℕ, Bool, not, Option, none, some, List, ◌∷◌, ◌==◌, if◌then◌else◌}
use lithops.Storage.{Places, get_runtime_meta, put_runtime_meta}

pub record RuntimeMeta : Type 0 where
  pub lithops_version : ℕ
  pub python_version : ℕ
  pub runtime_timeout : ℕ

pub record ComputeHandler : Type 0 where
  pub get_runtime_key : (runtime_memory : ℕ) → ℕ
  pub deploy_runtime : (runtime_memory runtime_timeout : ℕ) → Option RuntimeMeta

-- The invoker's own: its mode, the runtime's standard memory and timeout, and the versions of the host.
pub record Host : Type 0 where
  pub serverless : Bool
  pub runtime_memory : ℕ
  pub runtime_timeout : ℕ
  pub lithops_version : ℕ
  pub python_version : ℕ
  pub is_worker : Bool
  pub writable : Bool

pub data Selected : Type 0 where
  selected : RuntimeMeta → Selected
  deployment_failed lithops_mismatch python_mismatch : Selected

-- The places of the metadata, and the keys of the runtimes that were deployed, the last first.
pub record Runtimes : Type 0 where
  pub places : Places RuntimeMeta
  pub deployed : List ℕ

-- `None` and 0 are no memory.
abbrev pub memory_of : Host → Option ℕ → ℕ
memory_of host none = host.runtime_memory
memory_of host (some n) =
    if host.serverless then (if n == 0 then host.runtime_memory else n) else host.runtime_memory

abbrev pub verify : Host → RuntimeMeta → Selected
verify host meta =
    if not (host.lithops_version == meta.lithops_version)
    then lithops_mismatch
    else (if not (host.python_version == meta.python_version)
        then python_mismatch
        else selected meta)

unfoldable pub deploy :
    Host → ComputeHandler → (runtime_memory : ℕ) → Runtimes → Selected × Runtimes
unfolding put_runtime_meta
deploy host handler runtime_memory r =
    elim (handler.deploy_runtime runtime_memory host.runtime_timeout) [
      | none ↦ (deployment_failed, r)
      | some m ↦
          let meta = record m { runtime_timeout = host.runtime_timeout } in
          let key = handler.get_runtime_key runtime_memory in
          (
            verify host meta,
            record {
              places = put_runtime_meta host.is_worker key meta r.places;
              deployed = key ∷ r.deployed;
            },
          )
    ]

unfoldable pub select_runtime :
    Host → ComputeHandler → (runtime_memory : Option ℕ) → Runtimes → Selected × Runtimes
unfolding get_runtime_meta deploy
select_runtime host handler runtime_memory r =
    let memory = memory_of host runtime_memory in
    let (found, places) =
      get_runtime_meta host.is_worker host.writable (handler.get_runtime_key memory) r.places in
    let r' = record r { places = places } in
    elim found [ some meta ↦ (verify host meta, r') | none ↦ deploy host handler memory r' ]
