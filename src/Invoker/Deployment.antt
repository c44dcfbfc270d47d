-- ===== src/Invoker/Deployment.antt =====
-- A runtime is deployed once.
use lithops.Base.{ℕ, ◌≡◌, Option, arith}
use lithops.Storage.{get_runtime_meta, put_runtime_meta, download}
use lithops.Invoker.Runtime.{
  RuntimeMeta, ComputeHandler, Host, selected, Runtimes, deploy, select_runtime,
}

-- Once a runtime was selected, whether or not it was deployed for that, the same is selected again
-- with the resulting state, and nothing more is deployed.
pub select_runtime-again :
    (host : Host) (handler : ComputeHandler) (runtime_memory : Option ℕ) (r : Runtimes)
    {meta : RuntimeMeta} {r' : Runtimes}
    → select_runtime host handler runtime_memory r ≡ (selected meta, r')
    → ((select_runtime host handler runtime_memory r').0 ≡ selected meta)
      × ((select_runtime host handler runtime_memory r').1.deployed ≡ r'.deployed)
unfolding select_runtime get_runtime_meta deploy put_runtime_meta download
select_runtime-again host handler runtime_memory r e = (ground arith, ground arith)
