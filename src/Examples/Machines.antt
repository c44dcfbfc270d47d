-- ===== src/Examples/Machines.antt =====
-- A job of five calls on machines of two processes, one of which is there already.
use lithops.Base.{ℕ, ◌+◌, ◌≡◌, refl, true, false, List, [], ◌∷◌, ◌++◌, codes, length, arith}
use lithops.Standalone.{
  accepted, unanswered, settle, reuse, auto, processes, JobRequest, Handler, invoke,
}
use lithops.Standalone.Scaling.{Suffices, NoMore, Unposted, invoke_scales, invoke-raised}

abbrev job : JobRequest
job = record {
  job_key = codes "e-A000";
  total_calls = 5;
  max_workers = 10;
  worker_processes = auto;
  worker_instances = [];
}

abbrev one_machine : Handler
one_machine = record {
  backend = record { master = 0; workers = 1 ∷ []; next = 2 };
  jobs = [];
  posted = [];
}

invoke_scales_example :
    (h' : Handler) × (ws : List ℕ) × (invoke 2 1 (λ n. true) accepted reuse job one_machine
      ≡ (h', false))
    × (h'.jobs ≡ [] ++ codes "e-A000" ∷ [])
    × (h'.posted
        ≡ [] ++ (record job { worker_processes = processes 2; worker_instances = ws }) ∷ [])
    × (h'.backend.workers ≡ (1 ∷ []) ++ ws)
    × Suffices (1 + length ws) 2 5 10
    × NoMore (length ws) (1 + length ws) 2 5 10
invoke_scales_example =
    invoke_scales 2 1 (λ n. true) reuse job one_machine (λ n. refl) (omega arith, tt) (omega arith)
      (omega arith) (omega arith) (λ e. cc)

-- Three free machines are enough, and the master's answer is lost.
abbrev left_alone : Handler
unfolding invoke
left_alone = (invoke 2 3 (λ n. true) unanswered reuse job one_machine).0

invoke-raised_example : Unposted unanswered job one_machine left_alone
unfolding invoke left_alone settle
invoke-raised_example = invoke-raised 2 3 (λ n. true) unanswered reuse job one_machine refl
