-- ===== src/Worker/Execution.antt =====
-- apps/worker-control/src/service.ts: the cycle that claims a job, runs it and records its result.
-- The database, the runner and the clock are a record of calls, on a world of any type. The heartbeat
-- runs beside the execution: how many of its rounds begin before the execution ends is a parameter.
pub mod Heartbeat
pub mod Logs
pub mod Cycle
use touchmyapi.Common.{
  ℕ, zero, suc, ◌*◌, ◌/◌, Bool, true, false, List, Option, none, some, Text, ltb, if◌then◌else◌,
}
use touchmyapi.Common.Effect.{Outcome, Run, pure, call, attempt, ◌>>=◌, ◌>>◌}

pub record QueueClaim : Type 0 where
  pub account_id : Text
  pub job_id : Text
  pub lease_owner : Text
  pub fencing_token : ℕ

pub record ExecutionRef : Type 0 where
  pub account_id : Text
  pub job_id : Text
  pub lease_owner : Text
  pub fencing_token : ℕ

unfoldable pub execution_ref : QueueClaim → ExecutionRef
execution_ref claim = record {
  account_id = claim.account_id;
  job_id = claim.job_id;
  lease_owner = claim.lease_owner;
  fencing_token = claim.fencing_token;
}

-- The calls of a cycle with their arguments and how they ended; of a reply that is an object or
-- `null` only which of the two is noted.
pub data Event (Job Manifest : Type 0) : Type 0 where
  claimed : Outcome (Option QueueClaim) → Event Job Manifest
  loaded : ExecutionRef → Outcome (Option Job) → Event Job Manifest
  beat : ExecutionRef → Outcome Bool → Event Job Manifest
  executed : Job → (aborted : Bool) → Outcome Manifest → Event Job Manifest
  recorded : ExecutionRef → Manifest → Outcome Bool → Event Job Manifest
  completed : ExecutionRef → Outcome Bool → Event Job Manifest
  failed : ExecutionRef → Outcome Bool → Event Job Manifest

-- The part of `WorkerServiceDependencies` that the execution uses; `execute` is told whether the
-- heartbeat has aborted it.
pub record ExecutionCalls (World Job Manifest : Type 0) : Type 0 where
  pub claim_job : World → Outcome (Option QueueClaim) × World
  pub heartbeat_job : ExecutionRef → World → Outcome Bool × World
  pub load_claimed_job : ExecutionRef → World → Outcome (Option Job) × World
  pub execute : Job → Bool → World → Outcome Manifest × World
  pub record_result : ExecutionRef → Manifest → World → Outcome Bool × World
  pub complete_job : ExecutionRef → World → Outcome Bool × World
  pub fail_job : ExecutionRef → World → Outcome Bool × World

-- `Math.max(1_000, Math.floor((leaseSeconds * 1_000) / 3))`
unfoldable pub heartbeat_interval : ℕ → ℕ
heartbeat_interval lease_seconds =
    let third = lease_seconds * 1000 / 3 in if ltb third 1000 then 1000 else third

module _ {World Job Manifest : Type 0} (calls : ExecutionCalls World Job Manifest) where
  abbrev pub Cycle : Type 0 → Type 0
  Cycle A = Run World (Event Job Manifest) A

  -- The rounds of the heartbeat, with whether the lease was lost; a throw counts as a loss.
  unfoldable pub heartbeats : ExecutionRef → ℕ → Cycle Bool
  heartbeats ref zero = pure false
  heartbeats ref (suc n) = do
    held ← attempt (call (Event.beat ref) (calls.heartbeat_job ref)) (pure false)
    elim held [ true ↦ heartbeats ref n | false ↦ pure true ]

  -- What `recordResult` has replied decides whether the job is completed.
  unfoldable pub after_record : ExecutionRef → Bool → Cycle Bool
  after_record ref true = call (Event.completed ref) (calls.complete_job ref)
  after_record ref false = pure false

  -- From the end of the execution on.
  unfoldable pub settle : ExecutionRef → (lost : Bool) → Manifest → Cycle Bool
  settle ref true manifest = pure false
  settle ref false manifest = do
    kept ← call (Event.recorded ref manifest) (calls.record_result ref manifest)
    after_record ref kept

  unfoldable pub execute_job : ExecutionRef → ℕ → Job → Cycle Bool
  execute_job ref beats job = do
    lost ← heartbeats ref beats
    manifest ← call (Event.executed job lost) (calls.execute job lost)
    settle ref lost manifest

  unfoldable pub after_load : ExecutionRef → ℕ → Option Job → Cycle Bool
  after_load ref beats none = pure false
  after_load ref beats (some job) = execute_job ref beats job

  -- The body of the `try`.
  unfoldable pub execute_claim : ExecutionRef → ℕ → Cycle Bool
  execute_claim ref beats = do
    found ← call (Event.loaded ref) (calls.load_claimed_job ref)
    after_load ref beats found

  -- The `catch`, with the reason `runner_execution_failed`.
  unfoldable pub fail_claim : ExecutionRef → Cycle Bool
  fail_claim ref = call (Event.failed ref) (calls.fail_job ref) >> pure false

  unfoldable pub after_claim : ℕ → Option QueueClaim → Cycle Bool
  after_claim beats none = pure false
  after_claim beats (some claim) =
      attempt (execute_claim (execution_ref claim) beats) (fail_claim (execution_ref claim))

  unfoldable pub run_execution_cycle : ℕ → Cycle Bool
  run_execution_cycle beats = do claim ← call Event.claimed calls.claim_job; after_claim beats claim
