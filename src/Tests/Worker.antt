-- ===== src/Tests/Worker.antt =====
-- The worker at concrete inputs.
use touchmyapi.Common.{
  ℕ, suc, ◌≡◌, ◌<◌, ◌≤◌, ◌↔◌, ◌*◌, ◌++◌, refl, inl, Bool, true, false, List, [], ◌∷◌, some, ok,
  arith, Text, codes, print_number,
}
use touchmyapi.Common.Effect.{returned, threw}
use touchmyapi.Common.Sort.{IsConsistent}
use touchmyapi.Worker.Fair.{FairTenant, whole, select_fair_tenant}
use touchmyapi.Worker.Fair.Choice.{Chosen, HasRoom, select_fair_tenant-Chosen}
use touchmyapi.Worker.Execution.{
  QueueClaim, ExecutionCalls, heartbeat_interval, run_execution_cycle,
}
use touchmyapi.Worker.Execution.Cycle.{IsExecution, run_execution_cycle-IsExecution}
use touchmyapi.Worker.Lease.{heartbeat_interval-lt}
use touchmyapi.Worker.Delivery.{
  OutboxClaim, DeliveryCalls, job_fence, deliver_event, run_delivery_cycle,
}
use touchmyapi.Worker.Delivery.Fence.{job_fence-key}
use touchmyapi.Worker.Delivery.Settled.{Settled, deliver_event-IsSettled}
use touchmyapi.Worker.Delivery.Rounds.{Claimed, run_delivery_cycle-Claimed}

abbrev any_order : Text → Text → Bool
any_order s t = true

any_order-IsConsistent : IsConsistent any_order
any_order-IsConsistent = record { total = λ x y h. refl; transitive = λ x y z h k. refl }

abbrev tenants : List FairTenant
tenants =
    record {
      account_id = codes "a";
      last_dispatched_at = some 20;
      running_count = 0;
      concurrency_limit = 1;
      queued_count = 2;
    }
    ∷ record {
      account_id = codes "b";
      last_dispatched_at = some 10;
      running_count = 1;
      concurrency_limit = 1;
      queued_count = 5;
    }
    ∷ []

select_fair_tenant-Chosen_example :
    Chosen any_order any_order-IsConsistent tenants
      (HasRoom (whole 1) (whole 4))
      (select_fair_tenant any_order tenants (whole 1) (whole 4))
select_fair_tenant-Chosen_example =
    select_fair_tenant-Chosen any_order any_order-IsConsistent tenants (whole 1) (whole 4)

abbrev claim : QueueClaim
claim = record {
  account_id = codes "a";
  job_id = codes "j";
  lease_owner = codes "w";
  fencing_token = 3;
}

-- Calls that all succeed; the world counts them.
abbrev execution_calls : ExecutionCalls ℕ ℕ ℕ
execution_calls = record {
  claim_job = λ w. (returned (some claim), suc w);
  heartbeat_job = λ ref w. (returned true, suc w);
  load_claimed_job = λ ref w. (returned (some 5), suc w);
  execute = λ job aborted w. (returned 9, suc w);
  record_result = λ ref manifest w. (returned true, suc w);
  complete_job = λ ref w. (returned true, suc w);
  fail_job = λ ref w. (returned true, suc w);
}

run_execution_cycle-IsExecution_example :
    IsExecution execution_calls (run_execution_cycle execution_calls 2 0)
run_execution_cycle-IsExecution_example = run_execution_cycle-IsExecution execution_calls 2 0

heartbeat_interval-lt_example : (heartbeat_interval 30 < 30 * 1000) ↔ (2 ≤ 30)
heartbeat_interval-lt_example = heartbeat_interval-lt 30

abbrev key : Text
key = (codes "job:1" ++ b':' ∷ codes "delivery") ++ b':' ∷ print_number 10 7

job_fence-key_example : job_fence key ≡ some 7
job_fence-key_example = job_fence-key (codes "job:1") (codes "delivery") 7 (inl refl) (omega arith)

abbrev delivery : OutboxClaim
delivery = record {
  id = codes "e";
  account_id = codes "a";
  event_key = codes "job:1:delivery:7";
  aggregate_type = codes "job_delivery";
  aggregate_id = some (codes "j");
  schema_version = codes "job.delivery@1";
  lease_owner = codes "w";
  fencing_token = 3;
}

-- The publication is refused, and the prepared report deleted.
abbrev delivery_calls : DeliveryCalls ℕ ℕ ℕ
delivery_calls = record {
  claim_outbox = λ w. (returned (delivery ∷ []), suc w);
  read_result = λ ref w. (returned (some 9), suc w);
  analyze = λ manifest. ok (record { findings = []; limitations = []; untested_actions = [] });
  prepare_reports = λ ref manifest analysis w. (returned (4 ∷ []), suc w);
  publish = λ ref findings reports w. (returned false, suc w);
  publish_terminal = λ ref w. (returned true, suc w);
  ack_outbox = λ ref w. (returned true, suc w);
  delete_reports = some (λ account reports w. (threw, suc w));
  fail_outbox = λ ref w. (returned true, suc w);
}

deliver_event-IsSettled_example :
    Settled delivery_calls delivery 0 (deliver_event delivery_calls delivery 0 0)
deliver_event-IsSettled_example = deliver_event-IsSettled delivery_calls delivery 0 0

run_delivery_cycle-Claimed_example :
    Claimed delivery_calls (returned (delivery ∷ [])) (run_delivery_cycle delivery_calls 0)
run_delivery_cycle-Claimed_example = run_delivery_cycle-Claimed delivery_calls 0
