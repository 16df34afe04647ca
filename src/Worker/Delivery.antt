-- ===== src/Worker/Delivery.antt =====
-- apps/worker-control/src/service.ts: the cycle that delivers the results of finished jobs.
pub mod Fence
pub mod Steps
pub mod Tried
pub mod Cleaned
pub mod Settled
pub mod Rounds
use touchmyapi.Common.{
  ℕ, ◌+◌, Bool, true, false, List, [], ◌∷◌, Option, none, some, Result, ok, err, Text, codes,
  text_eq, all, is_digit, is_empty, cut_last, read_digits, ltb, not, ◌&&◌, ◌||◌, if◌then◌else◌,
}
use touchmyapi.Common.Effect.{
  Outcome, returned, threw, Run, pure, throw, call, behind, attempt, ◌>>=◌, ◌>>◌,
}
use touchmyapi.Js.{safe_bound}
use touchmyapi.Contracts.Redacted.{contains}
use touchmyapi.Analysis.Findings.{PassiveAnalysis, AnalyzedFinding, AnalysisError}

pub record OutboxClaim : Type 0 where
  pub id : Text
  pub account_id : Text
  pub event_key : Text
  pub aggregate_type : Text
  pub aggregate_id : Option Text
  pub schema_version : Text
  pub lease_owner : Text
  pub fencing_token : ℕ

pub record OutboxRef : Type 0 where
  pub account_id : Text
  pub event_id : Text
  pub lease_owner : Text
  pub fencing_token : ℕ

unfoldable pub outbox_ref : OutboxClaim → OutboxRef
outbox_ref event = record {
  account_id = event.account_id;
  event_id = event.id;
  lease_owner = event.lease_owner;
  fencing_token = event.fencing_token;
}

-- The job of an event, with the fencing token in the event's key.
pub record JobRef : Type 0 where
  pub account_id : Text
  pub job_id : Text
  pub job_fencing_token : ℕ

abbrev pub is_fence_kind : Text → Bool
is_fence_kind t = text_eq t (codes "delivery") || text_eq t (codes "terminal")

-- `/:(?:delivery|terminal):(\d+)$/u` and `Number`, where the number is a safe integer.
unfoldable pub job_fence : Text → Option ℕ
job_fence key = elim (cut_last b':' key) [
  | none ↦ none
  | some (before, digits) ↦ elim (cut_last b':' before) [
    | none ↦ none
    | some (rest, kind) ↦
        let n = read_digits 10 0 digits in
        if is_fence_kind kind && all is_digit digits && not (is_empty digits) && ltb n safe_bound
        then some n
        else none
  ]
]

-- The calls for one event with their arguments and how they ended.
pub data Event (Manifest Report : Type 0) : Type 0 where
  read : JobRef → Outcome (Option Manifest) → Event Manifest Report
  prepared : JobRef → Outcome (List Report) → Event Manifest Report
  published : JobRef → List AnalyzedFinding → List Report → Outcome Bool → Event Manifest Report
  terminal : JobRef → Outcome Bool → Event Manifest Report
  acknowledged : OutboxRef → Outcome Bool → Event Manifest Report
  deleted : Text → List Report → Outcome (Unit {0}) → Event Manifest Report
  failed : OutboxRef → Outcome Bool → Event Manifest Report

-- The part of `WorkerServiceDependencies` that the delivery uses; `analyze` is the analysis of the
-- manifest's observations, and `delete_reports` may be missing.
pub record DeliveryCalls (World Manifest Report : Type 0) : Type 0 where
  pub claim_outbox : World → Outcome (List OutboxClaim) × World
  pub read_result : JobRef → World → Outcome (Option Manifest) × World
  pub analyze : Manifest → Result AnalysisError PassiveAnalysis
  pub prepare_reports : JobRef → Manifest → PassiveAnalysis → World → Outcome (List Report) × World
  pub publish : JobRef → List AnalyzedFinding → List Report → World → Outcome Bool × World
  pub publish_terminal : JobRef → World → Outcome Bool × World
  pub ack_outbox : OutboxRef → World → Outcome Bool × World
  pub delete_reports : Option (Text → List Report → World → Outcome (Unit {0}) × World)
  pub fail_outbox : OutboxRef → World → Outcome Bool × World

-- The local variables, which an exception leaves as they are.
pub record Locals (Report : Type 0) : Type 0 where
  pub prepared_reports : List Report
  pub is_published : Bool
  pub delivered : ℕ

abbrev pub given : Option Text → Option Text
given none = none
given (some t) = if is_empty t then none else some t

-- The job of an event that is a delivery.
unfoldable pub delivery_job : OutboxClaim → Option Text
delivery_job event =
    if text_eq event.schema_version (codes "job.delivery@1")
      && text_eq event.aggregate_type (codes "job_delivery")
    then given event.aggregate_id
    else none

module _ {World Manifest Report : Type 0} (calls : DeliveryCalls World Manifest Report) where
  abbrev pub Scope : Type 0
  Scope = World × Locals Report

  abbrev pub Body : Type 0 → Type 0
  Body A = Run Scope (Event Manifest Report) A

  abbrev pub Cycle : Type 0 → Type 0
  Cycle A = Run World (Event Manifest Report) A

  -- A call leaves the local variables alone.
  abbrev pub outside : {A : Type 0} → (World → Outcome A × World) → Scope → Outcome A × Scope
  outside f (w, l) = let (r, w') = f w in (r, (w', l))

  abbrev pub modify : (Locals Report → Locals Report) → Body (Unit {0})
  modify f (w, l) = (returned tt, ((w, f l), []))

  abbrev pub accept : Locals Report → Locals Report
  accept l = record l { is_published = true; delivered = l.delivered + 1 }

  unfoldable pub after_publish : Bool → Body (Unit {0})
  after_publish true = modify accept
  after_publish false = throw

  unfoldable pub after_prepare : JobRef → PassiveAnalysis → List Report → Body (Unit {0})
  after_prepare ref analysis reports = do
    modify (λ l. record l { prepared_reports = reports })
    accepted ←
        call (Event.published ref analysis.findings reports)
          (outside (calls.publish ref analysis.findings reports))
    after_publish accepted

  unfoldable pub after_analysis :
      JobRef → Manifest → Result AnalysisError PassiveAnalysis → Body (Unit {0})
  after_analysis ref manifest (err e) = throw
  after_analysis ref manifest (ok analysis) = do
    reports ← call (Event.prepared ref) (outside (calls.prepare_reports ref manifest analysis))
    after_prepare ref analysis reports

  unfoldable pub after_read : JobRef → Option Manifest → Body (Unit {0})
  after_read ref none = throw
  after_read ref (some manifest) = after_analysis ref manifest (calls.analyze manifest)

  unfoldable pub after_terminal : Bool → Body (Unit {0})
  after_terminal true = modify (λ l. record l { delivered = l.delivered + 1 })
  after_terminal false = throw

  unfoldable pub deliver_result : JobRef → Body (Unit {0})
  deliver_result ref = do
    manifest ← call (Event.read ref) (outside (calls.read_result ref))
    after_read ref manifest

  unfoldable pub deliver_terminal : JobRef → Body (Unit {0})
  deliver_terminal ref = do
    accepted ← call (Event.terminal ref) (outside (calls.publish_terminal ref))
    after_terminal accepted

  -- The branches on the event's key.
  unfoldable pub deliver_kind : Text → JobRef → Body (Unit {0})
  deliver_kind key ref =
      if contains (codes ":delivery:") key
      then deliver_result ref
      else if contains (codes ":terminal:") key
      then deliver_terminal ref
      else pure tt

  unfoldable pub deliver_fenced : OutboxClaim → Text → Option ℕ → Body (Unit {0})
  deliver_fenced event job none = throw
  deliver_fenced event job (some fence) =
      deliver_kind event.event_key
        (record { account_id = event.account_id; job_id = job; job_fencing_token = fence })

  -- An event of any other kind is acknowledged without more.
  unfoldable pub deliver_job : OutboxClaim → Option Text → Body (Unit {0})
  deliver_job event none = pure tt
  deliver_job event (some job) = deliver_fenced event job (job_fence event.event_key)

  unfoldable pub after_ack : Bool → Body (Unit {0})
  after_ack true = pure tt
  after_ack false = throw

  -- The body of the `try`.
  unfoldable pub try_event : OutboxClaim → Body (Unit {0})
  try_event event = do
    deliver_job event (delivery_job event)
    acked ←
        call (Event.acknowledged (outbox_ref event)) (outside (calls.ack_outbox (outbox_ref event)))
    after_ack acked

  -- `deleteReports(...).catch(() => undefined)`
  unfoldable pub discard :
      Option (Text → List Report → World → Outcome (Unit {0}) × World)
      → Text
      → List Report
      → Cycle (Unit {0})
  discard none account reports = pure tt
  discard (some delete) account reports =
      attempt (call (Event.deleted account reports) (delete account reports)) (pure tt)

  unfoldable pub clean_up : OutboxClaim → Locals Report → Cycle (Unit {0})
  clean_up event l =
      if not l.is_published && not (is_empty l.prepared_reports)
      then discard calls.delete_reports event.account_id l.prepared_reports
      else pure tt

  -- The `catch`, with the reason `delivery_publication_failed`.
  unfoldable pub fail_event : OutboxClaim → Locals Report → Cycle ℕ
  fail_event event l = do
    clean_up event l
    call (Event.failed (outbox_ref event)) (calls.fail_outbox (outbox_ref event))
    pure l.delivered

  abbrev pub no_locals : ℕ → Locals Report
  no_locals delivered = record {
    prepared_reports = [];
    is_published = false;
    delivered = delivered;
  }

  -- How a round ends once its `try` has.
  unfoldable pub end_event :
      OutboxClaim
      → Outcome (Unit {0}) × (Scope × List (Event Manifest Report))
      → Outcome ℕ × (World × List (Event Manifest Report))
  end_event event (returned u, ((w, l), log)) = (returned l.delivered, (w, log))
  end_event event (threw, ((w, l), log)) = behind log (fail_event event l w)

  -- One round of the loop, with the number that was delivered before it.
  unfoldable pub deliver_event : OutboxClaim → ℕ → Cycle ℕ
  deliver_event event delivered w = end_event event (try_event event (w, no_locals delivered))

  unfoldable pub deliver_events : List OutboxClaim → ℕ → Cycle ℕ
  deliver_events [] delivered = pure delivered
  deliver_events (event ∷ events) delivered = do
    more ← deliver_event event delivered
    deliver_events events more

  -- The claim of the events is not noted: it is the one call in front of all others.
  unfoldable pub run_delivery_cycle : Cycle ℕ
  run_delivery_cycle w =
      let (r, w') = calls.claim_outbox w in
      elim r [ threw ↦ (threw, (w', [])) | returned events ↦ deliver_events events 0 w' ]
