-- ===== src/Worker/Delivery/Steps.antt =====
-- apps/worker-control/src/service.ts: the `try` of one round of the delivery.
use touchmyapi.Common.{
  ℕ, ◌+◌, ◌≡◌, refl, sym, Bool, true, false, List, [], ◌∷◌, Option, none, some, Result, ok, err,
  arith, Text, All, any, gather, inl, inr, Bool-cases, codes,
}
use mathlib.Core.List.{append-nil}
use touchmyapi.Common.Effect.{Outcome, returned, threw, behind, continue}
use touchmyapi.Contracts.Redacted.{contains}
use touchmyapi.Analysis.Findings.{AnalyzedFinding, PassiveAnalysis, AnalysisError}
use touchmyapi.Worker.Delivery.{
  OutboxClaim, outbox_ref, JobRef, job_fence, Event, DeliveryCalls, Locals, delivery_job,
  after_publish, after_prepare, after_analysis, after_read, after_terminal, deliver_result,
  deliver_terminal, deliver_kind, no_locals,
}

module _ {World Manifest Report : Type 0} (calls : DeliveryCalls World Manifest Report) where
  abbrev pub Log : Type 0
  Log = List (Event Manifest Report)

  abbrev pub Body : Type 0
  Body = Outcome (Unit {0}) × ((World × Locals Report) × Log)

  -- A publication that was accepted.
  abbrev pub is_accepted : Event Manifest Report → Bool
  is_accepted (Event.published ref findings reports (returned true)) = true
  is_accepted _ = false

  -- An event that counts as delivered.
  abbrev pub is_counted : Event Manifest Report → Bool
  is_counted (Event.published ref findings reports (returned true)) = true
  is_counted (Event.terminal ref (returned true)) = true
  is_counted _ = false

  abbrev pub made_by : Event Manifest Report → List Report
  made_by (Event.prepared ref (returned reports)) = reports
  made_by _ = []

  -- The reports that the preparations have returned.
  abbrev pub prepared_in : Log → List Report
  prepared_in log = gather made_by log

  abbrev pub deletion : Event Manifest Report → List (Text × List Report)
  deletion (Event.deleted account reports o) = (account, reports) ∷ []
  deletion _ = []

  -- The deletions that were asked for: of which account, and of which reports.
  abbrev pub deletions : Log → List (Text × List Report)
  deletions log = gather deletion log

  -- An acknowledgement that was accepted.
  abbrev pub is_acknowledged : Event Manifest Report → Bool
  is_acknowledged (Event.acknowledged ref (returned true)) = true
  is_acknowledged _ = false

  abbrev pub is_failed : Event Manifest Report → Bool
  is_failed (Event.failed ref o) = true
  is_failed _ = false

  -- The job is the one that the outbox event names, with the fencing token of its key.
  pub record IsJobOf (event : OutboxClaim) (ref : JobRef) : Type 0 where
    pub account : ref.account_id ≡ event.account_id
    pub job : delivery_job event ≡ some ref.job_id
    pub fence : job_fence event.event_key ≡ some ref.job_fencing_token

  abbrev pub IsOf : OutboxClaim → Event Manifest Report → Type 0
  IsOf event (Event.read ref o) = IsJobOf event ref
  IsOf event (Event.prepared ref o) = IsJobOf event ref
  IsOf event (Event.published ref findings reports o) = IsJobOf event ref
  IsOf event (Event.terminal ref o) = IsJobOf event ref
  IsOf event (Event.acknowledged ref o) = ref ≡ outbox_ref event
  IsOf event (Event.deleted account reports o) = account ≡ event.account_id
  IsOf event (Event.failed ref o) = ref ≡ outbox_ref event

  abbrev pub one_if : Bool → ℕ
  one_if true = 1
  one_if false = 0

  -- How the local variables reflect the log, for a part of the `try` that began with `d` delivered;
  -- `a` says whether the event has been acknowledged.
  pub record IsTried (event : OutboxClaim) (d : ℕ) (a : Bool) (l : Locals Report) (log : Log)
      : Type 0 where
    pub fenced : All (IsOf event) log
    pub undeleted : deletions log ≡ []
    pub unfailed : any is_failed log ≡ false
    pub acknowledged_is : any is_acknowledged log ≡ a
    pub published_is : l.is_published ≡ any is_accepted log
    pub prepared_is : l.prepared_reports ≡ prepared_in log
    pub counted : l.delivered ≡ d + one_if (any is_counted log)

  abbrev pub Tried : OutboxClaim → ℕ → Body → Type 0
  Tried event d (o, ((w, l), log)) = IsTried event d false l log

  pub nothing-Tried : (event : OutboxClaim) (d : ℕ) → IsTried event d false (no_locals calls d) []
  nothing-Tried event d = record {
    fenced = tt;
    undeleted = refl;
    unfailed = refl;
    acknowledged_is = refl;
    published_is = refl;
    prepared_is = refl;
    counted = omega arith;
  }

  module _ (event : OutboxClaim) (d : ℕ) (ref : JobRef) (is_of : IsJobOf event ref) where
    publish-Tried :
        (manifest : Manifest) (findings : List AnalyzedFinding) (reports : List Report)
        (o : Outcome Bool × World)
        → let l = record (no_locals calls d) { prepared_reports = reports } in
          Tried event d (
            behind (Event.read ref (returned (some manifest)) ∷ []) (
              behind (Event.prepared ref (returned reports) ∷ []) (
                continue
                  (o.0, ((o.1, l), Event.published ref findings reports o.0 ∷ []))
                  (after_publish calls))))
    unfolding after_publish
    publish-Tried manifest findings reports (returned true, w) = record {
      fenced = (is_of, (is_of, (is_of, tt)));
      undeleted = refl;
      unfailed = refl;
      acknowledged_is = refl;
      published_is = ground arith;
      prepared_is = sym (append-nil reports);
      counted = ground arith;
    }
    publish-Tried manifest findings reports (returned false, w) = record {
      fenced = (is_of, (is_of, (is_of, tt)));
      undeleted = refl;
      unfailed = refl;
      acknowledged_is = refl;
      published_is = ground arith;
      prepared_is = sym (append-nil reports);
      counted = ground arith;
    }
    publish-Tried manifest findings reports (threw, w) = record {
      fenced = (is_of, (is_of, (is_of, tt)));
      undeleted = refl;
      unfailed = refl;
      acknowledged_is = refl;
      published_is = ground arith;
      prepared_is = sym (append-nil reports);
      counted = ground arith;
    }

    prepare-Tried :
        (manifest : Manifest) (analysis : PassiveAnalysis) (o : Outcome (List Report) × World)
        → Tried event d (
            behind (Event.read ref (returned (some manifest)) ∷ []) (
              continue
                (o.0, ((o.1, no_locals calls d), Event.prepared ref o.0 ∷ []))
                (after_prepare calls ref analysis)))
    unfolding after_prepare
    prepare-Tried manifest analysis (threw, w) = record {
      fenced = (is_of, (is_of, tt));
      undeleted = refl;
      unfailed = refl;
      acknowledged_is = refl;
      published_is = refl;
      prepared_is = refl;
      counted = omega arith;
    }
    prepare-Tried manifest analysis (returned reports, w) =
        publish-Tried manifest analysis.findings reports
          (calls.publish ref analysis.findings reports w)

    -- A round that ends after the manifest was asked for.
    read_only-Tried :
        (o : Outcome (Option Manifest))
        → IsTried event d false (no_locals calls d) (Event.read ref o ∷ [])
    read_only-Tried o = record {
      fenced = (is_of, tt);
      undeleted = refl;
      unfailed = refl;
      acknowledged_is = refl;
      published_is = refl;
      prepared_is = refl;
      counted = omega arith;
    }

    analysis-Tried :
        (manifest : Manifest) (w : World) (r : Result AnalysisError PassiveAnalysis)
        → Tried event d (
            behind
              (Event.read ref (returned (some manifest)) ∷ [])
              (after_analysis calls ref manifest r (w, no_locals calls d)))
    unfolding after_analysis
    analysis-Tried manifest w (err e) = read_only-Tried (returned (some manifest))
    analysis-Tried manifest w (ok analysis) =
        prepare-Tried manifest analysis (calls.prepare_reports ref manifest analysis w)

    read-Tried :
        (o : Outcome (Option Manifest) × World)
        → Tried event d (
            continue
              (o.0, ((o.1, no_locals calls d), Event.read ref o.0 ∷ []))
              (after_read calls ref))
    unfolding after_read
    read-Tried (threw, w) = read_only-Tried threw
    read-Tried (returned none, w) = read_only-Tried (returned none)
    read-Tried (returned (some manifest), w) = analysis-Tried manifest w (calls.analyze manifest)

    terminal-Tried :
        (o : Outcome Bool × World)
        → Tried event d (
            continue
              (o.0, ((o.1, no_locals calls d), Event.terminal ref o.0 ∷ []))
              (after_terminal calls))
    unfolding after_terminal
    terminal-Tried (threw, w) = record {
      fenced = (is_of, tt);
      undeleted = refl;
      unfailed = refl;
      acknowledged_is = refl;
      published_is = refl;
      prepared_is = refl;
      counted = omega arith;
    }
    terminal-Tried (returned false, w) = record {
      fenced = (is_of, tt);
      undeleted = refl;
      unfailed = refl;
      acknowledged_is = refl;
      published_is = refl;
      prepared_is = refl;
      counted = omega arith;
    }
    terminal-Tried (returned true, w) = record {
      fenced = (is_of, tt);
      undeleted = refl;
      unfailed = refl;
      acknowledged_is = refl;
      published_is = refl;
      prepared_is = refl;
      counted = refl;
    }

    pub deliver_kind-Tried :
        (key : Text) (w : World) → Tried event d (deliver_kind calls key ref (w, no_locals calls d))
    unfolding deliver_kind deliver_result deliver_terminal
    deliver_kind-Tried key w = elim (Bool-cases (contains (codes ":delivery:") key)) [
      | inl result ↦ rw result (read-Tried (calls.read_result ref w))
      | inr other ↦ elim (Bool-cases (contains (codes ":terminal:") key)) [
        | inl stop ↦ rw (other, stop) (terminal-Tried (calls.publish_terminal ref w))
        | inr unknown ↦ rw (other, unknown) (nothing-Tried event d)
      ]
    ]
