-- ===== src/Worker/Execution/Cycle.antt =====
-- apps/worker-control/src/service.ts: the log of a whole execution cycle.
use mathlib.Core.Path.{subst}
use touchmyapi.Common.{
  ℕ, ◌≡◌, ◌≢◌, refl, sym, ap, ◌∙◌, Bool, true, false, List, [], ◌∷◌, ◌++◌, Option, none, some,
  arith, All, All-append, any, any-append,
}
use touchmyapi.Common.Effect.{
  Outcome, returned, threw, behind, continue, recover, call, pure, ◌>>=◌,
}
use touchmyapi.Worker.Execution.{
  QueueClaim, ExecutionRef, execution_ref, Event, ExecutionCalls, heartbeats, settle, execute_job,
  after_load, execute_claim, fail_claim, after_claim, run_execution_cycle,
}
use touchmyapi.Worker.Execution.Heartbeat.{
  log_of, is_lost, IsBeat, IsHeld, IsHeartbeat, heartbeats-IsHeartbeat,
}
use touchmyapi.Worker.Execution.Logs.{
  is_stored, is_failed, is_thrown, IsOf, IsSuccess, IsPart, IsEnd, executed-IsEnd,
}

module _ {World Job Manifest : Type 0} (calls : ExecutionCalls World Job Manifest) where
  abbrev Log : Type 0
  Log = List (Event Job Manifest)

  abbrev Step : Type 0
  Step = Outcome Bool × (World × Log)

  -- The rounds of a heartbeat by themselves.
  record IsQuiet (ref : ExecutionRef) (log : Log) : Type 0 where
    fenced : All (IsOf calls ref) log
    silent : any (is_failed calls) log ≡ false
    unthrown : any (is_thrown calls) log ≡ false
    unstored : any (is_stored calls) log ≡ false

  beats-IsQuiet : (ref : ExecutionRef) (log : Log) → All (IsBeat calls ref) log → IsQuiet ref log
  beats-IsQuiet ref [] h = record { fenced = tt; silent = refl; unthrown = refl; unstored = refl }
  beats-IsQuiet ref (e ∷ log) ((o, same), h) =
      let rest = beats-IsQuiet ref log h in
      subst (λ x. IsQuiet ref (x ∷ log)) (sym same)
        (record {
          fenced = (refl, rest.fenced);
          silent = rest.silent;
          unthrown = rest.unthrown;
          unstored = rest.unstored;
        })

  record IsJob (ref : ExecutionRef) (job : Job) (r : Step) : Type 0 where
    part : IsPart calls ref r
    success :
        r.0 ≡ returned true
        → IsSuccess calls ref (Event.loaded ref (returned (some job)) ∷ log_of calls r)

  -- A heartbeat and the end of the execution that it ran beside.
  beats-end-IsJob :
      (ref : ExecutionRef) (job : Job) (beats : Log) (lost : Bool) (r : Step)
      → All (IsBeat calls ref) beats
      → any (is_lost calls) beats ≡ lost
      → (lost ≡ false → All (IsHeld calls ref) beats)
      → IsEnd calls ref lost job r
      → IsJob ref job (behind beats r)
  beats-end-IsJob ref job beats lost (o, (w, log)) only found held end =
      let quiet = beats-IsQuiet ref beats only in
      record {
        part = record {
          fenced = All-append (IsOf calls ref) beats log quiet.fenced end.part.fenced;
          silent =
              any-append (is_failed calls) beats log
              ∙ ground (arith, quiet.silent, end.part.silent);
          thrown =
              any-append (is_thrown calls) beats log
              ∙ ground (arith, quiet.unthrown, end.part.thrown);
          stopped = λ e.
              let lost_is : lost ≡ true =
                ground (arith, any-append (is_lost calls) beats log, end.no_beat) in
              any-append (is_stored calls) beats log
              ∙ ground (arith, quiet.unstored, end.unstored lost_is);
        };
        success = λ e.
            let (kept, (manifest, log_is)) = end.success e in
            record {
              job = job;
              manifest = manifest;
              beats = beats;
              held = held kept;
              log_is = ap (λ l. Event.loaded ref (returned (some job)) ∷ (beats ++ l)) log_is;
            };
      }

  execute_job-IsJob :
      (ref : ExecutionRef) (n : ℕ) (job : Job) (w : World)
      → IsJob ref job (execute_job calls ref n job w)
  unfolding execute_job
  execute_job-IsJob ref n job w =
      go (heartbeats calls ref n w) (heartbeats-IsHeartbeat calls ref n w)
    where
      go :
          (hb : Step)
          → IsHeartbeat calls ref hb
          → IsJob ref job (
              continue hb λ lost.
                call (Event.executed job lost) (calls.execute job lost) >>= settle calls ref lost)
      go (threw, (w', log)) h = let e = h.ended in cc
      go (returned lost, (w', log)) h =
          let same : h.lost ≡ lost = let e = h.ended in cc in
          beats-end-IsJob ref job log lost _ h.only (h.found ∙ same) (λ e. h.held (same ∙ e))
            (executed-IsEnd calls ref lost job (calls.execute job lost w'))

  loaded-IsPart :
      (ref : ExecutionRef) (n : ℕ) (o : Outcome (Option Job) × World)
      → let r = continue (o.0, (o.1, Event.loaded ref o.0 ∷ [])) (after_load calls ref n) in
        IsPart calls ref r × (r.0 ≡ returned true → IsSuccess calls ref (log_of calls r))
  unfolding after_load
  loaded-IsPart ref n (threw, w) =
      (record { fenced = (refl, tt); silent = refl; thrown = refl; stopped = λ e. refl }, λ e. cc)
  loaded-IsPart ref n (returned none, w) =
      (record { fenced = (refl, tt); silent = refl; thrown = refl; stopped = λ e. refl }, λ e. cc)
  loaded-IsPart ref n (returned (some job), w) =
      let run = execute_job-IsJob ref n job w in
      (
        record {
          fenced = (refl, run.part.fenced);
          silent = run.part.silent;
          thrown = run.part.thrown;
          stopped = run.part.stopped;
        },
        run.success,
      )

  -- The log behind a claim, and how the cycle ends: its events are about the lease of the claim; a
  -- failure is reported exactly if a call has thrown; nothing is stored after a lost lease; and the
  -- cycle returns true only after a complete run.
  pub record IsCycle (ref : ExecutionRef) (o : Outcome Bool) (log : Log) : Type 0 where
    pub fenced : All (IsOf calls ref) log
    pub reported : any (is_failed calls) log ≡ any (is_thrown calls) log
    pub stopped : any (is_lost calls) log ≡ true → any (is_stored calls) log ≡ false
    pub success : o ≡ returned true → IsSuccess calls ref log

  -- A part that has thrown, followed by the report of its failure.
  report-IsCycle :
      (ref : ExecutionRef) (w : World) (log : Log) (o o' : Outcome Bool)
      → IsPart calls ref (threw, (w, log))
      → o' ≢ returned true
      → IsCycle ref o' (log ++ Event.failed ref o ∷ [])
  report-IsCycle ref w log o o' p unsuccessful =
      let last : Log = Event.failed ref o ∷ [] in
      record {
        fenced = All-append (IsOf calls ref) log last p.fenced (refl, tt);
        reported =
            any-append (is_failed calls) log last
            ∙ ground (arith, p.silent, p.thrown, any-append (is_thrown calls) log last);
        stopped = λ e.
            any-append (is_stored calls) log last
            ∙ ground (arith, p.stopped, any-append (is_lost calls) log last);
        success = λ e. absurd (unsuccessful e);
      }

  recovered-IsCycle :
      (ref : ExecutionRef) (r : Step)
      → IsPart calls ref r × (r.0 ≡ returned true → IsSuccess calls ref (log_of calls r))
      → let r' = recover r (fail_claim calls ref) in IsCycle ref r'.0 (log_of calls r')
  unfolding fail_claim
  recovered-IsCycle ref (returned b, (w, log)) (p, s) = record {
    fenced = p.fenced;
    reported = p.silent ∙ sym p.thrown;
    stopped = p.stopped;
    success = s;
  }
  recovered-IsCycle ref (threw, (w, log)) (p, s) = report (calls.fail_job ref w)
    where
      report :
          (o : Outcome Bool × World)
          → let r' =
              behind log (continue (o.0, (o.1, Event.failed ref o.0 ∷ [])) (λ _. pure false)) in
            IsCycle ref r'.0 (log_of calls r')
      report (returned b, w') = report-IsCycle ref w log (returned b) (returned false) p (λ e. cc)
      report (threw, w') = report-IsCycle ref w log threw threw p (λ e. cc)

  -- The log of a cycle: a claim that gave no job, or a claim and what it is followed by.
  pub data IsExecution (r : Step) : Type 0 where
    unclaimed :
        (o : Outcome (Option QueueClaim))
        → log_of calls r ≡ Event.claimed o ∷ []
        → r.0 ≢ returned true
        → IsExecution r
    followed :
        (claim : QueueClaim) (log : Log)
        → log_of calls r ≡ Event.claimed (returned (some claim)) ∷ log
        → IsCycle (execution_ref claim) r.0 log
        → IsExecution r

  claimed-IsExecution :
      (n : ℕ) (o : Outcome (Option QueueClaim) × World)
      → IsExecution (continue (o.0, (o.1, Event.claimed o.0 ∷ [])) (after_claim calls n))
  unfolding after_claim execute_claim
  claimed-IsExecution n (threw, w) = unclaimed threw refl (λ e. cc)
  claimed-IsExecution n (returned none, w) = unclaimed (returned none) refl (λ e. cc)
  claimed-IsExecution n (returned (some claim), w) =
      let ref = execution_ref claim in
      followed claim _ refl
        (recovered-IsCycle ref _ (loaded-IsPart ref n (calls.load_claimed_job ref w)))

  -- Whatever the calls reply, however many rounds of the heartbeat there are, a cycle that claims no
  -- job does nothing more; behind a claim every event that names a lease names that of the claim, with
  -- its fencing token; `failJob` is called exactly if a call behind the claim, other than a heartbeat and
  -- `failJob` itself, has thrown, and never if the claim throws; once the lease is lost no result is recorded and no job completed; and the cycle returns true only if the
  -- lease was held throughout and the job was executed, recorded and completed, in this order.
  pub run_execution_cycle-IsExecution :
      (n : ℕ) (w : World) → IsExecution (run_execution_cycle calls n w)
  unfolding run_execution_cycle
  run_execution_cycle-IsExecution n w = claimed-IsExecution n (calls.claim_job w)
