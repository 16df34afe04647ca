-- ===== src/Worker/Execution/Logs.antt =====
-- apps/worker-control/src/service.ts: the logs of an execution cycle.
use mathlib.Core.Bool.{false≢true}
use touchmyapi.Common.{
  ◌≡◌, refl, sym, ap, ◌∙◌, Bool, true, false, List, [], ◌∷◌, ◌++◌, some, arith, All, any,
}
use touchmyapi.Common.Effect.{Outcome, returned, threw, has_thrown, continue}
use touchmyapi.Worker.Execution.{ExecutionRef, Event, ExecutionCalls, after_record, settle}
use touchmyapi.Worker.Execution.Heartbeat.{log_of, is_lost, IsHeld}

module _ {World Job Manifest : Type 0} (calls : ExecutionCalls World Job Manifest) where
  abbrev Log : Type 0
  Log = List (Event Job Manifest)

  abbrev Step : Type 0
  Step = Outcome Bool × (World × Log)

  -- The names of a log's events, for what a log must not hold together.
  abbrev pub is_stored : Event Job Manifest → Bool
  is_stored (Event.recorded ref m o) = true
  is_stored (Event.completed ref o) = true
  is_stored _ = false

  abbrev pub is_failed : Event Job Manifest → Bool
  is_failed (Event.failed ref o) = true
  is_failed _ = false

  -- An exception that the cycle must report.
  abbrev pub is_thrown : Event Job Manifest → Bool
  is_thrown (Event.loaded ref o) = has_thrown o
  is_thrown (Event.executed job aborted o) = has_thrown o
  is_thrown (Event.recorded ref m o) = has_thrown o
  is_thrown (Event.completed ref o) = has_thrown o
  is_thrown _ = false

  -- The event is about the claimed lease; an execution is about its job.
  abbrev pub IsOf : ExecutionRef → Event Job Manifest → Type 0
  IsOf ref (Event.claimed o) = ⊥
  IsOf ref (Event.loaded r o) = r ≡ ref
  IsOf ref (Event.beat r o) = r ≡ ref
  IsOf ref (Event.executed job aborted o) = Unit
  IsOf ref (Event.recorded r m o) = r ≡ ref
  IsOf ref (Event.completed r o) = r ≡ ref
  IsOf ref (Event.failed r o) = r ≡ ref

  -- What the claim of a job is followed by where the cycle ends with success: every heartbeat held
  -- the lease, and the job was executed, its manifest recorded and the job completed, in this order.
  pub record IsSuccess (ref : ExecutionRef) (log : Log) : Type 0 where
    pub job : Job
    pub manifest : Manifest
    pub beats : Log
    pub held : All (IsHeld calls ref) beats
    pub log_is :
        log
        ≡ Event.loaded ref (returned (some job))
          ∷ (beats
              ++ (Event.executed job false (returned manifest)
                  ∷ Event.recorded ref manifest (returned true)
                  ∷ Event.completed ref (returned true)
                  ∷ []))

  -- A part of the cycle: its events are about its lease, it reports no failure, it throws exactly if
  -- one of its calls has thrown, and stores nothing after a lost lease.
  pub record IsPart (ref : ExecutionRef) (r : Step) : Type 0 where
    pub fenced : All (IsOf ref) (log_of calls r)
    pub silent : any is_failed (log_of calls r) ≡ false
    pub thrown : any is_thrown (log_of calls r) ≡ has_thrown r.0
    pub stopped :
        any (is_lost calls) (log_of calls r) ≡ true → any is_stored (log_of calls r) ≡ false

  pub record IsSettled (ref : ExecutionRef) (manifest : Manifest) (r : Step) : Type 0 where
    pub part : IsPart ref r
    pub no_beat : any (is_lost calls) (log_of calls r) ≡ false
    pub success :
        r.0 ≡ returned true
        → log_of calls r
          ≡ Event.recorded ref manifest (returned true) ∷ Event.completed ref (returned true) ∷ []

  completed-IsPart :
      (ref : ExecutionRef) (o : Outcome Bool) (w : World)
      → IsPart ref (o, (w, Event.completed ref o ∷ []))
  completed-IsPart ref o w = record {
    fenced = (refl, tt);
    silent = refl;
    thrown = ground arith;
    stopped = λ e. absurd (false≢true e);
  }

  recorded-IsSettled :
      (ref : ExecutionRef) (manifest : Manifest) (o : Outcome Bool × World)
      → IsSettled ref manifest
          (continue (o.0, (o.1, Event.recorded ref manifest o.0 ∷ [])) (after_record calls ref))
  unfolding after_record
  recorded-IsSettled ref manifest (returned true, w) =
      let (o, w') = calls.complete_job ref w in
      let last = completed-IsPart ref o w' in
      record {
        part = record {
          fenced = (refl, last.fenced);
          silent = last.silent;
          thrown = last.thrown;
          stopped = λ e. absurd (false≢true e);
        };
        no_beat = refl;
        success = λ e.
            ap (λ r. Event.recorded ref manifest (returned true) ∷ Event.completed ref r ∷ []) e;
      }
  recorded-IsSettled ref manifest (returned false, w) = record {
    part = record {
      fenced = (refl, tt);
      silent = refl;
      thrown = refl;
      stopped = λ e. absurd (false≢true e);
    };
    no_beat = refl;
    success = λ e. cc;
  }
  recorded-IsSettled ref manifest (threw, w) = record {
    part = record {
      fenced = (refl, tt);
      silent = refl;
      thrown = refl;
      stopped = λ e. absurd (false≢true e);
    };
    no_beat = refl;
    success = λ e. cc;
  }

  -- What a part that follows the heartbeat says, given whether the lease was lost.
  pub record IsEnd (ref : ExecutionRef) (lost : Bool) (job : Job) (r : Step) : Type 0 where
    pub part : IsPart ref r
    pub no_beat : any (is_lost calls) (log_of calls r) ≡ false
    pub unstored : lost ≡ true → any is_stored (log_of calls r) ≡ false
    pub success :
        r.0 ≡ returned true
        → (lost ≡ false)
          × ((manifest : Manifest) × (log_of calls r
                ≡ Event.executed job false (returned manifest)
                  ∷ Event.recorded ref manifest (returned true)
                  ∷ Event.completed ref (returned true)
                  ∷ []))

  pub executed-IsEnd :
      (ref : ExecutionRef) (lost : Bool) (job : Job) (o : Outcome Manifest × World)
      → IsEnd ref lost job
          (continue (o.0, (o.1, Event.executed job lost o.0 ∷ [])) (settle calls ref lost))
  unfolding settle
  executed-IsEnd ref lost job (threw, w) = record {
    part = record {
      fenced = (tt, tt);
      silent = refl;
      thrown = refl;
      stopped = λ e. absurd (false≢true e);
    };
    no_beat = refl;
    unstored = λ e. refl;
    success = λ e. cc;
  }
  executed-IsEnd ref true job (returned manifest, w) = record {
    part = record {
      fenced = (tt, tt);
      silent = refl;
      thrown = refl;
      stopped = λ e. absurd (false≢true e);
    };
    no_beat = refl;
    unstored = λ e. refl;
    success = λ e. cc;
  }
  executed-IsEnd ref false job (returned manifest, w) =
      let rest = recorded-IsSettled ref manifest (calls.record_result ref manifest w) in
      record {
        part = record {
          fenced = (tt, rest.part.fenced);
          silent = rest.part.silent;
          thrown = rest.part.thrown;
          stopped = λ e. absurd (false≢true (sym rest.no_beat ∙ e));
        };
        no_beat = rest.no_beat;
        unstored = λ e. absurd (false≢true e);
        success = λ e. (
          refl,
          (manifest, ap (λ l. Event.executed job false (returned manifest) ∷ l) (rest.success e)),
        );
      }
