-- ===== src/Worker/Delivery/Settled.antt =====
-- apps/worker-control/src/service.ts: how a round of the delivery ends.
use touchmyapi.Common.{
  ℕ, ◌+◌, ◌≡◌, refl, sym, ◌∙◌, Bool, true, false, List, [], ◌∷◌, ◌++◌, arith, All, any, any-append,
  gather, gather-append, All-append, not, is_empty, ◌&&◌, ◌||◌, if◌then◌else◌,
}
use mathlib.Core.List.{append-nil}
use touchmyapi.Common.Effect.{Outcome, returned, threw, has_thrown, behind, continue, call, pure}
use touchmyapi.Worker.Delivery.{
  OutboxClaim, outbox_ref, Event, DeliveryCalls, Locals, clean_up, fail_event, end_event,
  deliver_event,
}
use touchmyapi.Worker.Delivery.Steps.{
  IsOf, IsTried, is_accepted, is_counted, prepared_in, made_by, deletions, deletion, is_failed,
  is_acknowledged, one_if,
}
use touchmyapi.Worker.Delivery.Tried.{Ended, try_event-Ended}
use touchmyapi.Worker.Delivery.Cleaned.{
  is_provided, to_delete, IsCleaning, Cleaned, clean_up-Cleaned,
}

module _ {World Manifest Report : Type 0} (calls : DeliveryCalls World Manifest Report) where
  abbrev Log : Type 0
  Log = List (Event Manifest Report)

  -- A note of a failure that itself failed.
  abbrev pub is_lost : Event Manifest Report → Bool
  is_lost (Event.failed ref threw) = true
  is_lost _ = false

  unlost : (log : Log) → any (is_failed calls) log ≡ false → any is_lost log ≡ false
  unlost [] h = refl
  unlost (Event.read ref o ∷ log) h = unlost log h
  unlost (Event.prepared ref o ∷ log) h = unlost log h
  unlost (Event.published ref fs rs o ∷ log) h = unlost log h
  unlost (Event.terminal ref o ∷ log) h = unlost log h
  unlost (Event.acknowledged ref o ∷ log) h = unlost log h
  unlost (Event.deleted account rs o ∷ log) h = unlost log h
  unlost (Event.failed ref o ∷ log) h = ground arith

  -- What a round with the calls `log` that began with `d` delivered events leaves.
  pub record IsSettled (event : OutboxClaim) (d : ℕ) (o : Outcome ℕ) (log : Log) : Type 0 where
    pub fenced : All (IsOf calls event) log
    pub failed_is : any (is_failed calls) log ≡ not (any (is_acknowledged calls) log)
    pub deletions_are : deletions calls log ≡ (
        if any (is_failed calls) log
          && not (any (is_accepted calls) log)
          && not (is_empty (prepared_in calls log))
          && is_provided calls.delete_reports
        then (event.account_id, prepared_in calls log) ∷ []
        else [])
    pub lost_is : has_thrown o ≡ any is_lost log
    pub counted : (n : ℕ) → o ≡ returned n → n ≡ d + one_if calls (any (is_counted calls) log)

  abbrev pub Settled : OutboxClaim → ℕ → Outcome ℕ × (World × Log) → Type 0
  Settled event d (o, (w, log)) = IsSettled event d o log

  -- A test on the log of a failed round: before the `catch`, its clean-up and its last call.
  any-parts :
      (p : Event Manifest Report → Bool) (log more : Log) (e : Event Manifest Report)
      → any p (log ++ (more ++ e ∷ [])) ≡ (any p log || any p more || p e)
  any-parts p log more e =
      ground (arith, any-append p log (more ++ e ∷ []), any-append p more (e ∷ []))

  gather-parts :
      {B : Type 0} (f : Event Manifest Report → List B) (log more : Log) (e : Event Manifest Report)
      → f e ≡ []
      → gather f (log ++ (more ++ e ∷ [])) ≡ (gather f log ++ gather f more)
  gather-parts f log more e h =
      rw
        (
          gather-append f log (more ++ e ∷ []),
          gather-append f more (e ∷ []),
          h,
          append-nil (gather f more),
        )
        refl

  note-Settled :
      (event : OutboxClaim) (d : ℕ) (l : Locals Report) (log more : Log) (o : Outcome Bool)
      → IsTried calls event d false l log
      → IsCleaning calls event (to_delete calls event l) more
      → (r : Outcome ℕ) → has_thrown r ≡ has_thrown o
      → ((n : ℕ) → r ≡ returned n → n ≡ l.delivered)
      → IsSettled event d r (log ++ (more ++ Event.failed (outbox_ref event) o ∷ []))
  note-Settled event d l log more o h c r t k =
      let e = Event.failed (outbox_ref event) o in
      let whole = log ++ (more ++ e ∷ []) in
      let same_deletions : deletions calls whole ≡ to_delete calls event l =
        gather-parts (deletion calls) log more e refl ∙ rw (h.undeleted) c.deletions_are in
      let same_reports : prepared_in calls whole ≡ l.prepared_reports =
        gather-parts (made_by calls) log more e refl
        ∙ (rw c.unprepared (append-nil (prepared_in calls log)) ∙ sym h.prepared_is) in
      let failed : any (is_failed calls) whole ≡ true =
        ground (arith, any-parts (is_failed calls) log more e) in
      let accepted : any (is_accepted calls) whole ≡ l.is_published =
        ground (arith, any-parts (is_accepted calls) log more e, h.published_is, c.unaccepted) in
      record {
        fenced =
            All-append (IsOf calls event) log (more ++ e ∷ []) h.fenced
              (All-append (IsOf calls event) more (e ∷ []) c.fenced (refl, tt));
        failed_is = ground (
          arith,
          any-parts (is_failed calls) log more e,
          any-parts (is_acknowledged calls) log more e,
          h.acknowledged_is,
          c.unacknowledged,
        );
        deletions_are = rw (failed, accepted, same_reports) same_deletions;
        lost_is =
            ground
              (arith, any-parts is_lost log more e, unlost log h.unfailed, unlost more c.unfailed);
        counted = λ n e2.
            k n e2
            ∙ ground (arith, any-parts (is_counted calls) log more e, h.counted, c.uncounted);
      }

  fail-Settled :
      (event : OutboxClaim) (d : ℕ) (l : Locals Report) (log more : Log)
      → IsTried calls event d false l log
      → IsCleaning calls event (to_delete calls event l) more
      → (o : Outcome Bool × World)
      → Settled event d (
          behind log (
            behind more (
              continue
                (o.0, (o.1, Event.failed (outbox_ref event) o.0 ∷ []))
                (λ b. pure l.delivered))))
  fail-Settled event d l log more h c (threw, w) =
      note-Settled event d l log more threw h c threw refl (λ n e. ground arith)
  fail-Settled event d l log more h c (returned b, w) =
      note-Settled event d l log more (returned b) h c (returned l.delivered) refl
        (λ n e. ground arith)

  after_cleaning-Settled :
      (event : OutboxClaim) (d : ℕ) (l : Locals Report) (log : Log)
      → IsTried calls event d false l log
      → (r : Outcome (Unit {0}) × (World × Log)) → Cleaned calls event (to_delete calls event l) r
      → Settled event d (
          behind log (
            continue r (λ u. λ w.
              continue
                (call (Event.failed (outbox_ref event)) (calls.fail_outbox (outbox_ref event)) w)
                (λ b. pure l.delivered))))
  after_cleaning-Settled event d l log h (threw, (w, more)) (t, c) = ground arith
  after_cleaning-Settled event d l log h (returned u, (w, more)) (t, c) =
      fail-Settled event d l log more h c (calls.fail_outbox (outbox_ref event) w)

  end_event-Settled :
      (event : OutboxClaim) (d : ℕ) (r : Outcome (Unit {0}) × ((World × Locals Report) × Log))
      → Ended calls event d r
      → Settled event d (end_event calls event r)
  unfolding end_event fail_event
  end_event-Settled event d (threw, ((w, l), log)) h =
      after_cleaning-Settled event d l log h (clean_up calls event l w)
        (clean_up-Cleaned calls event l w)
  end_event-Settled event d (returned u, ((w, l), log)) h = record {
    fenced = h.fenced;
    failed_is = ground (arith, h.unfailed, h.acknowledged_is);
    deletions_are = rw (h.unfailed, h.undeleted) refl;
    lost_is = sym (unlost log h.unfailed);
    counted = λ n e. ground (arith, h.counted);
  }

  -- However the calls of a round end: each names the round's event, a job's calls its job with the
  -- fencing token of the event's key, and a deletion the event's account; the event is marked as failed
  -- exactly when its acknowledgement was not accepted; all the prepared reports are asked to be deleted,
  -- once, when the event is marked as failed, some were prepared, their publication was not accepted and
  -- the deletion is provided, and nothing is otherwise; the
  -- round throws exactly when the mark itself throws; and the count of the delivered events grows by
  -- one exactly when a result or a terminal event was accepted.
  pub deliver_event-IsSettled :
      (event : OutboxClaim) (d : ℕ) (w : World) → Settled event d (deliver_event calls event d w)
  unfolding deliver_event
  deliver_event-IsSettled event d w = end_event-Settled event d _ (try_event-Ended calls event d w)
