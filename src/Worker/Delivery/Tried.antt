-- ===== src/Worker/Delivery/Tried.antt =====
-- apps/worker-control/src/service.ts: how the `try` of a round ends.
use touchmyapi.Common.{
  ℕ, ◌≡◌, refl, sym, ◌∙◌, Bool, true, false, List, [], ◌∷◌, ◌++◌, Option, none, some, arith, Text,
  any-append, gather-append, All-append, not,
}
use mathlib.Core.List.{append-nil}
use touchmyapi.Common.Effect.{Outcome, returned, threw, has_thrown, behind, continue, call}
use touchmyapi.Worker.Delivery.{
  OutboxClaim, outbox_ref, job_fence, Event, DeliveryCalls, Locals, delivery_job, deliver_fenced,
  deliver_job, after_ack, try_event, no_locals, outside,
}
use touchmyapi.Worker.Delivery.Steps.{
  IsOf, IsTried, Tried, is_accepted, is_counted, prepared_in, made_by, deletion, is_failed,
  is_acknowledged, nothing-Tried, deliver_kind-Tried,
}

module _ {World Manifest Report : Type 0} (calls : DeliveryCalls World Manifest Report) where
  abbrev Log : Type 0
  Log = List (Event Manifest Report)

  deliver_fenced-Tried :
      (event : OutboxClaim) (d : ℕ) (w : World) (job : Text)
      → delivery_job event ≡ some job
      → (o : Option ℕ) → job_fence event.event_key ≡ o
      → Tried calls event d (deliver_fenced calls event job o (w, no_locals calls d))
  unfolding deliver_fenced
  deliver_fenced-Tried event d w job e none f = nothing-Tried calls event d
  deliver_fenced-Tried event d w job e (some fence) f =
      deliver_kind-Tried calls event d _ (record { account = refl; job = e; fence = f })
        event.event_key w

  deliver_job-Tried :
      (event : OutboxClaim) (d : ℕ) (w : World) (o : Option Text)
      → delivery_job event ≡ o
      → Tried calls event d (deliver_job calls event o (w, no_locals calls d))
  unfolding deliver_job
  deliver_job-Tried event d w none e = nothing-Tried calls event d
  deliver_job-Tried event d w (some job) e =
      deliver_fenced-Tried event d w job e (job_fence event.event_key) refl

  -- How the whole `try` ends: without an exception exactly when the event was acknowledged.
  abbrev pub Ended : OutboxClaim → ℕ → Outcome (Unit {0}) × ((World × Locals Report) × Log) → Type 0
  Ended event d (o, ((w, l), log)) = IsTried calls event d (not (has_thrown o)) l log

  -- The acknowledgement behind what was done before it.
  add-IsTried :
      (event : OutboxClaim) (d : ℕ) (l : Locals Report) (log : Log)
      → IsTried calls event d false l log
      → (o : Outcome Bool)
      → IsTried calls event d
          (is_acknowledged calls (Event.acknowledged (outbox_ref event) o))
          l
          (log ++ Event.acknowledged (outbox_ref event) o ∷ [])
  add-IsTried event d l log h o =
      let e = Event.acknowledged (outbox_ref event) o in
      record {
        fenced = All-append (IsOf calls event) log (e ∷ []) h.fenced (refl, tt);
        undeleted = rw (gather-append (deletion calls) log (e ∷ []), h.undeleted) refl;
        unfailed = ground (arith, any-append (is_failed calls) log (e ∷ []), h.unfailed);
        acknowledged_is =
            ground (arith, any-append (is_acknowledged calls) log (e ∷ []), h.acknowledged_is);
        published_is = ground (arith, any-append (is_accepted calls) log (e ∷ []), h.published_is);
        prepared_is =
            h.prepared_is
            ∙ sym (gather-append (made_by calls) log (e ∷ []) ∙ append-nil (prepared_in calls log));
        counted = ground (arith, any-append (is_counted calls) log (e ∷ []), h.counted);
      }

  ack-Ended :
      (event : OutboxClaim) (d : ℕ) (l : Locals Report) (log : Log)
      → IsTried calls event d false l log
      → (o : Outcome Bool × World)
      → Ended event d (
          behind log (
            continue
              (o.0, ((o.1, l), Event.acknowledged (outbox_ref event) o.0 ∷ []))
              (after_ack calls)))
  unfolding after_ack
  ack-Ended event d l log h (threw, w) = add-IsTried event d l log h threw
  ack-Ended event d l log h (returned false, w) = add-IsTried event d l log h (returned false)
  ack-Ended event d l log h (returned true, w) = add-IsTried event d l log h (returned true)

  after-Ended :
      (event : OutboxClaim) (d : ℕ)
      → (r : Outcome (Unit {0}) × ((World × Locals Report) × Log)) → Tried calls event d r
      → Ended event d (
          continue r (λ _. λ scope.
            continue
              (call
                (Event.acknowledged (outbox_ref event))
                (outside calls (calls.ack_outbox (outbox_ref event)))
                scope)
              (after_ack calls)))
  after-Ended event d (threw, ((w, l), log)) h = h
  after-Ended event d (returned u, ((w, l), log)) h =
      ack-Ended event d l log h (calls.ack_outbox (outbox_ref event) w)

  pub try_event-Ended :
      (event : OutboxClaim) (d : ℕ) (w : World)
      → Ended event d (try_event calls event (w, no_locals calls d))
  unfolding try_event
  try_event-Ended event d w =
      after-Ended event d _ (deliver_job-Tried event d w (delivery_job event) refl)
