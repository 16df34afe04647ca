-- ===== src/Worker/Delivery/Cleaned.antt =====
-- apps/worker-control/src/service.ts: what the clean-up of a failed round asks to delete.
use touchmyapi.Common.{
  ◌≡◌, refl, Bool, true, false, List, [], ◌∷◌, Option, none, some, Text, All, any, not, is_empty,
  ◌&&◌, if◌then◌else◌, inl, inr, Bool-cases,
}
use touchmyapi.Common.Effect.{Outcome, returned, threw, has_thrown, pure, recover}
use touchmyapi.Worker.Delivery.{OutboxClaim, Event, DeliveryCalls, Locals, discard, clean_up}
use touchmyapi.Worker.Delivery.Steps.{
  IsOf, is_accepted, is_counted, prepared_in, deletions, is_failed, is_acknowledged,
}

abbrev pub is_provided : {A : Type 0} → Option A → Bool
is_provided none = false
is_provided (some a) = true

module _ {World Manifest Report : Type 0} (calls : DeliveryCalls World Manifest Report) where
  abbrev Log : Type 0
  Log = List (Event Manifest Report)

  -- What the clean-up of a failed round asks to delete.
  abbrev pub to_delete : OutboxClaim → Locals Report → List (Text × List Report)
  to_delete event l =
      if not l.is_published && not (is_empty l.prepared_reports) && is_provided calls.delete_reports
      then (event.account_id, l.prepared_reports) ∷ []
      else []

  -- What the clean-up of a failed round may note.
  pub record IsCleaning (event : OutboxClaim) (deleted : List (Text × List Report)) (log : Log)
      : Type 0 where
    pub fenced : All (IsOf calls event) log
    pub deletions_are : deletions calls log ≡ deleted
    pub unfailed : any (is_failed calls) log ≡ false
    pub unacknowledged : any (is_acknowledged calls) log ≡ false
    pub unaccepted : any (is_accepted calls) log ≡ false
    pub unprepared : prepared_in calls log ≡ []
    pub uncounted : any (is_counted calls) log ≡ false

  abbrev pub Cleaned :
      OutboxClaim → List (Text × List Report) → Outcome (Unit {0}) × (World × Log) → Type 0
  Cleaned event deleted (o, (w, log)) = (has_thrown o ≡ false) × IsCleaning event deleted log

  nothing-Cleaning : (event : OutboxClaim) → IsCleaning event [] []
  nothing-Cleaning event = record {
    fenced = tt;
    deletions_are = refl;
    unfailed = refl;
    unacknowledged = refl;
    unaccepted = refl;
    unprepared = refl;
    uncounted = refl;
  }

  deleted-Cleaning :
      (event : OutboxClaim) (reports : List Report) (o : Outcome (Unit {0}))
      → IsCleaning event
          ((event.account_id, reports) ∷ [])
          (Event.deleted event.account_id reports o ∷ [])
  deleted-Cleaning event reports o = record {
    fenced = (refl, tt);
    deletions_are = refl;
    unfailed = refl;
    unacknowledged = refl;
    unaccepted = refl;
    unprepared = refl;
    uncounted = refl;
  }

  delete-Cleaned :
      (event : OutboxClaim) (reports : List Report) (o : Outcome (Unit {0}) × World)
      → Cleaned event
          ((event.account_id, reports) ∷ [])
          (recover (o.0, (o.1, Event.deleted event.account_id reports o.0 ∷ [])) (pure tt))
  delete-Cleaned event reports (threw, w) = (refl, deleted-Cleaning event reports threw)
  delete-Cleaned event reports (returned u, w) = (refl, deleted-Cleaning event reports (returned u))

  discard-Cleaned :
      (event : OutboxClaim) (reports : List Report)
      → (delete : Option (Text → List Report → World → Outcome (Unit {0}) × World)) → (w : World)
      → Cleaned event
          (if is_provided delete then (event.account_id, reports) ∷ [] else [])
          (discard calls delete event.account_id reports w)
  unfolding discard
  discard-Cleaned event reports none w = (refl, nothing-Cleaning event)
  discard-Cleaned event reports (some delete) w =
      delete-Cleaned event reports (delete event.account_id reports w)

  pub clean_up-Cleaned :
      (event : OutboxClaim) (l : Locals Report) (w : World)
      → Cleaned event (to_delete event l) (clean_up calls event l w)
  unfolding clean_up
  clean_up-Cleaned event l w =
      elim (Bool-cases (not l.is_published && not (is_empty l.prepared_reports))) [
        | inl cleans ↦ rw cleans (discard-Cleaned event l.prepared_reports calls.delete_reports w)
        | inr keeps ↦ rw keeps (refl, nothing-Cleaning event)
      ]
