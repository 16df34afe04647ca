-- ===== src/Worker/Delivery/Rounds.antt =====
-- apps/worker-control/src/service.ts: the rounds of the delivery, one behind another.
use touchmyapi.Common.{ℕ, ◌≡◌, refl, List, [], ◌∷◌, ◌++◌}
use touchmyapi.Common.Effect.{Outcome, returned, threw, behind, continue}
use touchmyapi.Worker.Delivery.{
  OutboxClaim, Event, DeliveryCalls, deliver_event, deliver_events, run_delivery_cycle,
}
use touchmyapi.Worker.Delivery.Settled.{IsSettled, Settled, deliver_event-IsSettled}

module _ {World Manifest Report : Type 0} (calls : DeliveryCalls World Manifest Report) where
  abbrev Log : Type 0
  Log = List (Event Manifest Report)

  -- The rounds for the events in their order, from a count of delivered events on; a round that
  -- throws is the last one.
  pub data IsRounds : List OutboxClaim → ℕ → Outcome ℕ → Log → Type 0 where
    finished : (d : ℕ) → IsRounds [] d (returned d) []
    round :
        {event : OutboxClaim} {events : List OutboxClaim} {d n : ℕ} {o : Outcome ℕ} {log more : Log}
        → IsSettled calls event d (returned n) log
        → IsRounds events n o more
        → IsRounds (event ∷ events) d o (log ++ more)
    stopped :
        {event : OutboxClaim} {events : List OutboxClaim} {d : ℕ} {log : Log}
        → IsSettled calls event d threw log
        → IsRounds (event ∷ events) d threw log

  abbrev pub Rounds : List OutboxClaim → ℕ → Outcome ℕ × (World × Log) → Type 0
  Rounds events d (o, (w, log)) = IsRounds events d o log

  behind-Rounds :
      (event : OutboxClaim) (events : List OutboxClaim) (d n : ℕ) (log : Log)
      → IsSettled calls event d (returned n) log
      → (r : Outcome ℕ × (World × Log)) → Rounds events n r
      → Rounds (event ∷ events) d (behind log r)
  behind-Rounds event events d n log s (o, (w, more)) h = round s h

  after_round-Rounds :
      (event : OutboxClaim) (events : List OutboxClaim) (d : ℕ) (r : Outcome ℕ × (World × Log))
      → ((n : ℕ) (w : World) → Rounds events n (deliver_events calls events n w))
      → Settled calls event d r
      → Rounds (event ∷ events) d (continue r (deliver_events calls events))
  after_round-Rounds event events d (threw, (w, log)) rest s = stopped s
  after_round-Rounds event events d (returned n, (w, log)) rest s =
      behind-Rounds event events d n log s (deliver_events calls events n w) (rest n w)

  deliver_events-Rounds :
      (events : List OutboxClaim) (d : ℕ) (w : World)
      → Rounds events d (deliver_events calls events d w)
  unfolding deliver_events
  deliver_events-Rounds [] d w = finished d
  deliver_events-Rounds (event ∷ events) d w =
      after_round-Rounds event events d (deliver_event calls event d w)
        (deliver_events-Rounds events) (deliver_event-IsSettled calls event d w)

  -- What a cycle is, from how the claim of the events ended.
  abbrev pub Claimed : Outcome (List OutboxClaim) → Outcome ℕ × (World × Log) → Type 0
  Claimed threw (o, (w, log)) = (o ≡ threw) × (log ≡ [])
  Claimed (returned events) r = Rounds events 0 r

  after_claim-Claimed :
      (c : Outcome (List OutboxClaim)) (w : World)
      → Claimed c
          (elim c [ threw ↦ (threw, (w, [])) | returned events ↦ deliver_events calls events 0 w ])
  after_claim-Claimed threw w = (refl, refl)
  after_claim-Claimed (returned events) w = deliver_events-Rounds events 0 w

  -- A cycle either throws because the claim of the outbox events throws, and then makes no other
  -- call, or delivers the claimed events in their order, from a count of zero: each round is settled,
  -- the count runs through the rounds and is the cycle's result, and the first round whose mark of
  -- failure throws ends the cycle with that exception.
  pub run_delivery_cycle-Claimed :
      (w : World) → Claimed (calls.claim_outbox w).0 (run_delivery_cycle calls w)
  unfolding run_delivery_cycle
  run_delivery_cycle-Claimed w =
      after_claim-Claimed (calls.claim_outbox w).0 (calls.claim_outbox w).1
