-- ===== src/Worker/Execution/Heartbeat.antt =====
-- apps/worker-control/src/service.ts: the rounds of the heartbeat.
use mathlib.Core.Path.{subst}
use mathlib.Core.Bool.{true≢false}
use touchmyapi.Common.{
  ℕ, zero, suc, ◌≡◌, refl, sym, Bool, true, false, List, [], ◌∷◌, arith, All, any,
}
use touchmyapi.Common.Effect.{Outcome, returned, threw, behind}
use touchmyapi.Worker.Execution.{ExecutionRef, Event, ExecutionCalls, heartbeats}

module _ {World Job Manifest : Type 0} (calls : ExecutionCalls World Job Manifest) where
  abbrev Log : Type 0
  Log = List (Event Job Manifest)

  abbrev pub log_of : {A : Type 0} → Outcome A × (World × Log) → Log
  log_of (r, (w, log)) = log

  -- The lease is still held.
  abbrev pub IsHeld : ExecutionRef → Event Job Manifest → Type 0
  IsHeld ref e = e ≡ Event.beat ref (returned true)

  abbrev pub IsBeat : ExecutionRef → Event Job Manifest → Type 0
  IsBeat ref e = (o : Outcome Bool) × (e ≡ Event.beat ref o)

  -- A round of the heartbeat that lost the lease.
  abbrev pub is_lost : Event Job Manifest → Bool
  is_lost (Event.beat ref (returned true)) = false
  is_lost (Event.beat ref _) = true
  is_lost _ = false

  -- What can be said of the rounds of a heartbeat.
  pub record IsHeartbeat (ref : ExecutionRef) (r : Outcome Bool × (World × Log)) : Type 0 where
    pub lost : Bool
    pub ended : r.0 ≡ returned lost
    pub found : any is_lost (log_of r) ≡ lost
    pub only : All (IsBeat ref) (log_of r)
    pub held : lost ≡ false → All (IsHeld ref) (log_of r)

  heartbeats-held :
      (ref : ExecutionRef) (n : ℕ) (w w' : World)
      → calls.heartbeat_job ref w ≡ (returned true, w')
      → heartbeats calls ref (suc n) w
        ≡ behind (Event.beat ref (returned true) ∷ []) (heartbeats calls ref n w')
  unfolding heartbeats
  heartbeats-held ref n w w' h = rw h refl

  heartbeats-lost :
      (ref : ExecutionRef) (n : ℕ) (w w' : World)
      → calls.heartbeat_job ref w ≡ (returned false, w')
      → heartbeats calls ref (suc n) w ≡ (returned true, (w', Event.beat ref (returned false) ∷ []))
  unfolding heartbeats
  heartbeats-lost ref n w w' h = rw h refl

  heartbeats-threw :
      (ref : ExecutionRef) (n : ℕ) (w w' : World)
      → calls.heartbeat_job ref w ≡ (threw, w')
      → heartbeats calls ref (suc n) w ≡ (returned true, (w', Event.beat ref threw ∷ []))
  unfolding heartbeats
  heartbeats-threw ref n w w' h = rw h refl

  behind-IsHeartbeat :
      (ref : ExecutionRef) (r : Outcome Bool × (World × Log))
      → IsHeartbeat ref r
      → IsHeartbeat ref (behind (Event.beat ref (returned true) ∷ []) r)
  behind-IsHeartbeat ref r h = record {
    lost = h.lost;
    ended = h.ended;
    found = h.found;
    only = ((returned true, refl), h.only);
    held = λ e. (refl, h.held e);
  }

  stopped-IsHeartbeat :
      (ref : ExecutionRef) (o : Outcome Bool) (w : World)
      → is_lost (Event.beat ref o) ≡ true
      → IsHeartbeat ref (returned true, (w, Event.beat ref o ∷ []))
  stopped-IsHeartbeat ref o w h = record {
    lost = true;
    ended = refl;
    found = ground arith;
    only = ((o, refl), tt);
    held = λ e. absurd (true≢false e);
  }

  heartbeats-round :
      (ref : ExecutionRef) (n : ℕ) (w : World) (r : Outcome Bool × World)
      → calls.heartbeat_job ref w ≡ r
      → ((w' : World) → IsHeartbeat ref (heartbeats calls ref n w'))
      → IsHeartbeat ref (heartbeats calls ref (suc n) w)
  heartbeats-round ref n w (returned true, w') h later =
      subst (IsHeartbeat ref) (sym (heartbeats-held ref n w w' h))
        (behind-IsHeartbeat ref _ (later w'))
  heartbeats-round ref n w (returned false, w') h later =
      subst (IsHeartbeat ref) (sym (heartbeats-lost ref n w w' h))
        (stopped-IsHeartbeat ref (returned false) w' refl)
  heartbeats-round ref n w (threw, w') h later =
      subst (IsHeartbeat ref) (sym (heartbeats-threw ref n w w' h))
        (stopped-IsHeartbeat ref threw w' refl)

  pub heartbeats-IsHeartbeat :
      (ref : ExecutionRef) (n : ℕ) (w : World) → IsHeartbeat ref (heartbeats calls ref n w)
  unfolding heartbeats
  heartbeats-IsHeartbeat ref zero w = record {
    lost = false;
    ended = refl;
    found = refl;
    only = tt;
    held = λ e. tt;
  }
  heartbeats-IsHeartbeat ref (suc n) w =
      heartbeats-round ref n w (calls.heartbeat_job ref w) refl (heartbeats-IsHeartbeat ref n)
