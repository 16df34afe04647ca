-- ===== src/Policy/Engine/Authorize/Granted.antt =====
-- packages/policy/src/engine.ts: the limits, actions and capabilities that an allowed assessment gets.
use mathlib.Core.Path.{subst}
use touchmyapi.Common.{
  ◌≤◌, ◌≡◌, sym, ap, ◌∙◌, true, List, [], ◌∷◌, none, some, ok, arith, map, All, Result-cases, inl,
  inr,
}
use touchmyapi.Js.{Value, Snapshot, field}
use touchmyapi.Policy.Ceiling.{LimitCeiling}
use touchmyapi.Policy.Entitlement.{Plan, rights_by_plan}
use touchmyapi.Policy.Limits.{reduce_limits}
use touchmyapi.Policy.Limits.Bounds.{IsWithin}
use touchmyapi.Policy.Engine.Snapshot.{snapshot_object}
use touchmyapi.Policy.Engine.Facts.{Platform, Registry, PolicyDecision, AuthorizedAction, allowed}
use touchmyapi.Policy.Engine.Playbook.{PlaybookLimits}
use touchmyapi.Policy.Engine.Playbook.Canonical.{parse_playbook-IsPublished, published_capabilities}
use touchmyapi.Policy.Engine.Authorize.{limits_result, cap_limits}
use touchmyapi.Policy.Engine.Authorize.Codes.{grant, authorize, effective_limits, effective_action}
use touchmyapi.Policy.Engine.Authorize.Authorized.{IsAuthorized}
use touchmyapi.Policy.Engine.Authorize.Sound.{authorize-IsAuthorized}

cap_limits-IsWithin :
    (value : LimitCeiling) (limits : PlaybookLimits)
    → let c = cap_limits value (some limits) in
      IsWithin c value
      × (c.duration_s ≤ limits.duration_s)
      × (c.concurrency ≤ limits.concurrency)
      × (c.rate_per_min ≤ limits.rate_per_min)
unfolding cap_limits
cap_limits-IsWithin value limits = ground arith

limits_result-within :
    (input : Value) (limits : PlaybookLimits) (c : LimitCeiling)
    → limits_result input (some limits) ≡ ok c
    → (value : LimitCeiling) × (reduce_limits input ≡ ok value)
      × (c ≡ cap_limits value (some limits))
unfolding limits_result
limits_result-within input limits c h = elim (Result-cases (reduce_limits input)) [
  | inl (value, e) ↦ (value, e, ground arith)
  | inr (code, e) ↦ ground arith
]

effective_limits-IsWithin :
    (plan : Plan) (c : LimitCeiling)
    → let e = effective_limits plan c in
      IsWithin e c × (e.credits ≤ (rights_by_plan plan).max_credits)
unfolding effective_limits
effective_limits-IsWithin plan c = ground arith

abbrev pub IsLimited : LimitCeiling → AuthorizedAction → Type 0
IsLimited l a = (a.requests ≤ l.rate_per_min) × (a.duration_s ≤ l.duration_s)

effective_actions-IsLimited :
    (l : LimitCeiling) (actions : List AuthorizedAction)
    → All (IsLimited l) (map (effective_action l) actions)
unfolding effective_action
effective_actions-IsLimited l [] = tt
effective_actions-IsLimited l (a ∷ actions) = (ground arith, effective_actions-IsLimited l actions)

-- What an allowed assessment of the request gets, under a plan.
pub record IsGranted (root : Snapshot) (plan : Plan) (d : PolicyDecision) : Type 0 where
  pub limits : LimitCeiling
  pub limits_are : d.limits ≡ some limits
  pub reduced : LimitCeiling
  pub reduced_is : reduce_limits (field root "limits") ≡ ok reduced
  pub within : IsWithin limits reduced
  pub duration : limits.duration_s ≤ 300
  pub concurrency : limits.concurrency ≤ 1
  pub rate : limits.rate_per_min ≤ 10
  pub credits : limits.credits ≤ (rights_by_plan plan).max_credits
  pub actions : All (IsLimited limits) d.actions
  pub capabilities : d.capabilities ≡ published_capabilities

module _ (platform : Platform) (registry : Registry) (root : Snapshot) (d : PolicyDecision)
    (a : IsAuthorized platform registry root d) where
  IsAuthorized-IsGranted : IsGranted root a.plan d
  unfolding grant allowed
  IsAuthorized-IsGranted =
      let l = effective_limits a.plan a.limits in
      let (value, read, capped) =
        limits_result-within (field root "limits") a.playbook.limits a.limits a.limits_read in
      let (below, dur, con, rat) = cap_limits-IsWithin value a.playbook.limits in
      let (within, credits) = effective_limits-IsWithin a.plan a.limits in
      let published = parse_playbook-IsPublished _ _ a.playbook a.playbook_read in
      let same = ap (λ c. c.duration_s) capped in
      let same' = ap (λ c. c.concurrency) capped in
      let same'' = ap (λ c. c.rate_per_min) capped in
      let same''' = ap (λ c. c.credits) capped in
      let pd = published.duration in
      let pc = published.concurrency in
      let pr = published.rate in
      record {
        limits = l;
        limits_are = ap (λ e. e.limits) a.decided;
        reduced = value;
        reduced_is = read;
        within = record {
          duration_s = omega arith;
          concurrency = omega arith;
          rate_per_min = omega arith;
          credits = omega arith;
        };
        duration = omega arith;
        concurrency = omega arith;
        rate = omega arith;
        credits = credits;
        actions =
            subst (All (IsLimited l)) (sym (ap (λ e. e.actions) a.decided))
              (effective_actions-IsLimited l a.playbook.actions);
        capabilities = ap (λ e. e.capabilities) a.decided ∙ published.capabilities;
      }

-- An allowed assessment gets, for the plan that the entitlement in the copy of its own input has,
-- limits that pass neither the reduction of the limits in that copy, nor 300
-- seconds, one connection and ten requests a minute, nor the credits of the plan; no action passes the rate or the duration, and the capabilities are the three of
-- the catalog.
pub authorize-IsGranted :
    (platform : Platform) (registry : Registry) (input : Value)
    → (authorize platform registry input).allowed ≡ true
    → (root : Snapshot) × (snapshot_object input none ≡ some root)
      × ((a : IsAuthorized platform registry root (authorize platform registry input)) × IsGranted
            root a.plan
            (authorize platform registry input))
authorize-IsGranted platform registry input h =
    let (root, copied, a) = authorize-IsAuthorized platform registry input h in
    (root, copied, (a, IsAuthorized-IsGranted platform registry root _ a))
