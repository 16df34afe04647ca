-- ===== src/Policy/Engine/Authorize/Complete.antt =====
-- packages/policy/src/engine.ts: the values behind a decision without codes.
use touchmyapi.Common.{
  ◌≡◌, refl, sym, ◌∙◌, true, List, [], ◌∷◌, Option, none, some, ok, Text, text_eq_iff, arith, inl,
  inr, Option-cases, not, if◌then◌else◌,
}
use touchmyapi.Policy.Ceiling.{LimitCeiling}
use touchmyapi.Policy.Entitlement.{Plan}
use touchmyapi.Policy.Target.{NormalizedTarget, normalize_external_url}
use touchmyapi.Policy.Rule.{CompiledScope}
use touchmyapi.Policy.Scope.{matches_scope}
use touchmyapi.Policy.Engine.Facts.{target_out_of_scope, Platform, PolicyContext}
use touchmyapi.Policy.Engine.Context.{fingerprint_scope}
use touchmyapi.Policy.Engine.Playbook.{ParsedPlaybook}
use touchmyapi.Policy.Engine.Authorize.{RuntimeAction, Parts, normalize_candidate}
use touchmyapi.Policy.Engine.Authorize.Codes.{
  action_codes, scope_codes, fingerprint_codes, grant, conclude,
}
use touchmyapi.Policy.Engine.Authorize.Clear.{IsClear, target_codes-nil, code_of-nil}

-- The values behind a clear list of codes.
pub record IsComplete (platform : Platform) (p : Parts) : Type 0 where
  pub action : RuntimeAction
  pub action_is : p.action ≡ some action
  pub context : PolicyContext
  pub context_is : p.context ≡ ok context
  pub plan : Plan
  pub plan_is : p.plan ≡ ok plan
  pub target : NormalizedTarget
  pub target_is : p.target ≡ some (ok target)
  pub playbook : ParsedPlaybook
  pub playbook_is : p.playbook ≡ ok playbook
  pub limits : LimitCeiling
  pub limits_is : p.limits ≡ ok limits

action_codes-nil :
    (r : Option RuntimeAction) → action_codes r ≡ [] → (a : RuntimeAction) × (r ≡ some a)
unfolding action_codes
action_codes-nil none h = cc
action_codes-nil (some s) h = (s, refl)

pub IsClear-IsComplete :
    (platform : Platform) (p : Parts) → IsClear platform p → IsComplete platform p
IsClear-IsComplete platform p h =
    let (action, action_is) = action_codes-nil p.action h.action_codes in
    let (context, context_is) = code_of-nil p.context h.context_codes in
    let (plan, plan_is) = code_of-nil p.plan h.plan_codes in
    let (well, (target, target_is)) = target_codes-nil p.malformed p.target h.target_codes in
    let (playbook, playbook_is) = code_of-nil p.playbook h.playbook_codes in
    let (limits, limits_is) = code_of-nil p.limits h.limit_codes in
    record {
      action = action;
      action_is = action_is;
      context = context;
      context_is = context_is;
      plan = plan;
      plan_is = plan_is;
      target = target;
      target_is = target_is;
      playbook = playbook;
      playbook_is = playbook_is;
      limits = limits;
      limits_is = limits_is;
    }

-- The decision on complete parts.
pub conclude-IsComplete :
    (platform : Platform) (p : Parts) (c : IsComplete platform p) (addresses : List Text)
    → p.addresses ≡ some (ok addresses)
    → conclude p ≡ grant c.playbook c.limits c.plan c.target addresses c.context
unfolding conclude
conclude-IsComplete platform p c addresses h =
    rw (c.playbook_is, c.limits_is, c.plan_is, c.action_is, c.target_is, h, c.context_is) refl

inside_codes-nil :
    (platform : Platform) (scope : CompiledScope) (candidate : Text) (context : PolicyContext)
    → (if not (matches_scope platform.parse_url (some scope) candidate)
        then target_out_of_scope ∷ []
        else fingerprint_codes platform scope (ok context))
      ≡ []
    → (matches_scope platform.parse_url (some scope) candidate ≡ true)
      × (fingerprint_scope platform scope ≡ context.scope_fingerprint)
unfolding fingerprint_codes
inside_codes-nil platform scope candidate context h =
    ground (arith, text_eq_iff (fingerprint_scope platform scope) context.scope_fingerprint)

scope_codes-found :
    (platform : Platform) (p : Parts) (scope : CompiledScope) (candidate : Text)
    (target : NormalizedTarget) (context : PolicyContext)
    → p.scope ≡ some scope
    → p.candidate ≡ some candidate
    → p.target ≡ some (ok target)
    → p.context ≡ ok context
    → scope_codes platform p ≡ (
        if not (matches_scope platform.parse_url (some scope) candidate)
        then target_out_of_scope ∷ []
        else fingerprint_codes platform scope (ok context))
unfolding scope_codes
scope_codes-found platform p scope candidate target context e0 e1 e2 e3 = rw (e0, e1, e2, e3) refl

pub scope_codes-nil :
    (platform : Platform) (p : Parts) (candidate : Text) (target : NormalizedTarget)
    (context : PolicyContext)
    → p.candidate ≡ some candidate
    → p.target ≡ some (ok target)
    → p.context ≡ ok context
    → scope_codes platform p ≡ []
    → (scope : CompiledScope) × (p.scope ≡ some scope)
      × (matches_scope platform.parse_url (some scope) candidate ≡ true)
      × (fingerprint_scope platform scope ≡ context.scope_fingerprint)
unfolding scope_codes
scope_codes-nil platform p candidate target context e1 e2 e3 h = elim (Option-cases p.scope) [
  | inl missing ↦ ground arith
  | inr (scope, found) ↦
      let (inside, same) =
        inside_codes-nil platform scope candidate context
          (sym (scope_codes-found platform p scope candidate target context found e1 e2 e3) ∙ h) in
      (scope, found, inside, same)
]

pub normalize_candidate-some :
    (platform : Platform) (o : Option Text) (target : NormalizedTarget)
    → normalize_candidate platform o ≡ some (ok target)
    → (t : Text) × (o ≡ some t) × (normalize_external_url platform.parse_url t ≡ ok target)
normalize_candidate-some platform none target h = cc
normalize_candidate-some platform (some t) target h = (t, refl, cc)
