-- ===== src/Policy/Engine/Authorize/Authorized.antt =====
-- packages/policy/src/engine.ts: what an allowed assessment has shown.
use touchmyapi.Common.{
  ◌≡◌, ◌≢◌, true, false, List, [], ◌∷◌, String, some, ok, Text, codes, ◌⊎◌, map,
}
use touchmyapi.Js.{Value, Snapshot, field}
use touchmyapi.Policy.Ceiling.{LimitCeiling}
use touchmyapi.Policy.Entitlement.{Plan, free_unverified}
use touchmyapi.Policy.Target.{NormalizedTarget, normalize_external_url}
use touchmyapi.Policy.Rule.{CompiledScope}
use touchmyapi.Policy.Scope.{validate_resolved_addresses}
use touchmyapi.Policy.Scope.Matching.{IsInScope}
use touchmyapi.Policy.Engine.Facts.{Platform, Registry, PolicyContext, PolicyDecision}
use touchmyapi.Policy.Engine.Context.{parse_context, fingerprint_scope}
use touchmyapi.Policy.Engine.Entitlement.{parse_entitlement}
use touchmyapi.Policy.Engine.Evidence.{
  parse_target, verified, parse_verification, attested, parse_attestation,
}
use touchmyapi.Policy.Engine.Playbook.{ParsedPlaybook, parse_playbook}
use touchmyapi.Policy.Engine.Authorize.{
  RuntimeAction, active_external, action_of, text_or_empty, scope_of, or_none, limits_result,
}
use touchmyapi.Policy.Engine.Authorize.Attested.{IsAttested}
use touchmyapi.Policy.Engine.Authorize.Verified.{IsVerified}
use touchmyapi.Policy.Engine.Authorize.Entitled.{IsEntitled}
use touchmyapi.Policy.Engine.Authorize.Codes.{has_any, grant}

abbrev pub target_keys : List String
target_keys = "candidate" ∷ "candidateUrl" ∷ "url" ∷ "resolvedAddresses" ∷ []

abbrev pub execution_keys : List String
execution_keys = "actions" ∷ "capabilities" ∷ "commands" ∷ []

-- What the engine reads at the keys of a request, and that all of it agrees.
pub record IsAuthorized (platform : Platform) (registry : Registry) (root : Snapshot)
    (d : PolicyDecision) : Type 0 where
  pub action : RuntimeAction
  pub action_read : action_of (field root "action") ≡ some action
  pub category_read : text_or_empty (field root "targetCategory") ≡ codes "surface"
  pub no_target_keys : has_any target_keys root ≡ false
  pub no_execution_keys : has_any execution_keys root ≡ false
  pub context : PolicyContext
  pub context_read : parse_context platform registry (field root "context") ≡ ok context
  pub plan : Plan
  pub plan_read :
      parse_entitlement platform registry (field root "entitlement") (some context) ≡ ok plan
  pub candidate : Text
  pub candidate_read : (parse_target (field root "target")).candidate ≡ some candidate
  pub target : NormalizedTarget
  pub target_read : normalize_external_url platform.parse_url candidate ≡ ok target
  pub web_port : (target.port ≡ 80) ⊎ (target.port ≡ 443)
  pub scope : CompiledScope
  pub scope_read : scope_of registry (field root "scope") ≡ some scope
  pub in_scope : IsInScope platform.parse_url scope candidate
  pub same_scope : fingerprint_scope platform scope ≡ context.scope_fingerprint
  pub addresses : List Text
  pub addresses_read :
      validate_resolved_addresses platform.parse_url
        (Value.str target.hostname)
        (some (map Value.str (or_none platform (parse_target (field root "target")).addresses)))
      ≡ ok addresses
  pub playbook : ParsedPlaybook
  pub playbook_read : parse_playbook (field root "playbook") (codes "surface") ≡ ok playbook
  pub attestation_holds :
      parse_attestation platform (field root "attestation") (some context) (some target) true
      ≡ attested
  pub verification_holds :
      action ≡ active_external
      → parse_verification platform (field root "verification") (some context) (some target)
        ≡ verified
  pub plan_holds : action ≡ active_external → plan ≢ free_unverified
  pub limits : LimitCeiling
  pub limits_read : limits_result (field root "limits") (some playbook.limits) ≡ ok limits
  pub attestation_agrees : IsAttested platform (field root "attestation") context target
  pub verification_agrees :
      action ≡ active_external → IsVerified platform (field root "verification") context target
  pub entitled : IsEntitled platform registry (field root "entitlement") context plan
  pub decided : d ≡ grant playbook limits plan target addresses context
