-- ===== src/Policy/Engine/Authorize/Codes.antt =====
-- packages/policy/src/engine.ts: the codes that `authorizeUnsafe` adds, and what it decides on them.
use touchmyapi.Common.{
  Bool, true, false, List, [], ◌∷◌, ◌++◌, String, Option, none, some, Result, ok, err, Text, codes,
  text_eq, any, min, map, leb, ◌==◌, ◌&&◌, ◌||◌, not, is_empty, if◌then◌else◌,
}
use touchmyapi.Js.{Value, Snapshot, own}
use touchmyapi.Policy.Ceiling.{LimitCeiling}
use touchmyapi.Policy.Entitlement.{Plan, free_unverified, rights_by_plan}
use touchmyapi.Policy.Target.{NormalizedTarget, TargetError}
use touchmyapi.Policy.Rule.{CompiledScope}
use touchmyapi.Policy.Scope.{AddressError, matches_scope}
use touchmyapi.Policy.Engine.Snapshot.{snapshot_object}
use touchmyapi.Policy.Engine.Facts.{
  BlockCode, unknown_action, unknown_target_category, target_category_not_allowed, unknown_plan,
  invalid_context, scope_required, target_invalid, target_out_of_scope, resolved_addresses_required,
  forbidden_target, port_not_allowed, attestation_required, invalid_attestation,
  attestation_context_mismatch, verification_required, verification_method_not_allowed,
  verification_not_verified, verification_context_mismatch, verification_expired,
  plan_action_not_allowed, caller_execution_fields_not_allowed, Platform, Registry, PolicyContext,
  PolicyDecision, AuthorizedAction, add_codes, denied, allowed,
}
use touchmyapi.Policy.Engine.Context.{fingerprint_scope}
use touchmyapi.Policy.Engine.Evidence.{
  FactState, none_given, invalid, mismatch, expired, unverified, verified, method_not_allowed,
  AttestationState, required, invalid_facts, mismatched, attested,
}
use touchmyapi.Policy.Engine.Playbook.{ParsedPlaybook}
use touchmyapi.Policy.Engine.Authorize.{
  RuntimeAction, Parts, code_of, value_of, target_of, add_if, is_active, is_target_category,
  read_parts,
}

-- `keys.some((key) => isOwn(root, key))`
unfoldable pub has_any : List String → Snapshot → Bool
has_any keys root = any (λ key. elim (own root key) [ none ↦ false | some v ↦ true ]) keys

unfoldable pub root_codes : Option Snapshot → List BlockCode
root_codes none = target_invalid ∷ []
root_codes (some root) =
    add_if (has_any ("candidate" ∷ "candidateUrl" ∷ "url" ∷ "resolvedAddresses" ∷ []) root)
      target_invalid

unfoldable pub action_codes : Option RuntimeAction → List BlockCode
action_codes none = unknown_action ∷ []
action_codes (some a) = []

unfoldable pub category_codes : Text → List BlockCode
category_codes category =
    if not (is_target_category category)
    then unknown_target_category ∷ []
    else add_if (not (text_eq category (codes "surface"))) target_category_not_allowed

unfoldable pub target_codes :
    (malformed : Bool) → Option (Result TargetError NormalizedTarget) → List BlockCode
target_codes malformed (some (err TargetError.forbidden_target)) = forbidden_target ∷ []
target_codes malformed (some (ok t)) = add_if malformed target_invalid
target_codes malformed _ = target_invalid ∷ []

unfoldable pub port_codes : Option NormalizedTarget → List BlockCode
port_codes none = []
port_codes (some t) = add_if (not (t.port == 80 || t.port == 443)) port_not_allowed

abbrev pub is_out_of_scope : Platform → CompiledScope → Option Text → Option NormalizedTarget → Bool
is_out_of_scope platform scope (some candidate) (some t) =
    not (matches_scope platform.parse_url (some scope) candidate)
is_out_of_scope platform scope _ _ = false

unfoldable pub fingerprint_codes :
    Platform → CompiledScope → Result BlockCode PolicyContext → List BlockCode
fingerprint_codes platform scope (err e) = []
fingerprint_codes platform scope (ok context) =
    add_if (not (text_eq (fingerprint_scope platform scope) context.scope_fingerprint))
      invalid_context

unfoldable pub scope_codes : Platform → Parts → List BlockCode
scope_codes platform p = elim p.scope [
  | none ↦ scope_required ∷ target_invalid ∷ []
  | some scope ↦
      if is_out_of_scope platform scope p.candidate (target_of p.target)
      then target_out_of_scope ∷ []
      else fingerprint_codes platform scope p.context
]

unfoldable pub address_codes : Option (Result AddressError (List Text)) → List BlockCode
address_codes none = []
address_codes (some (ok ts)) = []
address_codes (some (err AddressError.resolved_addresses_required)) =
    resolved_addresses_required ∷ []
address_codes (some (err AddressError.forbidden_resolved_address)) = forbidden_target ∷ []
address_codes (some (err _)) = target_invalid ∷ []

unfoldable pub attestation_codes : AttestationState → List BlockCode
attestation_codes required = attestation_required ∷ []
attestation_codes mismatched = attestation_context_mismatch ∷ []
attestation_codes invalid_facts = invalid_attestation ∷ []
attestation_codes attested = []

unfoldable pub verification_codes : Option RuntimeAction → FactState → List BlockCode
verification_codes action method_not_allowed = verification_method_not_allowed ∷ []
verification_codes action mismatch = verification_context_mismatch ∷ []
verification_codes action expired = verification_expired ∷ []
verification_codes action invalid = verification_required ∷ []
verification_codes action unverified = add_if (is_active action) verification_not_verified
verification_codes action none_given = add_if (is_active action) verification_required
verification_codes action verified = []

unfoldable pub execution_codes : Option Snapshot → List BlockCode
execution_codes none = []
execution_codes (some root) =
    add_if (has_any ("actions" ∷ "capabilities" ∷ "commands" ∷ []) root)
      caller_execution_fields_not_allowed

abbrev pub is_free_unverified : Option Plan → Bool
is_free_unverified (some free_unverified) = true
is_free_unverified _ = false

-- All codes in the order of the calls of `add`.
unfoldable pub part_codes : Platform → Parts → List BlockCode
part_codes platform p =
    root_codes p.root
    ++ (action_codes p.action
        ++ (category_codes p.category
            ++ (code_of p.context
                ++ (code_of p.plan
                    ++ (target_codes p.malformed p.target
                        ++ (port_codes (target_of p.target)
                            ++ (scope_codes platform p
                                ++ (address_codes p.addresses
                                    ++ (code_of p.playbook
                                        ++ (attestation_codes p.attestation
                                            ++ (verification_codes p.action p.verification
                                                ++ (execution_codes p.root
                                                    ++ (code_of p.limits
                                                        ++ add_if
                                                            (is_active p.action
                                                            && is_free_unverified (value_of p.plan))
                                                            plan_action_not_allowed)))))))))))))

-- The ceiling with the credits of the plan.
unfoldable pub effective_limits : Plan → LimitCeiling → LimitCeiling
effective_limits plan limits =
    let rights = rights_by_plan plan in
    if leb limits.credits rights.max_credits
    then limits
    else record limits { credits = rights.max_credits }

unfoldable pub effective_action : LimitCeiling → AuthorizedAction → AuthorizedAction
effective_action limits action = record action {
  requests = min action.requests limits.rate_per_min;
  duration_s = min action.duration_s limits.duration_s;
}

unfoldable pub grant :
    ParsedPlaybook
    → LimitCeiling
    → Plan
    → NormalizedTarget
    → List Text
    → PolicyContext
    → PolicyDecision
grant playbook limits plan target addresses context =
    let effective = effective_limits plan limits in
    allowed (map (effective_action effective) playbook.actions) playbook.capabilities effective
      target addresses context.scope_fingerprint

-- The end of `authorizeUnsafe`, with no code added.
unfoldable pub conclude : Parts → PolicyDecision
conclude p = elim (value_of p.playbook) [
  | none ↦ denied []
  | some playbook ↦ elim (value_of p.limits) [
    | none ↦ denied []
    | some limits ↦ elim (value_of p.plan) [
      | none ↦ denied (unknown_plan ∷ [])
      | some plan ↦ elim p.action [
        | none ↦ denied (unknown_action ∷ [])
        | some action ↦ elim (target_of p.target) [
          | none ↦ denied (target_invalid ∷ [])
          | some target ↦ elim p.addresses [
            | some (ok addresses) ↦ elim (value_of p.context) [
              | none ↦ denied (target_invalid ∷ [])
              | some context ↦ grant playbook limits plan target addresses context
            ]
            | _ ↦ denied (target_invalid ∷ [])
          ]
        ]
      ]
    ]
  ]
]

unfoldable pub decide : Platform → Parts → PolicyDecision
decide platform p =
    let blocked = add_codes [] (part_codes platform p) in
    if is_empty blocked then conclude p else denied blocked

-- `authorize`; nothing that `authorizeUnsafe` calls throws, so its `catch` is not reached.
unfoldable pub authorize : Platform → Registry → Value → PolicyDecision
authorize platform registry input =
    decide platform (read_parts platform registry (snapshot_object input none))
