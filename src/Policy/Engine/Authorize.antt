-- ===== src/Policy/Engine/Authorize.antt =====
-- packages/policy/src/engine.ts: the decision. `authorize` reads every part of the request, collects
-- the codes of all that is wrong, and allows the assessment only where there is none.
pub mod Codes
pub mod Clear
pub mod Attested
pub mod Verified
pub mod Entitled
pub mod Authorized
pub mod Complete
pub mod Sound
pub mod Refusal
pub mod Granted
use touchmyapi.Common.{
  ℕ, Bool, true, false, List, [], ◌∷◌, ◌++◌, String, Option, none, some, Result, ok, err, Text,
  codes, text_eq, mem_text, any, min, map, leb, ◌==◌, ◌&&◌, ◌||◌, not, is_empty, if◌then◌else◌,
}
use touchmyapi.Js.{Value, Snapshot, own, field, as_str, is_nullish, undefined}
use touchmyapi.Policy.Ceiling.{LimitCeiling}
use touchmyapi.Policy.Limits.{LimitErrorCode, reduce_limits}
use touchmyapi.Policy.Entitlement.{Plan, free_unverified, rights_by_plan}
use touchmyapi.Policy.Target.{NormalizedTarget, TargetError, normalize_external_url}
use touchmyapi.Policy.Rule.{CompiledScope}
use touchmyapi.Policy.Scope.{AddressError, matches_scope, validate_resolved_addresses}
use touchmyapi.Policy.Engine.Snapshot.{snapshot_object}
use touchmyapi.Policy.Engine.Facts.{
  BlockCode, unknown_action, unknown_target_category, target_category_not_allowed, unknown_plan,
  invalid_context, scope_required, target_invalid, target_out_of_scope, resolved_addresses_required,
  forbidden_target, port_not_allowed, attestation_required, invalid_attestation,
  attestation_context_mismatch, verification_required, verification_method_not_allowed,
  verification_not_verified, verification_context_mismatch, verification_expired,
  plan_action_not_allowed, invalid_limits, invalid_egress, caller_execution_fields_not_allowed,
  Platform, Registry, PolicyContext, PolicyDecision, AuthorizedAction, add_codes, denied, allowed,
  find_value,
}
use touchmyapi.Policy.Engine.Context.{parse_context, fingerprint_scope}
use touchmyapi.Policy.Engine.Entitlement.{parse_entitlement}
use touchmyapi.Policy.Engine.Evidence.{
  ParsedTarget, parse_target, is_scope_malformed, FactState, none_given, invalid, mismatch, expired,
  unverified, verified, method_not_allowed, parse_verification, AttestationState, required,
  invalid_facts, mismatched, attested, parse_attestation,
}
use touchmyapi.Policy.Engine.Playbook.{PlaybookLimits, ParsedPlaybook, parse_playbook}

pub data RuntimeAction : Type 0 where
  passive_external active_external : RuntimeAction

-- `root[key]`, where an invalid root counts as an empty one.
abbrev pub root_at : Option Snapshot → String → Value
root_at none key = undefined
root_at (some root) key = field root key

unfoldable pub action_of : Value → Option RuntimeAction
action_of (Value.str t) =
    if text_eq t (codes "passive_external")
    then some passive_external
    else if text_eq t (codes "active_external")
    then some active_external
    else none
action_of _ = none

-- `category ?? ""`
abbrev pub text_or_empty : Value → Text
text_or_empty (Value.str t) = t
text_or_empty _ = []

-- `TARGET_CATEGORIES`
unfoldable pub is_target_category : Text → Bool
is_target_category t =
    mem_text t (codes "web" ∷ codes "api" ∷ codes "surface" ∷ codes "genai" ∷ codes "internal" ∷ [])

abbrev pub value_of {ℓ κ} : {E : Type ℓ} {A : Type κ} → Result E A → Option A
value_of (ok a) = some a
value_of (err e) = none

abbrev pub code_of {ℓ} : {A : Type ℓ} → Result BlockCode A → List BlockCode
code_of (ok a) = []
code_of (err e) = e ∷ []

-- `if (test) add(code)`
abbrev pub add_if : Bool → BlockCode → List BlockCode
add_if true code = code ∷ []
add_if false code = []

abbrev pub is_active : Option RuntimeAction → Bool
is_active (some active_external) = true
is_active _ = false

-- The code of a failed reduction.
unfoldable pub limit_code : LimitErrorCode → BlockCode
limit_code LimitErrorCode.invalid_egress = invalid_egress
limit_code _ = invalid_limits

unfoldable pub cap_limits : LimitCeiling → Option PlaybookLimits → LimitCeiling
cap_limits value none = value
cap_limits value (some limits) = record {
  duration_s = min value.duration_s limits.duration_s;
  concurrency = min value.concurrency limits.concurrency;
  rate_per_min = min value.rate_per_min limits.rate_per_min;
  credits = value.credits;
}

unfoldable pub limits_result : Value → Option PlaybookLimits → Result BlockCode LimitCeiling
limits_result input playbook_limits =
    if is_nullish input then err invalid_limits else elim (reduce_limits input) [
      | err e ↦ err (limit_code e)
      | ok value ↦ ok (cap_limits value playbook_limits)
    ]

-- What `authorizeUnsafe` has read of the request.
pub record Parts : Type 0 where
  pub root : Option Snapshot
  pub action : Option RuntimeAction
  pub category : Text
  pub context : Result BlockCode PolicyContext
  pub plan : Result BlockCode Plan
  pub candidate : Option Text
  pub malformed : Bool
  pub target : Option (Result TargetError NormalizedTarget)
  pub scope : Option CompiledScope
  pub addresses : Option (Result AddressError (List Text))
  pub playbook : Result BlockCode ParsedPlaybook
  pub attestation : AttestationState
  pub verification : FactState
  pub limits : Result BlockCode LimitCeiling

abbrev pub target_of : Option (Result TargetError NormalizedTarget) → Option NormalizedTarget
target_of none = none
target_of (some r) = value_of r

-- A scope object of the right shape that `compileScope` has made.
unfoldable pub scope_of : Registry → Value → Option CompiledScope
scope_of registry v = elim (snapshot_object v (some ("inclusions" ∷ "exclusions" ∷ []))) [
  | none ↦ none
  | some shape ↦ elim (own shape "inclusions") [
    | none ↦ none
    | some inclusions ↦ elim (own shape "exclusions") [
      | none ↦ none
      | some exclusions ↦ find_value v registry.scopes
    ]
  ]
]

module _ (platform : Platform) where
  abbrev pub normalize_candidate : Option Text → Option (Result TargetError NormalizedTarget)
  normalize_candidate none = none
  normalize_candidate (some t) = some (normalize_external_url platform.parse_url t)

  abbrev pub or_none : Option (List Text) → List Text
  or_none none = []
  or_none (some ts) = ts

  abbrev pub resolve_target :
      Option NormalizedTarget → Option (List Text) → Option (Result AddressError (List Text))
  resolve_target none addresses = none
  resolve_target (some t) addresses = some (
      validate_resolved_addresses platform.parse_url (Value.str t.hostname)
        (some (map Value.str (or_none addresses))))

  abbrev pub is_given {ℓ} : {A : Type ℓ} → Option A → Bool
  is_given none = false
  is_given (some a) = true

  -- `parsedPlaybook.value?.limits`
  abbrev pub playbook_limits : Result BlockCode ParsedPlaybook → Option PlaybookLimits
  playbook_limits (err e) = none
  playbook_limits (ok p) = some p.limits

  unfoldable pub read_parts : Registry → Option Snapshot → Parts
  read_parts registry root =
      let category = text_or_empty (root_at root "targetCategory") in
      let context = parse_context platform registry (root_at root "context") in
      let parsed = parse_target (root_at root "target") in
      let normalized = normalize_candidate parsed.candidate in
      let playbook = parse_playbook (root_at root "playbook") category in
      record {
        root = root;
        action = action_of (root_at root "action");
        category = category;
        context = context;
        plan = parse_entitlement platform registry (root_at root "entitlement") (value_of context);
        candidate = parsed.candidate;
        malformed = parsed.malformed || is_scope_malformed (root_at root "scope");
        target = normalized;
        scope = scope_of registry (root_at root "scope");
        addresses = resolve_target (target_of normalized) parsed.addresses;
        playbook = playbook;
        attestation =
            parse_attestation platform (root_at root "attestation") (value_of context)
              (target_of normalized) (is_given (value_of playbook));
        verification =
            parse_verification platform (root_at root "verification") (value_of context)
              (target_of normalized);
        limits = limits_result (root_at root "limits") (playbook_limits playbook);
      }
