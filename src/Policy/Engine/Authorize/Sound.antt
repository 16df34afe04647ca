-- ===== src/Policy/Engine/Authorize/Sound.antt =====
-- packages/policy/src/engine.ts: what an assessment that `authorize` allows has shown.
use mathlib.Core.Path.{subst, subst₂, subst₃}
use mathlib.Core.Bool.{false≢true}
use touchmyapi.Common.{
  ◌≡◌, ◌≢◌, refl, ap, sym, ◌∙◌, true, List, [], Option, none, some, ok, Text, map, ◌&&◌,
}
use touchmyapi.Js.{Value, Snapshot, field}
use touchmyapi.Policy.Entitlement.{free_unverified}
use touchmyapi.Policy.Scope.{validate_resolved_addresses}
use touchmyapi.Policy.Scope.Matching.{matches_scope_iff}
use touchmyapi.Policy.Engine.Snapshot.{snapshot_object}
use touchmyapi.Policy.Engine.Facts.{Platform, Registry, PolicyDecision}
use touchmyapi.Policy.Engine.Entitlement.{parse_entitlement}
use touchmyapi.Policy.Engine.Evidence.{
  parse_target, verified, parse_verification, attested, parse_attestation,
}
use touchmyapi.Policy.Engine.Playbook.{parse_playbook}
use touchmyapi.Policy.Engine.Authorize.{
  active_external, Parts, value_of, target_of, is_active, or_none, limits_result, resolve_target,
  is_given, playbook_limits, read_parts,
}
use touchmyapi.Policy.Engine.Authorize.Attested.{parse_attestation-IsAttested}
use touchmyapi.Policy.Engine.Authorize.Verified.{parse_verification-IsVerified}
use touchmyapi.Policy.Engine.Authorize.Entitled.{parse_entitlement-IsEntitled}
use touchmyapi.Policy.Engine.Authorize.Codes.{
  root_codes, execution_codes, address_codes, port_codes, verification_codes, is_free_unverified,
  conclude, decide, authorize,
}
use touchmyapi.Policy.Engine.Authorize.Clear.{
  IsClear, part_codes-IsClear, decide-allowed, category_codes-nil, port_codes-nil,
  address_codes-nil, attestation_codes-nil, verification_codes-nil, add_if-nil,
}
use touchmyapi.Policy.Engine.Authorize.Authorized.{IsAuthorized}
use touchmyapi.Policy.Engine.Authorize.Complete.{
  IsComplete, IsClear-IsComplete, conclude-IsComplete, scope_codes-nil, normalize_candidate-some,
}

-- Allowed parts, at the copy of a request.
module _ (platform : Platform) (registry : Registry) (root : Snapshot) where
  abbrev parts : Parts
  parts = read_parts platform registry (some root)

  module _ (clear : IsClear platform parts) (c : IsComplete platform parts) where
    clear_attestation :
        parse_attestation platform (field root "attestation") (some c.context) (some c.target) true
        ≡ attested
    unfolding read_parts
    clear_attestation =
        subst₃ (λ x t g. parse_attestation platform (field root "attestation") x t g ≡ attested)
          (ap value_of c.context_is) (ap target_of c.target_is)
          (ap (λ r. is_given platform (value_of r)) c.playbook_is)
          (attestation_codes-nil parts.attestation clear.attestation_codes)

    clear_verification :
        c.action ≡ active_external
        → parse_verification platform (field root "verification") (some c.context) (some c.target)
          ≡ verified
    unfolding read_parts
    clear_verification active =
        let codes_are =
          subst (λ a. verification_codes a parts.verification ≡ []) (c.action_is ∙ ap some active)
            clear.verification_codes in
        subst₂ (λ x t. parse_verification platform (field root "verification") x t ≡ verified)
          (ap value_of c.context_is) (ap target_of c.target_is)
          (verification_codes-nil parts.verification codes_are)

    clear_plan : c.action ≡ active_external → c.plan ≢ free_unverified
    clear_plan active free =
        let plan_is = c.plan_is ∙ ap ok free in
        let action_is = c.action_is ∙ ap some active in
        let both : (is_active parts.action && is_free_unverified (value_of parts.plan)) ≡ true =
          rw (plan_is, action_is) refl in
        false≢true (sym clear.plan_action ∙ both)

    clear_addresses :
        (addresses : List Text) × (parts.addresses ≡ some (ok addresses))
        × (validate_resolved_addresses platform.parse_url (Value.str c.target.hostname) (
              some
                (map Value.str (or_none platform (parse_target (field root "target")).addresses)))
            ≡ ok addresses)
    unfolding read_parts
    clear_addresses =
        let given = (parse_target (field root "target")).addresses in
        let resolved = ap (λ t. resolve_target platform t given) (ap target_of c.target_is) in
        let (addresses, e) =
          address_codes-nil _ (subst (λ o. address_codes o ≡ []) resolved clear.address_codes) in
        (addresses, resolved ∙ ap some e, e)

  pub clear_parts :
      IsClear platform parts
      → (d : PolicyDecision) → d ≡ conclude parts
      → IsAuthorized platform registry root d
  unfolding read_parts root_codes execution_codes
  clear_parts clear d decided =
      let c = IsClear-IsComplete platform parts clear in
      let context_is = ap value_of c.context_is in
      let target_is = ap target_of c.target_is in
      let category_is = category_codes-nil parts.category clear.category_codes in
      let (candidate, candidate_is, normal) =
        normalize_candidate-some platform parts.candidate c.target c.target_is in
      let (scope, scope_is, inside, same) =
        scope_codes-nil platform parts candidate c.target c.context candidate_is c.target_is
          c.context_is clear.scope_codes in
      let (addresses, addresses_is, valid) = clear_addresses clear c in
      let plan_is =
        subst (λ x. parse_entitlement platform registry (field root "entitlement") x ≡ ok c.plan)
          context_is c.plan_is in
      record {
        action = c.action;
        action_read = c.action_is;
        category_read = category_is;
        no_target_keys = add_if-nil _ _ clear.root_codes;
        no_execution_keys = add_if-nil _ _ clear.execution_codes;
        context = c.context;
        context_read = c.context_is;
        plan = c.plan;
        plan_read = plan_is;
        candidate = candidate;
        candidate_read = candidate_is;
        target = c.target;
        target_read = normal;
        web_port =
            port_codes-nil c.target (subst (λ t. port_codes t ≡ []) target_is clear.port_codes);
        scope = scope;
        scope_read = scope_is;
        in_scope = (matches_scope_iff platform.parse_url scope candidate).0 inside;
        same_scope = same;
        addresses = addresses;
        addresses_read = valid;
        playbook = c.playbook;
        playbook_read =
            subst (λ t. parse_playbook (field root "playbook") t ≡ ok c.playbook) category_is
              c.playbook_is;
        attestation_holds = clear_attestation clear c;
        verification_holds = clear_verification clear c;
        plan_holds = clear_plan clear c;
        limits = c.limits;
        limits_read =
            subst (λ o. limits_result (field root "limits") o ≡ ok c.limits)
              (ap (playbook_limits platform) c.playbook_is) c.limits_is;
        attestation_agrees =
            parse_attestation-IsAttested platform (field root "attestation") c.context c.target
              (clear_attestation clear c);
        verification_agrees = λ active.
            parse_verification-IsVerified platform (field root "verification") c.context c.target
              (clear_verification clear c active);
        entitled =
            parse_entitlement-IsEntitled platform registry (field root "entitlement") c.context
              c.plan plan_is;
        decided = decided ∙ conclude-IsComplete platform parts c addresses addresses_is;
      }

IsAuthorized-copy :
    (platform : Platform) (registry : Registry) (s : Option Snapshot)
    → let d = decide platform (read_parts platform registry s) in
      d.allowed ≡ true → (root : Snapshot) × (s ≡ some root) × IsAuthorized platform registry root d
unfolding read_parts root_codes
IsAuthorized-copy platform registry none h =
    let (clear, e) = decide-allowed platform (read_parts platform registry none) h in
    let c = part_codes-IsClear platform (read_parts platform registry none) clear in
    let clash = c.root_codes in cc
IsAuthorized-copy platform registry (some root) h =
    let (clear, e) = decide-allowed platform (read_parts platform registry (some root)) h in
    let c = part_codes-IsClear platform (read_parts platform registry (some root)) clear in
    (root, refl, clear_parts platform registry root c _ e)

-- An assessment is allowed only where the request is an object that names neither a target nor
-- actions of its own at the root, its action is known and its category is `surface`; its context and
-- scope are registered, and the scope's fingerprint is the context's; its entitlement is the
-- account's own, in force at the evaluation and of a source that suits its plan; its target
-- normalises, has a web port and lies in the scope; its addresses, playbook and attestation are
-- accepted, and the attestation names the assessment, the origin of the target and the fingerprint of
-- the scope; an active action has a plan other than `free_unverified` and a verification over HTTP
-- that names the same three and is in force; and the decision is what the playbook grants.
pub authorize-IsAuthorized :
    (platform : Platform) (registry : Registry) (input : Value)
    → (authorize platform registry input).allowed ≡ true
    → (root : Snapshot) × (snapshot_object input none ≡ some root)
      × IsAuthorized platform registry root (authorize platform registry input)
unfolding authorize
authorize-IsAuthorized platform registry input h =
    IsAuthorized-copy platform registry (snapshot_object input none) h
