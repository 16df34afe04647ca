-- ===== src/Tests/Membership.antt =====
-- Memberships at concrete inputs.
use touchmyapi.Common.{
  ℕ, ◌≡◌, ◌≢◌, ◌↔◌, ◌⊎◌, ◌<◌, ◌≤◌, refl, Bool, true, false, ◌&&◌, List, [], ◌∷◌, ok, arith, Text,
  codes,
}
use touchmyapi.Js.{Value, str, num, nat}
use touchmyapi.Policy.Membership.{
  MembershipEvaluation, Registry, owner, admin, billing, viewer, active, evaluation,
  evaluate_membership, can_membership_capability, is_active, names_capability, role_capabilities,
  assert_role, assert_status, last_owner_decision,
}
use touchmyapi.Policy.Membership.Laws.{
  can-evaluate_membership, manage_needs_role, owners_left, owners_left-pos,
}
use touchmyapi.Tests.Request.{uuid, text}

abbrev member : MembershipEvaluation
member = evaluation 7 uuid uuid admin active

evaluated :
    evaluate_membership [] 7 (str uuid) (str uuid) (text "admin") (text "active")
    ≡ ok (member, member ∷ [])
unfolding touchmyapi.Common.cut touchmyapi.Common.cut_last touchmyapi.Common.occurrences
    touchmyapi.Common.cut_at touchmyapi.Common.split touchmyapi.Common.join
    touchmyapi.Common.is_space touchmyapi.Common.trim_start touchmyapi.Common.trim
    touchmyapi.Common.lower_code touchmyapi.Common.lower touchmyapi.Common.drop_trailing
    touchmyapi.Common.is_control touchmyapi.Common.digit_value touchmyapi.Common.read_digits
    touchmyapi.Common.digit_code touchmyapi.Common.print_digits touchmyapi.Common.print_number
    touchmyapi.Common.text_eq touchmyapi.Common.starts_with touchmyapi.Common.ends_with
    touchmyapi.Common.has_code touchmyapi.Common.mem_text touchmyapi.Common.is_digit
    touchmyapi.Common.is_letter touchmyapi.Common.is_hex touchmyapi.Js.own touchmyapi.Js.field
    touchmyapi.Js.key_in touchmyapi.Js.is_str touchmyapi.Js.positive_safe_integer
    touchmyapi.Policy.Membership.role_capabilities touchmyapi.Policy.Membership.role_of
    touchmyapi.Policy.Membership.status_of touchmyapi.Policy.Membership.assert_identity
    touchmyapi.Policy.Membership.assert_role touchmyapi.Policy.Membership.assert_status
    touchmyapi.Policy.Membership.find_evaluation touchmyapi.Policy.Membership.evaluation
    touchmyapi.Policy.Membership.evaluate_membership touchmyapi.Policy.Membership.names_capability
    touchmyapi.Policy.Membership.can_membership_capability touchmyapi.Policy.Membership.owner_count
    touchmyapi.Policy.Membership.last_owner_decision touchmyapi.Policy.Patterns.matches_classes
    touchmyapi.Policy.Patterns.is_uuid touchmyapi.Policy.Patterns.is_version_digit
    touchmyapi.Policy.Patterns.is_variant_digit touchmyapi.Policy.Patterns.is_strict_uuid
    touchmyapi.Policy.Patterns.is_alnum touchmyapi.Policy.Patterns.is_event_code
    touchmyapi.Policy.Patterns.is_version_code touchmyapi.Policy.Patterns.is_safe_version
    touchmyapi.Policy.Patterns.is_stripe_event touchmyapi.Policy.Patterns.is_fingerprint
    touchmyapi.Policy.Patterns.is_utc_fraction touchmyapi.Policy.Patterns.is_utc_tail
    touchmyapi.Policy.Patterns.matches_then touchmyapi.Policy.Patterns.is_utc_iso
evaluated = refl

can-evaluate_membership_example :
    (can_membership_capability (member ∷ []) 7 (codes "billing:purchase") ≡ (
      is_active member.status
      && names_capability (codes "billing:purchase") (role_capabilities member.role)))
    × (assert_role (text "admin") ≡ ok member.role)
    × (assert_status (text "active") ≡ ok member.status)
can-evaluate_membership_example =
    can-evaluate_membership [] 7 (str uuid) (str uuid) (text "admin") (text "active") member
      (member ∷ []) (codes "billing:purchase") evaluated

manage_needs_role_example :
    (can_membership_capability (member ∷ []) 7 (codes "membership:manage") ≡ true
      → (member.status ≡ active) × ((member.role ≡ owner) ⊎ (member.role ≡ admin)))
    × (can_membership_capability (member ∷ []) 7 (codes "billing:purchase") ≡ true
        → (member.status ≡ active) × ((member.role ≡ owner) ⊎ (member.role ≡ billing)))
manage_needs_role_example =
    manage_needs_role [] 7 (str uuid) (str uuid) (text "admin") (text "active") member (member ∷ [])
      evaluated

owners_left-pos_example : 0 < owners_left 2 (owner ∷ viewer ∷ owner ∷ [])
owners_left-pos_example = owners_left-pos 2 (owner ∷ viewer ∷ owner ∷ []) (omega arith)
