-- ===== src/Policy/Membership/Laws.antt =====
-- packages/policy/src/membership.ts.
-- A membership's capabilities are those of its role while it is active, and the guard keeps an
-- owner.
use touchmyapi.Common.{
  ℕ, ◌-◌, ◌<◌, ◌≡◌, refl, Bool, true, List, [], ◌∷◌, some, Result, ok, arith, ◌==◌, ◌&&◌, Text,
  codes, text_eq, ◌⊎◌, if◌then◌else◌,
}
use touchmyapi.Js.{Value, num, nat, str}
use touchmyapi.Policy.Membership.{
  MembershipRole, MembershipStatus, MembershipEvaluation, MembershipError, Registry, owner, admin,
  operator, viewer, billing, active, is_active, all_capabilities, role_capabilities,
  names_capability, find_evaluation, evaluation, evaluate_membership, can_membership_capability,
  last_owner_decision, assert_role, assert_status, owner_count, role_of,
}

-- A capability of a role is one of the known ones.
names-role :
    (t : Text) (r : MembershipRole)
    → names_capability t (role_capabilities r) ≡ true
    → names_capability t all_capabilities ≡ true
unfolding names_capability role_capabilities
names-role t r h = ground arith

find-evaluation :
    (e : MembershipEvaluation) (registry : Registry) (id : ℕ)
    → find_evaluation (e ∷ registry) id
      ≡ (if e.id == id then some e else find_evaluation registry id)
unfolding find_evaluation
find-evaluation e registry id = refl

find-evaluation_self :
    (registry : Registry) (id : ℕ) (a u : Text) (r : MembershipRole) (s : MembershipStatus)
    → find_evaluation (evaluation id a u r s ∷ registry) id ≡ some (evaluation id a u r s)
unfolding find_evaluation evaluation
find-evaluation_self registry id a u r s = ground arith

granted :
    (id : ℕ) (a u t : Text) (r : MembershipRole) (s : MembershipStatus)
    → ((evaluation id a u r s).allowed
        && names_capability t all_capabilities
        && names_capability t (evaluation id a u r s).capabilities)
      ≡ (is_active s && names_capability t (role_capabilities r))
unfolding evaluation
granted id a u t r s = ground (arith, names-role t r)

can-evaluation :
    (registry : Registry) (id : ℕ) (a u t : Text) (r : MembershipRole) (s : MembershipStatus)
    → can_membership_capability (evaluation id a u r s ∷ registry) id t
      ≡ (is_active s && names_capability t (role_capabilities r))
unfolding can_membership_capability
can-evaluation registry id a u t r s =
    rw (find-evaluation_self registry id a u r s, can_membership_capability) (granted id a u t r s)

-- What an evaluation that succeeds has read and made.
abbrev pub IsEvaluated :
    Registry → ℕ → (av uv rv sv : Value) → MembershipEvaluation → Registry → Type 0
IsEvaluated registry id av uv rv sv e registry' =
    (e ≡ evaluation id e.account_id e.user_id e.role e.status)
    × (registry' ≡ e ∷ registry)
    × (assert_role rv ≡ ok e.role)
    × (assert_status sv ≡ ok e.status)

evaluate-IsEvaluated :
    (registry : Registry) (id : ℕ) (av uv rv sv : Value) (e : MembershipEvaluation)
    (registry' : Registry)
    → evaluate_membership registry id av uv rv sv ≡ ok (e, registry')
    → IsEvaluated registry id av uv rv sv e registry'
unfolding evaluate_membership evaluation
evaluate-IsEvaluated registry id av uv rv sv e registry' h = ground arith

-- After an evaluation that succeeds, the new snapshot carries a capability exactly if the
-- membership's status is `active` and its role has the capability: role and status are those that
-- were given.
pub can-evaluate_membership :
    (registry : Registry) (id : ℕ) (av uv rv sv : Value) (e : MembershipEvaluation)
    (registry' : Registry) (t : Text)
    → evaluate_membership registry id av uv rv sv ≡ ok (e, registry')
    → (can_membership_capability registry' id t
        ≡ (is_active e.status && names_capability t (role_capabilities e.role)))
      × (assert_role rv ≡ ok e.role)
      × (assert_status sv ≡ ok e.status)
can-evaluate_membership registry id av uv rv sv e registry' t h =
    let (made, registered, role, status) =
      evaluate-IsEvaluated registry id av uv rv sv e registry' h in
    let granted = can-evaluation registry id e.account_id e.user_id t e.role e.status in
    (cc, role, status)

-- Only an active owner or admin can manage memberships, and only an active owner or billing member
-- can buy.
pub manage_needs_role :
    (registry : Registry) (id : ℕ) (av uv rv sv : Value) (e : MembershipEvaluation)
    (registry' : Registry)
    → evaluate_membership registry id av uv rv sv ≡ ok (e, registry')
    → (can_membership_capability registry' id (codes "membership:manage") ≡ true
        → (e.status ≡ active) × ((e.role ≡ owner) ⊎ (e.role ≡ admin)))
      × (can_membership_capability registry' id (codes "billing:purchase") ≡ true
          → (e.status ≡ active) × ((e.role ≡ owner) ⊎ (e.role ≡ billing)))
unfolding names_capability role_capabilities text_eq
manage_needs_role registry id av uv rv sv e registry' h =
    let manage =
      can-evaluate_membership registry id av uv rv sv e registry' (codes "membership:manage") h in
    let purchase =
      can-evaluate_membership registry id av uv rv sv e registry' (codes "billing:purchase") h in
    (λ c. ground (arith, manage.0), λ c. ground (arith, purchase.0))

-- What removing or demoting a member leaves of the active owners, if the guard is asked first.
abbrev pub leave : MembershipRole → ℕ → Result MembershipError Bool → ℕ
leave owner n (ok true) = n - 1
leave _ n _ = n

abbrev pub role_name : MembershipRole → Text
role_name owner = codes "owner"
role_name admin = codes "admin"
role_name operator = codes "operator"
role_name viewer = codes "viewer"
role_name billing = codes "billing"

pub owners_left : ℕ → List MembershipRole → ℕ
owners_left n [] = n
owners_left n (r ∷ rs) =
    owners_left (leave r n (last_owner_decision (str (role_name r)) (num (nat n)))) rs

leave_keeps :
    (r : MembershipRole) (n : ℕ)
    → 0 < n
    → 0 < leave r n (last_owner_decision (str (role_name r)) (num (nat n)))
unfolding last_owner_decision role_of text_eq owner_count
leave_keeps r n h = ground arith

-- An account with an active owner keeps one through every sequence of departures that are guarded
-- one by one.
pub owners_left-pos : (n : ℕ) (rs : List MembershipRole) → 0 < n → 0 < owners_left n rs
unfolding owners_left
owners_left-pos n [] h = h
owners_left-pos n (r ∷ rs) h =
    owners_left-pos (leave r n (last_owner_decision (str (role_name r)) (num (nat n)))) rs
      (leave_keeps r n h)
