-- ===== src/Policy/Membership.antt =====
-- packages/policy/src/membership.ts: the capabilities of a membership, and the guard on the last
-- owner. The set of genuine evaluations is an explicit registry of identities.
pub mod Laws
use touchmyapi.Common.{
  ℕ, Bool, true, false, List, [], ◌∷◌, Option, none, some, Result, ok, err, ◌>>=◌, require, Text,
  codes, text_eq, leb, ltb, ◌==◌, ◌&&◌, any, if◌then◌else◌,
}
use touchmyapi.Js.{Value, num, nat, str, safe_bound}
use touchmyapi.Policy.Patterns.{is_strict_uuid}

pub data MembershipRole : Type 0 where
  owner admin operator viewer billing : MembershipRole

pub data MembershipStatus : Type 0 where
  active suspended removed : MembershipStatus

pub data MembershipCapability : Type 0 where
  account_read membership_manage assessment_read assessment_create : MembershipCapability
  assessment_cancel billing_read billing_purchase : MembershipCapability

pub data Reason : Type 0 where
  is_ok membership_suspended membership_required : Reason

pub record MembershipEvaluation : Type 0 where
  pub id : ℕ
  pub allowed : Bool
  pub account_id : Text
  pub user_id : Text
  pub role : MembershipRole
  pub status : MembershipStatus
  pub capabilities : List MembershipCapability
  pub reason : Reason

pub data MembershipError : Type 0 where
  invalid_account_id invalid_user_id invalid_role invalid_status invalid_owner_count :
      MembershipError

abbrev pub capability_name : MembershipCapability → Text
capability_name account_read = codes "account:read"
capability_name membership_manage = codes "membership:manage"
capability_name assessment_read = codes "assessment:read"
capability_name assessment_create = codes "assessment:create"
capability_name assessment_cancel = codes "assessment:cancel"
capability_name billing_read = codes "billing:read"
capability_name billing_purchase = codes "billing:purchase"

-- The set `CAPABILITIES`.
abbrev pub all_capabilities : List MembershipCapability
all_capabilities =
    account_read ∷ membership_manage ∷ assessment_read ∷ assessment_create ∷ assessment_cancel
    ∷ billing_read ∷ billing_purchase ∷ []

-- `ROLE_CAPABILITIES`.
unfoldable pub role_capabilities : MembershipRole → List MembershipCapability
role_capabilities owner =
    account_read ∷ membership_manage ∷ assessment_read ∷ assessment_create ∷ assessment_cancel
    ∷ billing_read ∷ billing_purchase ∷ []
role_capabilities admin =
    account_read ∷ membership_manage ∷ assessment_read ∷ assessment_create ∷ assessment_cancel
    ∷ billing_read ∷ []
role_capabilities operator =
    account_read ∷ assessment_read ∷ assessment_create ∷ assessment_cancel ∷ []
role_capabilities viewer = account_read ∷ assessment_read ∷ []
role_capabilities billing = account_read ∷ billing_read ∷ billing_purchase ∷ []

unfoldable pub role_of : Text → Option MembershipRole
role_of t =
    if text_eq t (codes "owner")
    then some owner
    else if text_eq t (codes "admin")
    then some admin
    else if text_eq t (codes "operator")
    then some operator
    else if text_eq t (codes "viewer")
    then some viewer
    else if text_eq t (codes "billing")
    then some billing
    else none

unfoldable pub status_of : Text → Option MembershipStatus
status_of t =
    if text_eq t (codes "active")
    then some active
    else if text_eq t (codes "suspended")
    then some suspended
    else if text_eq t (codes "removed")
    then some removed
    else none

-- `assertIdentity`.
unfoldable pub assert_identity : Value → MembershipError → Result MembershipError Text
unfolding is_strict_uuid
assert_identity (str t) e = if is_strict_uuid t then ok t else err e
assert_identity _ e = err e

-- The two halves of `assertRoleStatus`, with the value that the schema parsed.
unfoldable pub assert_role : Value → Result MembershipError MembershipRole
unfolding role_of
assert_role (str t) = require invalid_role (role_of t)
assert_role _ = err invalid_role

unfoldable pub assert_status : Value → Result MembershipError MembershipStatus
unfolding status_of
assert_status (str t) = require invalid_status (status_of t)
assert_status _ = err invalid_status

abbrev pub is_active : MembershipStatus → Bool
is_active active = true
is_active _ = false

-- `evaluationSet`: the evaluations made so far, found by their identity. They are frozen, so the
-- registry holds their contents.
abbrev pub Registry : Type 0
Registry = List MembershipEvaluation

unfoldable pub find_evaluation : Registry → ℕ → Option MembershipEvaluation
find_evaluation [] id = none
find_evaluation (e ∷ rest) id = if e.id == id then some e else find_evaluation rest id

unfoldable pub evaluation :
    ℕ → Text → Text → MembershipRole → MembershipStatus → MembershipEvaluation
evaluation id account user role status = record {
  id = id;
  allowed = is_active status;
  account_id = account;
  user_id = user;
  role = role;
  status = status;
  capabilities = if is_active status then role_capabilities role else [];
  reason = if is_active status then is_ok else membership_suspended;
}

-- `evaluateMembership`, where `id` is the identity of the object that it makes.
unfoldable pub evaluate_membership :
    Registry
    → (id : ℕ) → (account_id user_id role status : Value)
    → Result MembershipError (MembershipEvaluation × Registry)
evaluate_membership registry id account_id user_id role status = do
  account ← assert_identity account_id invalid_account_id
  user ← assert_identity user_id invalid_user_id
  r ← assert_role role
  s ← assert_status status
  ok (evaluation id account user r s, evaluation id account user r s ∷ registry)

unfoldable pub names_capability : Text → List MembershipCapability → Bool
names_capability t cs = any (λ c. text_eq t (capability_name c)) cs

-- `canMembershipCapability` at a reference: an object that was not evaluated is in no registry.
unfoldable pub can_membership_capability : Registry → ℕ → Text → Bool
can_membership_capability registry id capability = elim (find_evaluation registry id) [
  | none ↦ false
  | some e ↦
      e.allowed
      && names_capability capability all_capabilities
      && names_capability capability e.capabilities
]

unfoldable pub owner_count : Value → Result MembershipError ℕ
owner_count (num (nat n)) = if ltb n safe_bound then ok n else err invalid_owner_count
owner_count _ = err invalid_owner_count

abbrev pub is_owner : MembershipRole → Bool
is_owner owner = true
is_owner _ = false

-- `lastOwnerDecision`: `ok false` is the refusal `last_owner_protected`.
unfoldable pub last_owner_decision : (role count : Value) → Result MembershipError Bool
unfolding assert_role owner_count
last_owner_decision role count = do
  r ← assert_role role
  n ← owner_count count
  if is_owner r && leb n 1 then ok false else ok true
