-- ===== src/Contracts/Membership.antt =====
-- packages/contracts/src/membership.ts: the bodies and the replies of the membership routes. The
-- values are JSON data. The formats that the validation library knows are parameters.
use touchmyapi.Common.{
  Bool, true, false, List, [], ◌∷◌, Option, none, some, Text, codes, length, leb, all, ◌&&◌, ◌||◌,
}
use touchmyapi.Common.Maybe.{◌>>=◌, ◌>>◌, check}
use touchmyapi.Js.{Value, field, as_str, str, undefined, null}
use touchmyapi.Policy.Membership.{
  MembershipRole, MembershipStatus, owner, admin, operator, viewer, billing, active, suspended,
  removed,
}
use touchmyapi.Policy.Engine.Snapshot.{snapshot_object, exact_snapshot}
use touchmyapi.Contracts.Observation.{find_named}

abbrev pub role_text : MembershipRole → Text
role_text owner = codes "owner"
role_text admin = codes "admin"
role_text operator = codes "operator"
role_text viewer = codes "viewer"
role_text billing = codes "billing"

abbrev pub status_text : MembershipStatus → Text
status_text active = codes "active"
status_text suspended = codes "suspended"
status_text removed = codes "removed"

abbrev pub all_roles : List MembershipRole
all_roles = owner ∷ admin ∷ operator ∷ viewer ∷ billing ∷ []

abbrev pub all_statuses : List MembershipStatus
all_statuses = active ∷ suspended ∷ removed ∷ []

unfoldable pub parse_role : Value → Option MembershipRole
parse_role v = as_str v >>= find_named role_text all_roles

unfoldable pub parse_status : Value → Option MembershipStatus
parse_status v = as_str v >>= find_named status_text all_statuses

abbrev is_given : {A : Type 0} → Option A → Bool
is_given none = false
is_given (some a) = true

unfoldable pub is_role_value : Value → Bool
is_role_value v = is_given (parse_role v)

unfoldable pub is_status_value : Value → Bool
is_status_value v = is_given (parse_status v)

-- `schema.optional()` and `schema.nullable()`.
abbrev pub or_undefined : (Value → Bool) → Value → Bool
or_undefined test undefined = true
or_undefined test v = test v

abbrev pub or_null : (Value → Bool) → Value → Bool
or_null test null = true
or_null test v = test v

-- An optional field that may be left out.
unfoldable pub optional : {A : Type 0} → (Value → Option A) → Value → Option (Option A)
optional parse undefined = some none
optional parse v = do a ← parse v; some (some a)

pub record Formats : Type 0 where
  pub is_uuid : Text → Bool
  pub is_email : Text → Bool
  pub is_datetime : Text → Bool

pub record InvitationCreate : Type 0 where
  pub email : Text
  pub role : MembershipRole
  pub expires_at : Text

pub record MembershipUpdate : Type 0 where
  pub role : Option MembershipRole
  pub status : Option MembershipStatus

module _ (formats : Formats) where
  unfoldable pub is_uuid_value : Value → Bool
  is_uuid_value (str t) = formats.is_uuid t
  is_uuid_value _ = false

  unfoldable pub is_iso_date : Value → Bool
  is_iso_date (str t) = formats.is_datetime t && leb (length t) 64
  is_iso_date _ = false

  unfoldable pub is_email_value : Value → Bool
  is_email_value (str t) = formats.is_email t && leb (length t) 320
  is_email_value _ = false

  -- `membershipSchema`.
  unfoldable pub is_membership : Value → Bool
  is_membership v =
      elim (snapshot_object v (
        some (
          "id" ∷ "accountId" ∷ "userId" ∷ "email" ∷ "role" ∷ "status" ∷ "invitedByUserId"
          ∷ "createdAt" ∷ "updatedAt" ∷ "removedAt" ∷ []))) [
            | none ↦ false
            | some s ↦
                is_uuid_value (field s "id")
                && is_uuid_value (field s "accountId")
                && is_uuid_value (field s "userId")
                && or_undefined is_email_value (field s "email")
                && is_role_value (field s "role")
                && is_status_value (field s "status")
                && or_undefined (or_null is_uuid_value) (field s "invitedByUserId")
                && is_iso_date (field s "createdAt")
                && is_iso_date (field s "updatedAt")
                && or_undefined (or_null is_iso_date) (field s "removedAt")
          ]

  -- `membershipListResponseSchema`.
  unfoldable pub is_membership_list : List Value → Bool
  is_membership_list vs = leb (length vs) 1000 && all is_membership vs

  -- `invitationStatusSchema`.
  unfoldable pub is_invitation_status : Value → Bool
  is_invitation_status v = is_given (
      as_str v
      >>= find_named (λ t. t)
          (codes "pending" ∷ codes "accepted" ∷ codes "expired" ∷ codes "revoked" ∷ []))

  -- `invitationSchema`.
  unfoldable pub is_invitation : Value → Bool
  is_invitation v =
      elim (snapshot_object v (
        some (
          "id" ∷ "accountId" ∷ "email" ∷ "proposedRole" ∷ "status" ∷ "expiresAt" ∷ "acceptedAt"
          ∷ "createdAt" ∷ "invitedByUserId" ∷ "acceptedByUserId" ∷ []))) [
            | none ↦ false
            | some s ↦
                is_uuid_value (field s "id")
                && is_uuid_value (field s "accountId")
                && is_email_value (field s "email")
                && is_role_value (field s "proposedRole")
                && is_invitation_status (field s "status")
                && is_iso_date (field s "expiresAt")
                && or_undefined (or_null is_iso_date) (field s "acceptedAt")
                && is_iso_date (field s "createdAt")
                && is_uuid_value (field s "invitedByUserId")
                && or_undefined (or_null is_uuid_value) (field s "acceptedByUserId")
          ]

  -- `invitationCreateSchema`; `none` is that `parse` throws.
  unfoldable pub parse_invitation_create : Value → Option InvitationCreate
  parse_invitation_create v = do
    s ← exact_snapshot v ("email" ∷ "role" ∷ "expiresAt" ∷ [])
    email ← as_str (field s "email")
    check (is_email_value (field s "email"))
    role ← parse_role (field s "role")
    expires ← as_str (field s "expiresAt")
    check (is_iso_date (field s "expiresAt"))
    some (record { email = email; role = role; expires_at = expires })

-- `membershipUpdateSchema`.
unfoldable pub parse_membership_update : Value → Option MembershipUpdate
parse_membership_update v = do
  s ← snapshot_object v (some ("role" ∷ "status" ∷ []))
  role ← optional parse_role (field s "role")
  status ← optional parse_status (field s "status")
  check (is_given role || is_given status)
  some (record { role = role; status = status })
