-- ===== src/Policy/Engine/Evidence.antt =====
-- packages/policy/src/engine.ts: the target and the scope of a request, the verification of the
-- target and the attestation of the user.
use touchmyapi.Common.{
  Bool, true, false, List, [], ◌∷◌, ◌++◌, String, Option, none, some, Text, codes, text_eq, leb,
  ltb, ◌==◌, ◌&&◌, ◌||◌, not, print_number, if◌then◌else◌,
}
use touchmyapi.Common.Maybe.{◌>>=◌, ◌>>◌, check}
use touchmyapi.Js.{Value, field, is_str, is_nullish, as_str, obj, arr, hostile, str}
use touchmyapi.Policy.Target.{NormalizedTarget, protocol_text, authority_of, default_port}
use touchmyapi.Policy.Engine.Snapshot.{snapshot_object, snapshot_array, exact_snapshot}
use touchmyapi.Policy.Engine.Facts.{
  Platform, PolicyContext, Instant, uuid_value, fingerprint_value, valid_utc,
}

pub record ParsedTarget : Type 0 where
  pub candidate : Option Text
  pub addresses : Option (List Text)
  pub malformed : Bool

-- Every element as a text, or `none` if one is none.
unfoldable pub all_texts : List Value → Option (List Text)
all_texts [] = some []
all_texts (str t ∷ vs) = do ts ← all_texts vs; some (t ∷ ts)
all_texts (_ ∷ vs) = none

abbrev pub is_none {ℓ} : {A : Type ℓ} → Option A → Bool
is_none none = true
is_none (some a) = false

unfoldable pub parse_target : Value → ParsedTarget
parse_target target = elim (exact_snapshot target ("candidate" ∷ "resolvedAddresses" ∷ [])) [
  | none ↦ record { candidate = none; addresses = none; malformed = true }
  | some value ↦
      let candidate = as_str (field value "candidate") in
      let addresses = snapshot_array (field value "resolvedAddresses") >>= all_texts in
      record {
        candidate = candidate;
        addresses = addresses;
        malformed = is_none candidate || is_none addresses;
      }
]

-- `parseScope`: whether the scope is malformed, that is no object.
unfoldable pub is_scope_malformed : Value → Bool
is_scope_malformed (obj id proto ps) = false
is_scope_malformed (arr id len ps) = false
is_scope_malformed hostile = false
is_scope_malformed _ = true

-- `targetOrigin`.
unfoldable pub target_origin : NormalizedTarget → Text
target_origin target =
    protocol_text target.protocol
    ++ (codes "//"
        ++ (authority_of target.hostname
            ++ (if target.port == default_port target.protocol
                then []
                else b':' ∷ print_number 10 target.port)))

pub data FactState : Type 0 where
  none_given invalid mismatch expired unverified verified method_not_allowed : FactState

pub data Status : Type 0 where
  pending_status verified_status expired_status : Status

unfoldable pub status_of : Value → Option Status
status_of v =
    if is_str "pending" v
    then some pending_status
    else if is_str "verified" v
    then some verified_status
    else if is_str "expired" v
    then some expired_status
    else none

abbrev is_status : Status → Status → Bool
is_status expired_status expired_status = true
is_status verified_status verified_status = true
is_status pending_status pending_status = true
is_status _ _ = false

pub record Verification : Type 0 where
  pub status : Status
  pub account_id : Text
  pub assessment_id : Text
  pub origin : Text
  pub fingerprint : Text
  pub verified_at : Instant
  pub expires_at : Instant

abbrev pub verification_keys : List String
verification_keys =
    "method" ∷ "status" ∷ "accountId" ∷ "assessmentId" ∷ "targetOrigin" ∷ "scopeFingerprint"
    ∷ "challengeId" ∷ "verifiedAt" ∷ "expiresAt" ∷ []

unfoldable pub read_verification : Platform → Value → Option Verification
read_verification platform input = do
  value ← exact_snapshot input verification_keys
  check (is_str "http_file" (field value "method"))
  status ← status_of (field value "status")
  account ← uuid_value (field value "accountId")
  assessment ← uuid_value (field value "assessmentId")
  origin ← as_str (field value "targetOrigin")
  fingerprint ← fingerprint_value (field value "scopeFingerprint")
  challenge ← uuid_value (field value "challengeId")
  since ← valid_utc platform (field value "verifiedAt")
  expires ← valid_utc platform (field value "expiresAt")
  some (record {
    status = status;
    account_id = account;
    assessment_id = assessment;
    origin = origin;
    fingerprint = fingerprint;
    verified_at = since;
    expires_at = expires;
  })

-- The comparisons of a verification with the context and the target.
unfoldable pub judge_verification : Verification → PolicyContext → NormalizedTarget → FactState
judge_verification v context target =
    if not (
      text_eq v.account_id context.account_id
      && text_eq v.assessment_id context.assessment_id
      && text_eq v.fingerprint context.scope_fingerprint
      && text_eq v.origin (target_origin target))
    then mismatch
    else if ltb context.evaluated_at.time v.verified_at.time
    then unverified
    else if leb v.expires_at.time context.evaluated_at.time
        || leb v.expires_at.time v.verified_at.time
        || is_status v.status expired_status
    then expired
    else if is_status v.status verified_status
    then verified
    else unverified

unfoldable pub is_dns_method : Value → Bool
is_dns_method input = elim (snapshot_object input none) [
  | none ↦ false
  | some value ↦ is_str "dns_txt" (field value "method")
]

unfoldable pub judge_given :
    Option Verification → Option PolicyContext → Option NormalizedTarget → FactState
judge_given (some v) (some context) (some target) = judge_verification v context target
judge_given _ _ _ = invalid

unfoldable pub parse_verification :
    Platform → Value → Option PolicyContext → Option NormalizedTarget → FactState
parse_verification platform input context target =
    if is_nullish input
    then none_given
    else if is_dns_method input
    then method_not_allowed
    else judge_given (read_verification platform input) context target

pub data AttestationState : Type 0 where
  required invalid_facts mismatched attested : AttestationState

pub record Attestation : Type 0 where
  pub account_id : Text
  pub assessment_id : Text
  pub user_id : Text
  pub target : Text
  pub fingerprint : Text
  pub accepted_at : Instant

abbrev pub attestation_keys : List String
attestation_keys =
    "version" ∷ "accountId" ∷ "assessmentId" ∷ "userId" ∷ "target" ∷ "scopeFingerprint"
    ∷ "playbookKey" ∷ "playbookVersion" ∷ "acceptedAt" ∷ []

unfoldable pub read_attestation : Platform → Value → Option Attestation
read_attestation platform input = do
  value ← exact_snapshot input attestation_keys
  check (is_str "terms@1" (field value "version"))
  account ← uuid_value (field value "accountId")
  assessment ← uuid_value (field value "assessmentId")
  user ← uuid_value (field value "userId")
  target ← as_str (field value "target")
  fingerprint ← fingerprint_value (field value "scopeFingerprint")
  check (is_str "surface-public-posture" (field value "playbookKey"))
  check (is_str "1.0.0" (field value "playbookVersion"))
  accepted ← valid_utc platform (field value "acceptedAt")
  some (record {
    account_id = account;
    assessment_id = assessment;
    user_id = user;
    target = target;
    fingerprint = fingerprint;
    accepted_at = accepted;
  })

unfoldable pub judge_attestation : Attestation → PolicyContext → NormalizedTarget → AttestationState
judge_attestation a context target =
    if not (
      text_eq a.account_id context.account_id
      && text_eq a.assessment_id context.assessment_id
      && text_eq a.user_id context.user_id
      && text_eq a.target target.url
      && text_eq a.fingerprint context.scope_fingerprint)
    then mismatched
    else if ltb context.evaluated_at.time a.accepted_at.time
    then invalid_facts
    else attested

unfoldable pub judge_attested :
    Option Attestation → Option PolicyContext → Option NormalizedTarget → Bool → AttestationState
judge_attested (some a) (some context) (some target) true = judge_attestation a context target
judge_attested _ _ _ _ = invalid_facts

-- `has_playbook` says whether the playbook was parsed.
unfoldable pub parse_attestation :
    Platform
    → Value
    → Option PolicyContext
    → Option NormalizedTarget
    → (has_playbook : Bool) → AttestationState
parse_attestation platform input context target has_playbook =
    if is_nullish input
    then required
    else judge_attested (read_attestation platform input) context target has_playbook
