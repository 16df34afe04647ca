-- ===== src/Policy/Engine/Authorize/Verified.antt =====
-- packages/policy/src/engine.ts: what a good verification agrees with.
use mathlib.Core.Path.{subst}
use touchmyapi.Common.{
  ◌≡◌, ◌≤◌, ◌<◌, refl, arith, ap, ◌∙◌, true, Option, none, some, text_eq_iff, Bool-cases, inl, inr,
}
use touchmyapi.Common.Maybe.{check, >>=-eq-some, check-eq-some}
use touchmyapi.Js.{Value, Snapshot, field, is_str, is_nullish, as_str}
use touchmyapi.Policy.Target.{NormalizedTarget}
use touchmyapi.Policy.Engine.Snapshot.{exact_snapshot}
use touchmyapi.Policy.Engine.Facts.{
  Platform, PolicyContext, Instant, uuid_value, fingerprint_value, valid_utc,
}
use touchmyapi.Policy.Engine.Evidence.{
  target_origin, Verification, verification_keys, read_verification, judge_verification,
  judge_given, verified, parse_verification, status_of, verified_status, is_dns_method,
}

-- The target was verified over HTTP, for this assessment, origin and scope, not later than the
-- evaluation, and still is.
pub record IsVerified (platform : Platform) (input : Value) (context : PolicyContext)
    (target : NormalizedTarget) : Type 0 where
  pub value : Snapshot
  pub copied : exact_snapshot input verification_keys ≡ some value
  pub method : is_str "http_file" (field value "method") ≡ true
  pub status : is_str "verified" (field value "status") ≡ true
  pub account : uuid_value (field value "accountId") ≡ some context.account_id
  pub assessment : uuid_value (field value "assessmentId") ≡ some context.assessment_id
  pub origin : as_str (field value "targetOrigin") ≡ some (target_origin target)
  pub fingerprint :
      fingerprint_value (field value "scopeFingerprint") ≡ some context.scope_fingerprint
  pub verified_at : Instant
  pub verified_read : valid_utc platform (field value "verifiedAt") ≡ some verified_at
  pub in_time : verified_at.time ≤ context.evaluated_at.time
  pub expires_at : Instant
  pub expires_read : valid_utc platform (field value "expiresAt") ≡ some expires_at
  pub unexpired : context.evaluated_at.time < expires_at.time

judge_verification-agrees :
    (v : Verification) (context : PolicyContext) (target : NormalizedTarget)
    → judge_verification v context target ≡ verified
    → (v.status ≡ verified_status)
      × (v.account_id ≡ context.account_id)
      × (v.assessment_id ≡ context.assessment_id)
      × (v.origin ≡ target_origin target)
      × (v.fingerprint ≡ context.scope_fingerprint)
      × (v.verified_at.time ≤ context.evaluated_at.time)
      × (context.evaluated_at.time < v.expires_at.time)
unfolding judge_verification
judge_verification-agrees v context target h = ground (
  arith,
  text_eq_iff v.account_id context.account_id,
  text_eq_iff v.assessment_id context.assessment_id,
  text_eq_iff v.origin (target_origin target),
  text_eq_iff v.fingerprint context.scope_fingerprint,
)

status_of-verified : (v : Value) → status_of v ≡ some verified_status → is_str "verified" v ≡ true
unfolding status_of
status_of-verified v h = ground arith

-- What has been read.
record IsReadVerification (platform : Platform) (input : Value) (v : Verification) : Type 0 where
  value : Snapshot
  copied : exact_snapshot input verification_keys ≡ some value
  method : is_str "http_file" (field value "method") ≡ true
  status : status_of (field value "status") ≡ some v.status
  account : uuid_value (field value "accountId") ≡ some v.account_id
  assessment : uuid_value (field value "assessmentId") ≡ some v.assessment_id
  origin : as_str (field value "targetOrigin") ≡ some v.origin
  fingerprint : fingerprint_value (field value "scopeFingerprint") ≡ some v.fingerprint
  verified_read : valid_utc platform (field value "verifiedAt") ≡ some v.verified_at
  expires_read : valid_utc platform (field value "expiresAt") ≡ some v.expires_at

read_verification-IsReadVerification :
    (platform : Platform) (input : Value) (v : Verification)
    → read_verification platform input ≡ some v
    → IsReadVerification platform input v
unfolding read_verification
read_verification-IsReadVerification platform input v h =
    let (value, copied, k0) = >>=-eq-some (exact_snapshot input verification_keys) _ h in
    let (u1, method, k1) = >>=-eq-some (check (is_str "http_file" (field value "method"))) _ k0 in
    let (status, r0, k2) = >>=-eq-some (status_of (field value "status")) _ k1 in
    let (account, r1, k3) = >>=-eq-some (uuid_value (field value "accountId")) _ k2 in
    let (assessment, r2, k4) = >>=-eq-some (uuid_value (field value "assessmentId")) _ k3 in
    let (origin, r3, k5) = >>=-eq-some (as_str (field value "targetOrigin")) _ k4 in
    let (print, r4, k6) = >>=-eq-some (fingerprint_value (field value "scopeFingerprint")) _ k5 in
    let (challenge, r5, k7) = >>=-eq-some (uuid_value (field value "challengeId")) _ k6 in
    let (since, r6, k8) = >>=-eq-some (valid_utc platform (field value "verifiedAt")) _ k7 in
    let (expires, r7, k9) = >>=-eq-some (valid_utc platform (field value "expiresAt")) _ k8 in
    let made : Verification = record {
      status = status;
      account_id = account;
      assessment_id = assessment;
      origin = origin;
      fingerprint = print;
      verified_at = since;
      expires_at = expires;
    } in
    let same : made ≡ v = ground arith in
    subst (IsReadVerification platform input) same (record {
      value = value;
      copied = copied;
      method = check-eq-some _ method;
      status = r0;
      account = r1;
      assessment = r2;
      origin = r3;
      fingerprint = r4;
      verified_read = r6;
      expires_read = r7;
    })

module _ (platform : Platform) (input : Value) (context : PolicyContext)
    (target : NormalizedTarget) where
  read_verification-IsVerified :
      (v : Verification)
      → IsReadVerification platform input v
      → judge_verification v context target ≡ verified
      → IsVerified platform input context target
  read_verification-IsVerified v r j =
      let (e0, e1, e2, e3, e4, e5, e6) = judge_verification-agrees v context target j in
      record {
        value = r.value;
        copied = r.copied;
        method = r.method;
        status = status_of-verified (field r.value "status") (r.status ∙ ap some e0);
        account = r.account ∙ ap some e1;
        assessment = r.assessment ∙ ap some e2;
        origin = r.origin ∙ ap some e3;
        fingerprint = r.fingerprint ∙ ap some e4;
        verified_at = v.verified_at;
        verified_read = r.verified_read;
        in_time = e5;
        expires_at = v.expires_at;
        expires_read = r.expires_read;
        unexpired = e6;
      }

  judge_given-IsVerified :
      (o : Option Verification)
      → read_verification platform input ≡ o
      → judge_given o (some context) (some target) ≡ verified
      → IsVerified platform input context target
  unfolding judge_given
  judge_given-IsVerified none h j = ground arith
  judge_given-IsVerified (some v) h j =
      read_verification-IsVerified v (read_verification-IsReadVerification platform input v h) j

  pub parse_verification-IsVerified :
      parse_verification platform input (some context) (some target) ≡ verified
      → IsVerified platform input context target
  unfolding parse_verification
  parse_verification-IsVerified h = elim (Bool-cases (is_nullish input)) [
    | inl missing ↦ ground arith
    | inr given ↦ elim (Bool-cases (is_dns_method input)) [
      | inl dns ↦ ground arith
      | inr other ↦
          judge_given-IsVerified (read_verification platform input) refl (rw (given, other) at h)
    ]
  ]
