-- ===== src/Policy/Engine/Authorize/Attested.antt =====
-- packages/policy/src/engine.ts: what a good attestation agrees with.
use mathlib.Core.Path.{subst}
use touchmyapi.Common.{
  ◌≡◌, ◌≤◌, refl, arith, ap, ◌∙◌, true, Option, none, some, text_eq_iff, Bool-cases, inl, inr,
}
use touchmyapi.Common.Maybe.{check, >>=-eq-some, check-eq-some}
use touchmyapi.Js.{Value, Snapshot, field, is_str, is_nullish, as_str}
use touchmyapi.Policy.Target.{NormalizedTarget}
use touchmyapi.Policy.Engine.Snapshot.{exact_snapshot}
use touchmyapi.Policy.Engine.Facts.{
  Platform, PolicyContext, Instant, uuid_value, fingerprint_value, valid_utc,
}
use touchmyapi.Policy.Engine.Evidence.{
  Attestation, attestation_keys, read_attestation, judge_attestation, judge_attested, attested,
  parse_attestation,
}

-- The user has accepted the terms, for this assessment, target, scope and playbook, and not later than
-- the evaluation.
pub record IsAttested (platform : Platform) (input : Value) (context : PolicyContext)
    (target : NormalizedTarget) : Type 0 where
  pub value : Snapshot
  pub copied : exact_snapshot input attestation_keys ≡ some value
  pub version : is_str "terms@1" (field value "version") ≡ true
  pub account : uuid_value (field value "accountId") ≡ some context.account_id
  pub assessment : uuid_value (field value "assessmentId") ≡ some context.assessment_id
  pub user : uuid_value (field value "userId") ≡ some context.user_id
  pub target_is : as_str (field value "target") ≡ some target.url
  pub fingerprint :
      fingerprint_value (field value "scopeFingerprint") ≡ some context.scope_fingerprint
  pub playbook_key : is_str "surface-public-posture" (field value "playbookKey") ≡ true
  pub playbook_version : is_str "1.0.0" (field value "playbookVersion") ≡ true
  pub accepted : Instant
  pub accepted_at : valid_utc platform (field value "acceptedAt") ≡ some accepted
  pub in_time : accepted.time ≤ context.evaluated_at.time

judge_attestation-agrees :
    (a : Attestation) (context : PolicyContext) (target : NormalizedTarget)
    → judge_attestation a context target ≡ attested
    → (a.account_id ≡ context.account_id)
      × (a.assessment_id ≡ context.assessment_id)
      × (a.user_id ≡ context.user_id)
      × (a.target ≡ target.url)
      × (a.fingerprint ≡ context.scope_fingerprint)
      × (a.accepted_at.time ≤ context.evaluated_at.time)
unfolding judge_attestation
judge_attestation-agrees a context target h = ground (
  arith,
  text_eq_iff a.account_id context.account_id,
  text_eq_iff a.assessment_id context.assessment_id,
  text_eq_iff a.user_id context.user_id,
  text_eq_iff a.target target.url,
  text_eq_iff a.fingerprint context.scope_fingerprint,
)

-- What has been read.
record IsReadAttestation (platform : Platform) (input : Value) (a : Attestation) : Type 0 where
  value : Snapshot
  copied : exact_snapshot input attestation_keys ≡ some value
  version : is_str "terms@1" (field value "version") ≡ true
  account : uuid_value (field value "accountId") ≡ some a.account_id
  assessment : uuid_value (field value "assessmentId") ≡ some a.assessment_id
  user : uuid_value (field value "userId") ≡ some a.user_id
  target_is : as_str (field value "target") ≡ some a.target
  fingerprint : fingerprint_value (field value "scopeFingerprint") ≡ some a.fingerprint
  playbook_key : is_str "surface-public-posture" (field value "playbookKey") ≡ true
  playbook_version : is_str "1.0.0" (field value "playbookVersion") ≡ true
  accepted : valid_utc platform (field value "acceptedAt") ≡ some a.accepted_at

read_attestation-IsReadAttestation :
    (platform : Platform) (input : Value) (a : Attestation)
    → read_attestation platform input ≡ some a
    → IsReadAttestation platform input a
unfolding read_attestation
read_attestation-IsReadAttestation platform input a h =
    let (value, copied, k0) = >>=-eq-some (exact_snapshot input attestation_keys) _ h in
    let (u1, version, k1) = >>=-eq-some (check (is_str "terms@1" (field value "version"))) _ k0 in
    let (account, r1, k2) = >>=-eq-some (uuid_value (field value "accountId")) _ k1 in
    let (assessment, r2, k3) = >>=-eq-some (uuid_value (field value "assessmentId")) _ k2 in
    let (user, r3, k4) = >>=-eq-some (uuid_value (field value "userId")) _ k3 in
    let (url, r4, k5) = >>=-eq-some (as_str (field value "target")) _ k4 in
    let (print, r5, k6) = >>=-eq-some (fingerprint_value (field value "scopeFingerprint")) _ k5 in
    let (u2, key, k7) =
      >>=-eq-some (check (is_str "surface-public-posture" (field value "playbookKey"))) _ k6 in
    let (u3, number, k8) =
      >>=-eq-some (check (is_str "1.0.0" (field value "playbookVersion"))) _ k7 in
    let (accepted, r6, k9) = >>=-eq-some (valid_utc platform (field value "acceptedAt")) _ k8 in
    let made : Attestation = record {
      account_id = account;
      assessment_id = assessment;
      user_id = user;
      target = url;
      fingerprint = print;
      accepted_at = accepted;
    } in
    let same : made ≡ a = ground arith in
    subst (IsReadAttestation platform input) same (record {
      value = value;
      copied = copied;
      version = check-eq-some _ version;
      account = r1;
      assessment = r2;
      user = r3;
      target_is = r4;
      fingerprint = r5;
      playbook_key = check-eq-some _ key;
      playbook_version = check-eq-some _ number;
      accepted = r6;
    })

module _ (platform : Platform) (input : Value) (context : PolicyContext)
    (target : NormalizedTarget) where
  read_attestation-IsAttested :
      (a : Attestation)
      → IsReadAttestation platform input a
      → judge_attestation a context target ≡ attested
      → IsAttested platform input context target
  read_attestation-IsAttested a r j =
      let (e1, e2, e3, e4, e5, e6) = judge_attestation-agrees a context target j in
      record {
        value = r.value;
        copied = r.copied;
        version = r.version;
        account = r.account ∙ ap some e1;
        assessment = r.assessment ∙ ap some e2;
        user = r.user ∙ ap some e3;
        target_is = r.target_is ∙ ap some e4;
        fingerprint = r.fingerprint ∙ ap some e5;
        playbook_key = r.playbook_key;
        playbook_version = r.playbook_version;
        accepted = a.accepted_at;
        accepted_at = r.accepted;
        in_time = e6;
      }

  judge_attested-IsAttested :
      (o : Option Attestation)
      → read_attestation platform input ≡ o
      → judge_attested o (some context) (some target) true ≡ attested
      → IsAttested platform input context target
  unfolding judge_attested
  judge_attested-IsAttested none h j = ground arith
  judge_attested-IsAttested (some a) h j =
      read_attestation-IsAttested a (read_attestation-IsReadAttestation platform input a h) j

  pub parse_attestation-IsAttested :
      parse_attestation platform input (some context) (some target) true ≡ attested
      → IsAttested platform input context target
  unfolding parse_attestation
  parse_attestation-IsAttested h = elim (Bool-cases (is_nullish input)) [
    | inl missing ↦ ground arith
    | inr given ↦ judge_attested-IsAttested (read_attestation platform input) refl (rw given at h)
  ]
