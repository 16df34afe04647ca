-- ===== src/Policy/Engine/Authorize/Entitled.antt =====
-- packages/policy/src/engine.ts: what a good entitlement shows of an account's plan.
use mathlib.Core.Path.{subst}
use touchmyapi.Common.{
  ◌≡◌, ◌≢◌, ◌≤◌, ◌<◌, ℕ, refl, arith, sym, ap, ◌∙◌, Bool, true, false, Option, none, some, ok, Text,
  text_eq_iff, Option-cases, Bool-cases, inl, inr, ◌&&◌,
}
use touchmyapi.Common.Maybe.{>>=-eq-some}
use touchmyapi.Js.{Value, Snapshot, field}
use touchmyapi.Policy.Entitlement.{Plan, free_unverified, free_verified, pro, lifetime, is_plan}
use touchmyapi.Policy.Patterns.{is_uuid, is_stripe_event}
use touchmyapi.Policy.Engine.Snapshot.{exact_snapshot}
use touchmyapi.Policy.Engine.Facts.{
  Platform, Registry, PolicyContext, Instant, valid_utc, nullable_utc, find_value,
}
use touchmyapi.Policy.Engine.Entitlement.{
  Source, baseline, http_verification, stripe_webhook, PolicyEntitlement, source_of, source_id_of,
  entitlement_keys, entitlement_facts, expires_by, fits, is_source, is_absent, holds_text,
  is_own_entitlement, judge_entitlement, parse_entitlement,
}

-- The source of a plan: none for an unverified account, the verification of a verified one, and the
-- event of a payment for a paid one, which ends for `pro` and does not for `lifetime`.
abbrev pub IsSourced : Plan → Source → Option Text → Option Instant → Type 0
IsSourced free_unverified s i expires = (s ≡ baseline) × (i ≡ none) × (expires ≡ none)
IsSourced free_verified s i expires =
    (s ≡ http_verification) × ((t : Text) × (i ≡ some t) × (is_uuid t ≡ true))
IsSourced pro s i expires =
    (s ≡ stripe_webhook)
    × ((t : Text) × (i ≡ some t) × (is_stripe_event t ≡ true))
    × (expires ≢ none)
IsSourced lifetime s i expires =
    (s ≡ stripe_webhook)
    × ((t : Text) × (i ≡ some t) × (is_stripe_event t ≡ true))
    × (expires ≡ none)

abbrev pub IsUnexpired : Option Instant → PolicyContext → Type 0
IsUnexpired none context = Unit
IsUnexpired (some e) context = context.evaluated_at.time < e.time

-- The entitlement belongs to the account, was granted not later than the evaluation, has not expired,
-- and its source suits its plan.
pub record IsEntitled (platform : Platform) (registry : Registry) (input : Value)
    (context : PolicyContext) (plan : Plan) : Type 0 where
  pub owner : find_value input registry.entitlements ≡ some context.account_id
  pub value : Snapshot
  pub copied : exact_snapshot input entitlement_keys ≡ some value
  pub plan_is : is_plan (field value "plan") ≡ some plan
  pub granted : Instant
  pub granted_read : valid_utc platform (field value "grantedAt") ≡ some granted
  pub in_time : granted.time ≤ context.evaluated_at.time
  pub expires : Option Instant
  pub expires_read : nullable_utc platform (field value "expiresAt") ≡ some expires
  pub unexpired : IsUnexpired expires context
  pub source : Source
  pub source_read : source_of (field value "source") ≡ some source
  pub source_id : Option Text
  pub source_id_read : source_id_of (field value "sourceId") ≡ some source_id
  pub sourced : IsSourced plan source source_id expires

is_source-eq : (s t : Source) → is_source s t ≡ true → s ≡ t
is_source-eq s t h = ground arith

holds_text-some :
    (p : Text → Bool) (o : Option Text)
    → holds_text p o ≡ true
    → (t : Text) × (o ≡ some t) × (p t ≡ true)
holds_text-some p none h = cc
holds_text-some p (some t) h = (t, refl, h)

absent-none : {A : Type 0} (o : Option A) → is_absent o ≡ true → o ≡ none
absent-none none h = refl
absent-none (some a) h = cc

present-some : {A : Type 0} (o : Option A) → is_absent o ≡ false → o ≢ none
present-some none h e = cc
present-some (some a) h e = cc

both : (a b : Bool) → (a && b) ≡ true → (a ≡ true) × (b ≡ true)
both a b h = ground arith

fits-IsSourced :
    (plan : Plan) (e : PolicyEntitlement)
    → fits plan e ≡ true
    → IsSourced plan e.source e.source_id e.expires_at
unfolding fits
fits-IsSourced free_unverified e h = (
  is_source-eq e.source baseline (ground arith),
  absent-none e.source_id (ground arith),
  absent-none e.expires_at (ground arith),
)
fits-IsSourced free_verified e h = (
  is_source-eq e.source http_verification (ground arith),
  holds_text-some is_uuid e.source_id (ground arith),
)
fits-IsSourced pro e h = (
  is_source-eq e.source stripe_webhook (ground arith),
  holds_text-some is_stripe_event e.source_id (ground arith),
  present-some e.expires_at (ground arith),
)
fits-IsSourced lifetime e h = (
  is_source-eq e.source stripe_webhook (ground arith),
  holds_text-some is_stripe_event e.source_id (ground arith),
  absent-none e.expires_at (ground arith),
)

expires_by-IsUnexpired :
    (o : Option Instant) (context : PolicyContext)
    → expires_by o context.evaluated_at.time ≡ false
    → IsUnexpired o context
expires_by-IsUnexpired none context h = tt
expires_by-IsUnexpired (some e) context h = ground arith

judge_entitlement-ok :
    (e : PolicyEntitlement) (n : ℕ) (plan : Plan)
    → judge_entitlement e n ≡ ok plan
    → (e.plan ≡ plan)
      × (e.granted_at.time ≤ n)
      × (expires_by e.expires_at n ≡ false)
      × (fits e.plan e ≡ true)
unfolding judge_entitlement
judge_entitlement-ok e n plan h = ground arith

module _ (platform : Platform) (registry : Registry) (input : Value) (context : PolicyContext)
    (plan : Plan) where
  facts-IsEntitled :
      (e : PolicyEntitlement)
      → entitlement_facts platform input ≡ some e
      → judge_entitlement e context.evaluated_at.time ≡ ok plan
      → find_value input registry.entitlements ≡ some context.account_id
      → IsEntitled platform registry input context plan
  unfolding entitlement_facts
  facts-IsEntitled e h j owner =
      let (e0, e1, e2, e3) = judge_entitlement-ok e context.evaluated_at.time plan j in
      let (value, copied, k0) = >>=-eq-some (exact_snapshot input entitlement_keys) _ h in
      let (p, r0, k1) = >>=-eq-some (is_plan (field value "plan")) _ k0 in
      let (source, r1, k2) = >>=-eq-some (source_of (field value "source")) _ k1 in
      let (source_id, r2, k3) = >>=-eq-some (source_id_of (field value "sourceId")) _ k2 in
      let (granted, r3, k4) = >>=-eq-some (valid_utc platform (field value "grantedAt")) _ k3 in
      let (expires, r4, k5) = >>=-eq-some (nullable_utc platform (field value "expiresAt")) _ k4 in
      let made : PolicyEntitlement = record {
        plan = p;
        source = source;
        source_id = source_id;
        granted_at = granted;
        expires_at = expires;
      } in
      let same : e ≡ made = ground arith in
      record {
        owner = owner;
        value = value;
        copied = copied;
        plan_is = r0 ∙ ap some (ap (λ x. x.plan) (sym same) ∙ e0);
        granted = granted;
        granted_read = r3;
        in_time = subst (λ x. x.granted_at.time ≤ context.evaluated_at.time) same e1;
        expires = expires;
        expires_read = r4;
        unexpired =
            subst (λ x. IsUnexpired x.expires_at context) same
              (expires_by-IsUnexpired e.expires_at context e2);
        source = source;
        source_read = r1;
        source_id = source_id;
        source_id_read = r2;
        sourced =
            subst (λ x. IsSourced plan x.source x.source_id x.expires_at) same
              (subst (λ q. IsSourced q e.source e.source_id e.expires_at) e0
                (fits-IsSourced e.plan e e3));
      }

  own_entitlement :
      is_own_entitlement registry input context ≡ true
      → find_value input registry.entitlements ≡ some context.account_id
  unfolding is_own_entitlement
  own_entitlement h = elim (Option-cases (find_value input registry.entitlements)) [
    | inl missing ↦ ground arith
    | inr (account, found) ↦ ground (arith, text_eq_iff account context.account_id)
  ]

  pub parse_entitlement-IsEntitled :
      parse_entitlement platform registry input (some context) ≡ ok plan
      → IsEntitled platform registry input context plan
  unfolding parse_entitlement
  parse_entitlement-IsEntitled h = elim (Bool-cases (is_own_entitlement registry input context)) [
    | inr foreign ↦ absurd (ground arith)
    | inl own ↦ elim (Option-cases (entitlement_facts platform input)) [
      | inl missing ↦ absurd (ground arith)
      | inr (e, read) ↦ facts-IsEntitled e read (ground arith) (own_entitlement own)
    ]
  ]
