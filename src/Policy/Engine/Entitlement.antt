-- ===== src/Policy/Engine/Entitlement.antt =====
-- packages/policy/src/engine.ts: the entitlement of an account.
use touchmyapi.Common.{
  ℕ, Bool, true, false, List, [], ◌∷◌, String, Option, none, some, Result, ok, err, Text, text_eq,
  ltb, leb, ◌&&◌, not, if◌then◌else◌,
}
use touchmyapi.Common.Maybe.{◌>>=◌, ◌>>◌, check}
use touchmyapi.Js.{Value, field, is_str, null, str}
use touchmyapi.Policy.Entitlement.{Plan, free_unverified, free_verified, pro, lifetime, is_plan}
use touchmyapi.Policy.Patterns.{is_uuid, is_stripe_event}
use touchmyapi.Policy.Engine.Snapshot.{exact_snapshot}
use touchmyapi.Policy.Engine.Facts.{
  BlockCode, invalid_entitlement, entitlement_expired, Platform, PolicyContext, Registry, Instant,
  valid_utc, nullable_utc, find_value,
}

pub data Source : Type 0 where
  baseline http_verification stripe_webhook : Source

pub record PolicyEntitlement : Type 0 where
  pub plan : Plan
  pub source : Source
  pub source_id : Option Text
  pub granted_at : Instant
  pub expires_at : Option Instant

unfoldable pub source_of : Value → Option Source
source_of v =
    if is_str "baseline" v
    then some baseline
    else if is_str "http_verification" v
    then some http_verification
    else if is_str "stripe_webhook" v
    then some stripe_webhook
    else none

abbrev pub source_id_of : Value → Option (Option Text)
source_id_of null = some none
source_id_of (str t) = some (some t)
source_id_of _ = none

abbrev pub entitlement_keys : List String
entitlement_keys = "plan" ∷ "source" ∷ "sourceId" ∷ "grantedAt" ∷ "expiresAt" ∷ []

-- The facts that both `createPolicyEntitlement` and `parseEntitlement` read.
unfoldable pub entitlement_facts : Platform → Value → Option PolicyEntitlement
entitlement_facts platform input = do
  value ← exact_snapshot input entitlement_keys
  plan ← is_plan (field value "plan")
  source ← source_of (field value "source")
  source_id ← source_id_of (field value "sourceId")
  granted ← valid_utc platform (field value "grantedAt")
  expires ← nullable_utc platform (field value "expiresAt")
  some (record {
    plan = plan;
    source = source;
    source_id = source_id;
    granted_at = granted;
    expires_at = expires;
  })

abbrev pub is_absent {ℓ} : {A : Type ℓ} → Option A → Bool
is_absent none = true
is_absent (some a) = false

abbrev pub holds_text : (Text → Bool) → Option Text → Bool
holds_text p none = false
holds_text p (some t) = p t

-- `expiresAt !== null && expiresAt <= time`
abbrev pub expires_by : Option Instant → ℕ → Bool
expires_by none time = false
expires_by (some e) time = leb e.time time

abbrev pub is_source : Source → Source → Bool
is_source baseline baseline = true
is_source http_verification http_verification = true
is_source stripe_webhook stripe_webhook = true
is_source _ _ = false

-- Whether the row's source suits a plan, as `parseEntitlement` wants it.
unfoldable pub fits : Plan → PolicyEntitlement → Bool
fits free_unverified e =
    is_source e.source baseline && is_absent e.source_id && is_absent e.expires_at
fits free_verified e = is_source e.source http_verification && holds_text is_uuid e.source_id
fits pro e =
    is_source e.source stripe_webhook
    && holds_text is_stripe_event e.source_id
    && not (is_absent e.expires_at)
fits lifetime e =
    is_source e.source stripe_webhook
    && holds_text is_stripe_event e.source_id
    && is_absent e.expires_at

-- What `createPolicyEntitlement` wants besides: `free_verified` and `pro` have an end, and a later
-- one than the evaluation.
unfoldable pub fits_now : Plan → PolicyEntitlement → ℕ → Bool
fits_now free_verified e evaluated =
    not (is_absent e.expires_at) && not (expires_by e.expires_at evaluated)
fits_now pro e evaluated = not (expires_by e.expires_at evaluated)
fits_now _ e evaluated = true

-- `createPolicyEntitlement`, where `id` is the identity of the object that it makes; `none` is the
-- `TypeError`. The context is given as what the registry knows of it, or not at all.
unfoldable pub create_policy_entitlement :
    Platform
    → Registry
    → (id : ℕ) → (input : Value) → Option PolicyContext
    → Option (PolicyEntitlement × Registry)
create_policy_entitlement platform registry id input none = none
create_policy_entitlement platform registry id input (some context) = do
  e ← entitlement_facts platform input
  check (
      leb e.granted_at.time context.evaluated_at.time
      && not (expires_by e.expires_at e.granted_at.time))
  check (fits e.plan e && fits_now e.plan e context.evaluated_at.time)
  some (e, record registry { entitlements = (id, context.account_id) ∷ registry.entitlements })

-- The object belongs to the context's account.
unfoldable pub is_own_entitlement : Registry → Value → PolicyContext → Bool
is_own_entitlement registry input context = elim (find_value input registry.entitlements) [
  | none ↦ false
  | some account ↦ text_eq account context.account_id
]

-- What `parseEntitlement` says of a row that it could read.
unfoldable pub judge_entitlement : PolicyEntitlement → ℕ → Result BlockCode Plan
judge_entitlement e evaluated =
    if ltb evaluated e.granted_at.time
    then err invalid_entitlement
    else if expires_by e.expires_at evaluated
    then err entitlement_expired
    else if fits e.plan e
    then ok e.plan
    else err invalid_entitlement

unfoldable pub parse_entitlement :
    Platform → Registry → Value → Option PolicyContext → Result BlockCode Plan
parse_entitlement platform registry input none = err invalid_entitlement
parse_entitlement platform registry input (some context) =
    if is_own_entitlement registry input context
    then elim (entitlement_facts platform input) [
      | none ↦ err invalid_entitlement
      | some e ↦ judge_entitlement e context.evaluated_at.time
    ]
    else err invalid_entitlement
