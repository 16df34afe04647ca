-- ===== src/Policy/Engine/Facts.antt =====
-- packages/policy/src/engine.ts: the codes of a refusal, the decision, and the platform that the
-- engine rests on.
use touchmyapi.Common.{
  ℕ, Bool, true, false, List, [], ◌∷◌, ◌++◌, Option, none, some, Text, any, ◌==◌, if◌then◌else◌,
}
use touchmyapi.Js.{Value, str, null, obj, arr}
use touchmyapi.Policy.Host.{UrlParser}
use touchmyapi.Policy.Target.{NormalizedTarget}
use touchmyapi.Policy.Rule.{CompiledScope}
use touchmyapi.Policy.Ceiling.{LimitCeiling}
use touchmyapi.Policy.Patterns.{is_utc_iso, is_uuid, is_fingerprint}

pub data BlockCode : Type 0 where
  unknown_action unknown_target_category target_category_not_allowed : BlockCode
  target_category_mismatch unknown_plan invalid_entitlement entitlement_expired : BlockCode
  invalid_context scope_required target_invalid target_out_of_scope : BlockCode
  resolved_addresses_required forbidden_target port_not_allowed : BlockCode
  attestation_required invalid_attestation attestation_context_mismatch : BlockCode
  verification_required verification_method_not_allowed : BlockCode
  verification_not_verified verification_context_mismatch verification_expired : BlockCode
  playbook_required invalid_playbook unknown_playbook_action capability_not_allowed : BlockCode
  plan_action_not_allowed invalid_limits invalid_egress : BlockCode
  caller_execution_fields_not_allowed : BlockCode

pub BlockCode-discrete : Discrete BlockCode
BlockCode-discrete = hlevel

unfoldable pub code_eq : BlockCode → BlockCode → Bool
unfolding BlockCode-discrete
code_eq a b = elim (BlockCode-discrete a b) [ yes e ↦ true | no e ↦ false ]

-- What the engine takes from the platform: the URL parser, `Date.parse` (milliseconds from a date
-- before all others; `none` is NaN), and SHA-256 as lower-case hexadecimal text.
pub record Platform : Type 0 where
  pub parse_url : UrlParser
  pub parse_date : Text → Option ℕ
  pub sha256_hex : Text → Text

pub record AuthorizedAction : Type 0 where
  pub id : Text
  pub kind : Text
  pub capability : Text
  pub get : Bool
  pub requests : ℕ
  pub duration_s : ℕ

pub record PolicyDecision : Type 0 where
  pub allowed : Bool
  pub blocked : List BlockCode
  pub actions : List AuthorizedAction
  pub capabilities : List Text
  pub limits : Option LimitCeiling
  pub target : Option NormalizedTarget
  pub resolved_addresses : List Text
  pub scope_fingerprint : Option Text

-- A text that is a valid UTC time, with its `Date.parse`.
pub record Instant : Type 0 where
  pub text : Text
  pub time : ℕ

pub record PolicyContext : Type 0 where
  pub account_id : Text
  pub assessment_id : Text
  pub user_id : Text
  pub evaluated_at : Instant
  pub scope_fingerprint : Text

-- The three weak collections: the identities of the contexts, of the entitlements with their
-- account, and of the compiled scopes, which are frozen and whose rules are kept here.
pub record Registry : Type 0 where
  pub contexts : List ℕ
  pub entitlements : List (ℕ × Text)
  pub scopes : List (ℕ × CompiledScope)

abbrev pub find_id {ℓ} : {A : Type ℓ} → ℕ → List (ℕ × A) → Option A
find_id i [] = none
find_id i ((j, a) ∷ rest) = if j == i then some a else find_id i rest

-- `blocked.includes(code)`.
unfoldable pub has_code_in : BlockCode → List BlockCode → Bool
has_code_in c cs = any (λ d. code_eq c d) cs

-- `add(code)`.
unfoldable pub add_code : List BlockCode → BlockCode → List BlockCode
add_code blocked c = if has_code_in c blocked then blocked else blocked ++ c ∷ []

-- A sequence of calls of `add`; also the loop of `denied`, which keeps the first of equal codes.
unfoldable pub add_codes : List BlockCode → List BlockCode → List BlockCode
add_codes blocked [] = blocked
add_codes blocked (c ∷ cs) = add_codes (add_code blocked c) cs

unfoldable pub denied : List BlockCode → PolicyDecision
denied blocked = record {
  allowed = false;
  blocked = add_codes [] blocked;
  actions = [];
  capabilities = [];
  limits = none;
  target = none;
  resolved_addresses = [];
  scope_fingerprint = none;
}

unfoldable pub allowed :
    List AuthorizedAction
    → List Text
    → LimitCeiling
    → NormalizedTarget
    → List Text
    → Text
    → PolicyDecision
allowed actions capabilities limits target addresses fingerprint = record {
  allowed = true;
  blocked = [];
  actions = actions;
  capabilities = capabilities;
  limits = some limits;
  target = some target;
  resolved_addresses = addresses;
  scope_fingerprint = some fingerprint;
}

-- `typeof value === "string" && UUID.test(value)` with the text.
unfoldable pub uuid_value : Value → Option Text
uuid_value (str t) = if is_uuid t then some t else none
uuid_value _ = none

unfoldable pub fingerprint_value : Value → Option Text
fingerprint_value (str t) = if is_fingerprint t then some t else none
fingerprint_value _ = none

-- `validUtc`, with the text and its `Date.parse`.
unfoldable pub valid_utc : Platform → Value → Option Instant
valid_utc platform (str t) =
    if is_utc_iso t
    then elim (platform.parse_date t) [
      | none ↦ none
      | some n ↦ some (record { text = t; time = n })
    ]
    else none
valid_utc platform _ = none

abbrev pub nullable_utc : Platform → Value → Option (Option Instant)
nullable_utc platform null = some none
nullable_utc platform v = elim (valid_utc platform v) [ none ↦ none | some i ↦ some (some i) ]

-- The identity of an object or an array.
abbrev pub id_of : Value → Option ℕ
id_of (obj i proto ps) = some i
id_of (arr i len ps) = some i
id_of _ = none

-- `set.has(value)`
abbrev pub is_registered : List ℕ → Value → Bool
is_registered ids v = elim (id_of v) [ none ↦ false | some i ↦ any (λ j. j == i) ids ]

abbrev pub find_value {ℓ} : {A : Type ℓ} → Value → List (ℕ × A) → Option A
find_value v pairs = elim (id_of v) [ none ↦ none | some i ↦ find_id i pairs ]
