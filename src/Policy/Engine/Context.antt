-- ===== src/Policy/Engine/Context.antt =====
-- packages/policy/src/engine.ts: the fingerprint of a scope, and the context of a decision.
use touchmyapi.Common.{
  ℕ, Bool, true, false, List, [], ◌∷◌, ◌++◌, String, Option, none, some, Result, Text, codes, join,
  print_number, map, ltb, ◌/◌, ◌%◌, ◌==◌, digit_code, if◌then◌else◌, require,
}
use touchmyapi.Common.Maybe.{◌>>=◌, ◌>>◌, check}
use touchmyapi.Js.{Value, Snapshot, field, name, plain, str, obj, prop, end, object_proto}
use touchmyapi.Policy.Rule.{ScopeRule, CompiledScope}
use touchmyapi.Policy.Engine.Snapshot.{exact_snapshot}
use touchmyapi.Policy.Engine.Facts.{
  BlockCode, invalid_context, Platform, PolicyContext, Registry, uuid_value, fingerprint_value,
  valid_utc, is_registered, find_value,
}

-- `JSON.stringify` of a text, one code unit of it; a lone surrogate is left as it is.
unfoldable pub json_code : ℕ → Text
json_code c =
    if c == 34
    then codes "\\\""
    else if c == 92
    then codes "\\\\"
    else if c == 8
    then codes "\\b"
    else if c == 9
    then codes "\\t"
    else if c == 10
    then codes "\\n"
    else if c == 12
    then codes "\\f"
    else if c == 13
    then codes "\\r"
    else if ltb c 32
    then codes "\\u00" ++ (digit_code (c / 16) ∷ digit_code (c % 16) ∷ [])
    else c ∷ []

unfoldable pub json_codes : Text → Text
json_codes [] = []
json_codes (c ∷ t) = json_code c ++ json_codes t

abbrev json_text : Text → Text
json_text t = 34 ∷ (json_codes t ++ (34 ∷ []))

abbrev json_port : Option ℕ → Text
json_port none = codes "null"
json_port (some p) = print_number 10 p

abbrev json_bool : Bool → Text
json_bool true = codes "true"
json_bool false = codes "false"

abbrev json_rule : ScopeRule → Text
json_rule r =
    codes "{\"host\":"
    ++ (json_text r.host
        ++ (codes ",\"port\":"
            ++ (json_port r.port
                ++ (codes ",\"pathPrefix\":"
                    ++ (json_text r.path_prefix
                        ++ (codes ",\"wildcard\":" ++ (json_bool r.wildcard ++ codes "}")))))))

abbrev json_rules : List ScopeRule → Text
json_rules rules = codes "[" ++ (join b',' (map json_rule rules) ++ codes "]")

-- The text that is hashed.
unfoldable pub canonical_scope : CompiledScope → Text
canonical_scope scope =
    codes "{\"inclusions\":"
    ++ (json_rules scope.inclusions
        ++ (codes ",\"exclusions\":" ++ (json_rules scope.exclusions ++ codes "}")))

unfoldable pub fingerprint_scope : Platform → CompiledScope → Text
fingerprint_scope platform scope = codes "sha256:" ++ platform.sha256_hex (canonical_scope scope)

abbrev pub context_input_keys : List String
context_input_keys = "accountId" ∷ "assessmentId" ∷ "userId" ∷ "evaluatedAt" ∷ []

abbrev pub context_keys : List String
context_keys = "accountId" ∷ "assessmentId" ∷ "userId" ∷ "evaluatedAt" ∷ "scopeFingerprint" ∷ []

-- The four facts that both `createPolicyContext` and `parseContext` read.
unfoldable pub context_facts : Platform → Snapshot → Text → Option PolicyContext
context_facts platform value fingerprint = do
  account ← uuid_value (field value "accountId")
  assessment ← uuid_value (field value "assessmentId")
  user ← uuid_value (field value "userId")
  evaluated ← valid_utc platform (field value "evaluatedAt")
  some (record {
    account_id = account;
    assessment_id = assessment;
    user_id = user;
    evaluated_at = evaluated;
    scope_fingerprint = fingerprint;
  })

-- `createPolicyContext`, where `id` is the identity of the object that it makes; `none` is the
-- `TypeError`.
unfoldable pub create_policy_context :
    Platform → Registry → (id : ℕ) → (input scope : Value) → Option (PolicyContext × Registry)
create_policy_context platform registry id input scope = do
  compiled ← find_value scope registry.scopes
  value ← exact_snapshot input context_input_keys
  context ← context_facts platform value (fingerprint_scope platform compiled)
  some (context, record registry { contexts = id ∷ registry.contexts })

-- The frozen object that `createPolicyContext` makes.
abbrev pub context_value : ℕ → PolicyContext → Value
context_value id c = obj id object_proto (
    prop (name "accountId") (plain (str c.account_id)) (
      prop (name "assessmentId") (plain (str c.assessment_id)) (
        prop (name "userId") (plain (str c.user_id)) (
          prop (name "evaluatedAt") (plain (str c.evaluated_at.text))
            (prop (name "scopeFingerprint") (plain (str c.scope_fingerprint)) end)))))

unfoldable pub read_context : Platform → Registry → Value → Option PolicyContext
read_context platform registry input = do
  check (is_registered registry.contexts input)
  value ← exact_snapshot input context_keys
  fingerprint ← fingerprint_value (field value "scopeFingerprint")
  context_facts platform value fingerprint

unfoldable pub parse_context : Platform → Registry → Value → Result BlockCode PolicyContext
parse_context platform registry input =
    require invalid_context (read_context platform registry input)
