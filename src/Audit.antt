-- ===== src/Audit.antt =====
-- packages/db/src/audit.ts: what an audit event may carry. The insertion itself is SQL.
pub mod Hidden
pub mod Normalized
use touchmyapi.Common.{
  ℕ, Bool, true, false, List, [], ◌∷◌, ◌++◌, Option, none, some, Text, codes, lower, any, all, not,
  trim, is_empty, length, leb, split, replicate, is_hex, mem_text, ◌==◌, ◌&&◌, ◌||◌, if◌then◌else◌,
}
use touchmyapi.Common.Maybe.{◌>>=◌, ◌>>◌, check}
use touchmyapi.Js.{Value, Number, Descriptor, Props, Key, Proto, is_name, as_str}
use touchmyapi.Policy.Patterns.{matches_classes, is_code, is_variant_digit}
use touchmyapi.Contracts.Redacted.{contains}
use touchmyapi.Reporting.Text.{is_label_code, is_label, is_pem, redacted, key_words}
use touchmyapi.Reporting.Sanitize.{is_finite, put, is_index}

-- `SENSITIVE_KEY.test(key)`; the flag `i` alone folds ASCII letters.
unfoldable pub is_sensitive : Text → Bool
is_sensitive t = any (λ p. contains p (lower t)) key_words

unfoldable pub hides : Key → Bool
hides (Key.name s) = is_sensitive (codes s)
hides _ = false

abbrev pub starts_label : Text → Bool
starts_label [] = false
starts_label (c ∷ t) = is_label_code c

abbrev pub ends_label : Text → Bool
ends_label [] = false
ends_label (c ∷ []) = is_label_code c
ends_label (c ∷ d ∷ t) = ends_label (d ∷ t)

-- Three labels that two dots join, anywhere.
unfoldable pub has_jwt_parts : List Text → Bool
has_jwt_parts [] = false
has_jwt_parts (a ∷ rest) =
    let later = has_jwt_parts rest in
    elim rest [ b ∷ c ∷ more ↦ ends_label a && is_label b && starts_label c || later | _ ↦ later ]

-- `JWT.test(value)`
unfoldable pub has_jwt : Text → Bool
has_jwt t = has_jwt_parts (split b'.' t)

abbrev pub is_symbol_key : Key → Bool
is_symbol_key Key.symbol = true
is_symbol_key _ = false

abbrev pub has_symbol : Props → Bool
has_symbol Props.end = false
has_symbol (Props.prop k d ps) = is_symbol_key k || has_symbol ps

abbrev pub is_plain_proto : Proto → Bool
is_plain_proto Proto.other_proto = false
is_plain_proto _ = true

abbrev pub redacted_value : Value
redacted_value = Value.str redacted

-- A hidden entry is redacted unread; an array's other properties are not copied.
unfoldable pub add_entry : Bool → Key → Option Value → Option Props → Option Props
add_entry true k clean rest =
    if hides k
    then (do qs ← rest; some (put k redacted_value qs))
    else (do w ← clean; qs ← rest; some (put k w qs))
add_entry false k clean rest =
    if is_index k then (do w ← clean; qs ← rest; some (put k w qs)) else rest

-- `seen` is the set of the objects around the value. A copy has no identity of its own here. A getter
-- counts as one that throws.
unfoldable mutual
  -- `redactValue` under a key that hides nothing; `none` is an exception.
  pub redact_value : List ℕ → Value → Option Value
  redact_value seen Value.null = some Value.null
  redact_value seen (Value.bool b) = some (Value.bool b)
  redact_value seen (Value.num n) = if is_finite n then some (Value.num n) else none
  redact_value seen (Value.str t) =
      if has_jwt t || is_pem t then some redacted_value else some (Value.str t)
  redact_value seen (Value.arr id len ps) = do
    check (not (any (λ i. i == id) seen))
    qs ← redact_props false (id ∷ seen) ps
    some (Value.arr 0 len qs)
  redact_value seen (Value.obj id proto ps) = do
    check (not (any (λ i. i == id) seen) && is_plain_proto proto && not (has_symbol ps))
    qs ← redact_props true (id ∷ seen) ps
    some (Value.obj 0 Proto.object_proto qs)
  redact_value seen _ = none

  -- The entries of an object, or the elements of an array.
  pub redact_props : Bool → List ℕ → Props → Option Props
  redact_props keyed seen Props.end = some Props.end
  redact_props keyed seen (Props.prop k (Descriptor.plain v) ps) =
      let rest = redact_props keyed seen ps in
      let clean = redact_value seen v in add_entry keyed k clean rest
  redact_props keyed seen (Props.prop k (Descriptor.lying v) ps) =
      let rest = redact_props keyed seen ps in
      let clean = redact_value seen v in add_entry keyed k clean rest
  redact_props keyed seen (Props.prop k Descriptor.missing ps) = redact_props keyed seen ps
  redact_props keyed seen (Props.prop k Descriptor.accessor ps) =
      let rest = redact_props keyed seen ps in if keyed || is_index k then none else rest

abbrev pub audit_actions : List Text
audit_actions =
    codes "request"
    ∷ codes "authz"
    ∷ codes "verify"
    ∷ codes "policy"
    ∷ codes "dispatch"
    ∷ codes "runner"
    ∷ codes "artifacts"
    ∷ codes "analyze"
    ∷ codes "publish"
    ∷ codes "download"
    ∷ codes "billing"
    ∷ codes "delete"
    ∷ []

abbrev dash : List (ℕ → Bool)
dash = is_code b'-' ∷ []

-- The UUID of this file, which fixes the variant only.
abbrev variant_uuid_classes : List (ℕ → Bool)
variant_uuid_classes =
    replicate 8 is_hex
    ++ (dash
        ++ (replicate 4 is_hex
            ++ (dash
                ++ (replicate 4 is_hex
                    ++ (dash
                        ++ (is_variant_digit
                            ∷ (replicate 3 is_hex ++ (dash ++ replicate 12 is_hex))))))))

unfoldable pub is_variant_uuid : Text → Bool
unfolding matches_classes is_hex is_variant_digit
is_variant_uuid t = matches_classes variant_uuid_classes t

-- The fields of the input, as they are read.
pub record AuditAppendInput : Type 0 where
  pub actor : Value
  pub action : Value
  pub payload : Value
  pub assessment_id : Value
  pub job_id : Value

pub record NormalizedInput : Type 0 where
  pub actor : Text
  pub action : Text
  pub payload : Value
  pub assessment_id : Option Text
  pub job_id : Option Text

-- A field that may be missing or null.
unfoldable pub optional_uuid : Value → Option (Option Text)
optional_uuid Value.undefined = some none
optional_uuid Value.null = some none
optional_uuid (Value.str t) = if is_variant_uuid t then some (some t) else none
optional_uuid _ = none

-- The payload is an object and no array.
unfoldable pub redact_payload : Value → Option Value
redact_payload (Value.obj id proto ps) = redact_value [] (Value.obj id proto ps)
redact_payload _ = none

-- `normalizeInput`; `none` is its one exception, whatever was thrown inside.
unfoldable pub normalize_input : AuditAppendInput → Option NormalizedInput
normalize_input input = do
  actor ← as_str input.actor
  check (not (is_empty (trim actor)) && leb (length actor) 256)
  action ← as_str input.action
  check (mem_text action audit_actions)
  assessment ← optional_uuid input.assessment_id
  job ← optional_uuid input.job_id
  payload ← redact_payload input.payload
  some (record {
    actor = actor;
    action = action;
    payload = payload;
    assessment_id = assessment;
    job_id = job;
  })
