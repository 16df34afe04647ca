-- ===== src/Policy/Limits.antt =====
-- packages/policy/src/limits.ts: the reduction of an assessment's limits, which no value from the
-- caller can widen.
pub mod Bounds
pub mod Encode
use touchmyapi.Common.{
  Bool, true, false, List, [], ◌∷◌, String, Option, none, some, Result, ok, err, ◌>>=◌, ◌>>◌, guard,
  require, ◌==◌, ◌&&◌, not, if◌then◌else◌,
}
use touchmyapi.Js.{
  Value, Key, Descriptor, Props, props, Snapshot, own, key_in, is_str, is_name, name, index,
  object_proto, other_proto, obj, arr, plain, lying, accessor, missing,
}
use touchmyapi.Policy.Ceiling.{
  LimitCeiling, PartialCeiling, ceiling_keys, validate_ceiling, partial_ceiling, min_ceiling,
}

-- `EffectiveLimits`; its `egress` is the constant `["scope_target"]`, so the record is the ceiling.
abbrev pub EffectiveLimits : Type 0
EffectiveLimits = LimitCeiling

pub data LimitErrorCode : Type 0 where
  missing_authoritative_limit invalid_authoritative_limit invalid_requested_limit invalid_egress :
      LimitErrorCode

abbrev pub root_keys : List String
root_keys = "playbook" ∷ "entitlement" ∷ "account" ∷ "requested" ∷ "global" ∷ []

abbrev pub playbook_keys : List String
playbook_keys = "durationS" ∷ "concurrency" ∷ "ratePerMin" ∷ "credits" ∷ "egress" ∷ []

-- The loop of `snapshotRecord`; `accessor_code` is what an accessor at a key is refused with.
unfoldable pub snapshot_entries :
    List String
    → LimitErrorCode
    → (Key → LimitErrorCode)
    → List (Key × Descriptor)
    → Result LimitErrorCode Snapshot
snapshot_entries allowed code accessor_code [] = ok []
snapshot_entries allowed code accessor_code ((k, d) ∷ rest) =
    if not (key_in allowed k) then err code else elim d [
      | missing ↦ err code
      | accessor ↦ err (accessor_code k)
      | plain v ↦ do more ← snapshot_entries allowed code accessor_code rest; ok ((k, v) ∷ more)
      | lying v ↦ do more ← snapshot_entries allowed code accessor_code rest; ok ((k, v) ∷ more)
    ]

-- An exception inside is caught and answered with the same code, so a hostile object gives `code`.
unfoldable pub snapshot_record :
    Value → List String → LimitErrorCode → (Key → LimitErrorCode) → Result LimitErrorCode Snapshot
unfolding snapshot_entries
snapshot_record (obj id other_proto ps) allowed code accessor_code = err code
snapshot_record (obj id _ ps) allowed code accessor_code =
    snapshot_entries allowed code accessor_code (props ps)
snapshot_record _ allowed code accessor_code = err code

unfoldable pub validate_egress : Value → Bool
validate_egress (arr id len (Props.prop (index k) (plain v) Props.end)) =
    k == 0 && len == 1 && is_str "scope_target" v
validate_egress (arr id len (Props.prop (index k) (lying v) Props.end)) =
    k == 0 && len == 1 && is_str "scope_target" v
validate_egress _ = false

unfoldable pub validate_playbook : Snapshot → Result LimitErrorCode LimitCeiling
unfolding validate_ceiling validate_egress
validate_playbook value = do
  limits ← require invalid_authoritative_limit (validate_ceiling value)
  egress ← require invalid_egress (own value "egress")
  guard (validate_egress egress) invalid_egress
  ok limits

-- Only an object with the prototype `Object.prototype` can be a request.
unfoldable pub validate_requested : Value → Result LimitErrorCode PartialCeiling
unfolding snapshot_record partial_ceiling
validate_requested (obj id object_proto ps) = do
  snapshot ←
      snapshot_record (obj id object_proto ps) ceiling_keys invalid_requested_limit
        (λ _. invalid_requested_limit)
  require invalid_requested_limit (partial_ceiling snapshot)
validate_requested _ = err invalid_requested_limit

abbrev pub accessor_at_playbook : Key → LimitErrorCode
accessor_at_playbook k = if is_name "egress" k then invalid_egress else invalid_authoritative_limit

unfoldable pub playbook_of : Value → Result LimitErrorCode LimitCeiling
unfolding snapshot_record validate_playbook
playbook_of v = do
  s ← snapshot_record v playbook_keys invalid_authoritative_limit accessor_at_playbook
  validate_playbook s

-- The snapshot and the validation of one of the other authorities, which fail with one code.
unfoldable pub ceiling_of : Value → Result LimitErrorCode LimitCeiling
unfolding snapshot_record validate_ceiling
ceiling_of v = do
  s ← snapshot_record v ceiling_keys invalid_authoritative_limit (λ _. invalid_authoritative_limit)
  require invalid_authoritative_limit (validate_ceiling s)

unfoldable pub requested_of : Option Value → Result LimitErrorCode (Option PartialCeiling)
unfolding validate_requested
requested_of none = ok none
requested_of (some v) = do requested ← validate_requested v; ok (some requested)

unfoldable pub root_of : Value → Result LimitErrorCode Snapshot
unfolding snapshot_record
root_of input =
    snapshot_record input root_keys invalid_authoritative_limit (λ _. invalid_authoritative_limit)

-- `hasOwn(root, source)` and the value there.
unfoldable pub source_of : Snapshot → String → Result LimitErrorCode Value
source_of root source = require missing_authoritative_limit (own root source)

unfoldable pub reduce_limits : Value → Result LimitErrorCode EffectiveLimits
reduce_limits input = do
  root ← root_of input
  playbook_value ← source_of root "playbook"
  entitlement_value ← source_of root "entitlement"
  account_value ← source_of root "account"
  global_value ← source_of root "global"
  playbook ← playbook_of playbook_value
  entitlement ← ceiling_of entitlement_value
  account ← ceiling_of account_value
  global ← ceiling_of global_value
  requested ← requested_of (own root "requested")
  ok (min_ceiling playbook entitlement account global requested)
