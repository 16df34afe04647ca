-- ===== src/Policy/Limits/Encode.antt =====
-- packages/policy/src/limits.ts.
-- The reduction of well-formed input: plain objects that carry positive safe integers.
use touchmyapi.Common.{ℕ, ◌≡◌, refl, String, Option, none, some, ok, arith, codes, suc, ◌+◌}
use touchmyapi.Js.{
  Value, Props, name, index, plain, prop, end, obj, arr, num, nat, str, object_proto, own, is_str,
  key_in, positive_safe_integer,
}
use touchmyapi.Policy.Ceiling.{LimitCeiling, PartialCeiling, min_ceiling}
use touchmyapi.Policy.Limits.{
  reduce_limits, root_of, source_of, playbook_of, ceiling_of, requested_of, validate_requested,
}
use touchmyapi.Policy.Limits.Bounds.{IsPositiveSafe, IsSafeCeiling}

abbrev pub field_of : String → ℕ → Props → Props
field_of key n rest = prop (name key) (plain (num (nat n))) rest

abbrev pub ceiling_props : LimitCeiling → Props → Props
ceiling_props c rest = field_of "durationS" c.duration_s (
    field_of "concurrency" c.concurrency
      (field_of "ratePerMin" c.rate_per_min (field_of "credits" c.credits rest)))

abbrev pub encode_ceiling : ℕ → LimitCeiling → Value
encode_ceiling id c = obj id object_proto (ceiling_props c end)

abbrev pub scope_target_only : ℕ → Value
scope_target_only id = arr id 1 (prop (index 0) (plain (str (codes "scope_target"))) end)

abbrev pub encode_playbook : ℕ → LimitCeiling → Value
encode_playbook id c =
    obj id object_proto
      (ceiling_props c (prop (name "egress") (plain (scope_target_only (id))) end))

abbrev pub optional_field : String → Option ℕ → Props → Props
optional_field key none rest = rest
optional_field key (some n) rest = field_of key n rest

abbrev pub encode_request : ℕ → PartialCeiling → Value
encode_request id r = obj id object_proto (
    optional_field "durationS" r.duration_s (
      optional_field "concurrency" r.concurrency
        (optional_field "ratePerMin" r.rate_per_min (optional_field "credits" r.credits end))))

positive_safe_integer-nat :
    (n : ℕ) → IsPositiveSafe n → positive_safe_integer (num (nat n)) ≡ some n
unfolding positive_safe_integer
positive_safe_integer-nat n h = ground arith

ceiling_of-encode :
    (id : ℕ) (c : LimitCeiling) → IsSafeCeiling c → ceiling_of (encode_ceiling id c) ≡ ok c
unfolding ceiling_of key_in own
ceiling_of-encode id c h = rw (
  positive_safe_integer-nat c.duration_s h.duration_s,
  positive_safe_integer-nat c.concurrency h.concurrency,
  positive_safe_integer-nat c.rate_per_min h.rate_per_min,
  positive_safe_integer-nat c.credits h.credits,
)

playbook_of-encode :
    (id : ℕ) (c : LimitCeiling) → IsSafeCeiling c → playbook_of (encode_playbook id c) ≡ ok c
unfolding playbook_of key_in own is_str
playbook_of-encode id c h = rw (
  positive_safe_integer-nat c.duration_s h.duration_s,
  positive_safe_integer-nat c.concurrency h.concurrency,
  positive_safe_integer-nat c.rate_per_min h.rate_per_min,
  positive_safe_integer-nat c.credits h.credits,
)

abbrev pub IsSafeOption : Option ℕ → Type 0
IsSafeOption none = Unit
IsSafeOption (some n) = IsPositiveSafe n

pub record IsSafeRequest (r : PartialCeiling) : Type 0 where
  pub duration_s : IsSafeOption r.duration_s
  pub concurrency : IsSafeOption r.concurrency
  pub rate_per_min : IsSafeOption r.rate_per_min
  pub credits : IsSafeOption r.credits

validate_requested-encode :
    (id : ℕ) (d c m k : Option ℕ)
    → IsSafeOption d
    → IsSafeOption c
    → IsSafeOption m
    → IsSafeOption k
    → let r : PartialCeiling = record {
      duration_s = d;
      concurrency = c;
      rate_per_min = m;
      credits = k;
    } in
      validate_requested (encode_request id r) ≡ ok r
unfolding validate_requested key_in own positive_safe_integer
validate_requested-encode id d c m k hd hc hm hk = ground arith

abbrev pub optional_value : String → Option Value → Props → Props
optional_value key none rest = rest
optional_value key (some v) rest = prop (name key) (plain v) rest

abbrev pub encoded_request : ℕ → Option PartialCeiling → Option Value
encoded_request id none = none
encoded_request id (some r) = some (encode_request id r)

-- The `LimitInput` that a caller of the types builds.
abbrev pub encode_input :
    ℕ → (playbook entitlement account global : LimitCeiling) → Option PartialCeiling → Value
encode_input id p e a g r = obj id object_proto (
    prop (name "playbook") (plain (encode_playbook (suc id) p)) (
      prop (name "entitlement") (plain (encode_ceiling (2 + id) e)) (
        prop (name "account") (plain (encode_ceiling (3 + id) a)) (
          prop (name "global") (plain (encode_ceiling (4 + id) g))
            (optional_value "requested" (encoded_request (5 + id) r) end)))))

abbrev pub IsSafeRequested : Option PartialCeiling → Type 0
IsSafeRequested none = Unit
IsSafeRequested (some r) = IsSafeRequest r

requested_of-encode :
    (id : ℕ) (r : Option PartialCeiling)
    → IsSafeRequested r
    → requested_of (encoded_request id r) ≡ ok r
unfolding requested_of
requested_of-encode id none h = refl
requested_of-encode id (some r) h = rw (
    validate_requested-encode id r.duration_s r.concurrency r.rate_per_min r.credits h.duration_s
      h.concurrency h.rate_per_min h.credits)

-- Four plain ceilings of positive safe integers, the playbook's with its one egress target, and any
-- request of positive safe integers reduce to the pointwise minimum, and never to an error.
pub reduce_limits-encode_input :
    (id : ℕ) (p e a g : LimitCeiling) (r : Option PartialCeiling)
    → IsSafeCeiling p
    → IsSafeCeiling e
    → IsSafeCeiling a
    → IsSafeCeiling g
    → IsSafeRequested r
    → reduce_limits (encode_input id p e a g r) ≡ ok (min_ceiling p e a g r)
unfolding reduce_limits root_of source_of own key_in
reduce_limits-encode_input id p e a g none hp he ha hg hr = rw (
  playbook_of-encode (suc id) p hp,
  ceiling_of-encode (2 + id) e he,
  ceiling_of-encode (3 + id) a ha,
  ceiling_of-encode (4 + id) g hg,
  requested_of-encode (5 + id) none tt,
)
reduce_limits-encode_input id p e a g (some r) hp he ha hg hr = rw (
  playbook_of-encode (suc id) p hp,
  ceiling_of-encode (2 + id) e he,
  ceiling_of-encode (3 + id) a ha,
  ceiling_of-encode (4 + id) g hg,
  requested_of-encode (5 + id) (some r) hr,
)
