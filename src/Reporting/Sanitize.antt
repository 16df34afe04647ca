-- ===== src/Reporting/Sanitize.antt =====
-- packages/reporting/src/sanitize.ts: values without the fields that are shaped like credentials.
pub mod Clean
pub mod Data
use touchmyapi.Common.{
  ℕ, Bool, true, false, List, [], ◌∷◌, Option, none, some, Text, any, not, ◌==◌, ◌&&◌, ◌||◌,
  if◌then◌else◌,
}
use touchmyapi.Common.Maybe.{◌>>=◌, ◌>>◌, check}
use touchmyapi.Js.{Value, Number, Descriptor, Props, Key, Proto, is_name}
use touchmyapi.Reporting.Text.{safe_string, is_sensitive_key}

abbrev pub is_finite : Number → Bool
is_finite Number.nan = false
is_finite Number.infinite = false
is_finite n = true

-- A property that the copy gets; an assignment to `__proto__` makes none.
abbrev pub put : Key → Value → Props → Props
put k v ps = if is_name "__proto__" k then ps else Props.prop k (Descriptor.plain v) ps

abbrev pub is_index : Key → Bool
is_index (Key.index i) = true
is_index _ = false

-- An entry is skipped if its key names a secret, or is none that the code lists.
abbrev pub is_skipped : Bool → Key → Bool
is_skipped true Key.symbol = true
is_skipped true k = is_sensitive_key k
is_skipped false k = not (is_index k)

-- Neither `Object.entries` nor `map` reads the property.
abbrev pub is_unread : Bool → Key → Bool
is_unread true Key.symbol = true
is_unread true k = false
is_unread false k = not (is_index k)

-- `seen` is the set of the objects around the value. A copy has no identity of its own here. A getter
-- counts as one that throws.
unfoldable mutual
  -- `sanitizeValue`; `none` is an exception.
  pub sanitize_value : List ℕ → Value → Option Value
  sanitize_value seen Value.null = some Value.null
  sanitize_value seen (Value.bool b) = some (Value.bool b)
  sanitize_value seen (Value.num n) = if is_finite n then some (Value.num n) else none
  sanitize_value seen (Value.str t) = some (Value.str (safe_string t))
  sanitize_value seen (Value.arr id len ps) = do
    check (not (any (λ i. i == id) seen))
    qs ← sanitize_props false (id ∷ seen) ps
    some (Value.arr 0 len qs)
  sanitize_value seen (Value.obj id proto ps) = do
    check (not (any (λ i. i == id) seen))
    qs ← sanitize_props true (id ∷ seen) ps
    some (Value.obj 0 Proto.object_proto qs)
  sanitize_value seen _ = none

  -- The entries of an object, or the elements of an array.
  pub sanitize_props : Bool → List ℕ → Props → Option Props
  sanitize_props keyed seen Props.end = some Props.end
  sanitize_props keyed seen (Props.prop k (Descriptor.plain v) ps) =
      let rest = sanitize_props keyed seen ps in
      let clean = sanitize_value seen v in
      if is_skipped keyed k then rest else (do w ← clean; qs ← rest; some (put k w qs))
  sanitize_props keyed seen (Props.prop k (Descriptor.lying v) ps) =
      let rest = sanitize_props keyed seen ps in
      let clean = sanitize_value seen v in
      if is_skipped keyed k then rest else (do w ← clean; qs ← rest; some (put k w qs))
  sanitize_props keyed seen (Props.prop k Descriptor.missing ps) = sanitize_props keyed seen ps
  sanitize_props keyed seen (Props.prop k Descriptor.accessor ps) =
      let rest = sanitize_props keyed seen ps in if is_unread keyed k then rest else none

-- `sanitizedObject`
unfoldable pub sanitized_object : Value → Option Value
sanitized_object (Value.obj id proto ps) = sanitize_value [] (Value.obj id proto ps)
sanitized_object _ = some (Value.obj 0 Proto.object_proto Props.end)
