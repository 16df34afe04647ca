-- ===== src/Contracts/Export.antt =====
-- packages/contracts/src/export.ts: the parts of a report that its schema takes as they are given. A
-- value here is JSON data: entries that are plain data. The formats of zod's `uuid()` and
-- `datetime()` are parameters.
pub mod Harmless
use touchmyapi.Common.{
  ◌≡◌, refl, arith, Bool, true, false, List, [], ◌∷◌, String, Text, codes, all, not, ◌&&◌, ◌||◌,
  if◌then◌else◌, All, Bool-cases, inl, inr,
}
use touchmyapi.Js.{Number, Value, Descriptor, Props, Key, is_name}
use touchmyapi.Contracts.Redacted.{contains_secret_key, holds_secret_key, is_secret_key}

pub record Formats : Type 0 where
  pub is_uuid : Text → Bool
  pub is_datetime : Text → Bool

abbrev pub is_text_of : (Text → Bool) → Value → Bool
is_text_of p (Value.str t) = p t
is_text_of p _ = false

abbrev pub is_text : Value → Bool
is_text v = is_text_of (λ t. true) v

-- `z.number()`
abbrev pub is_number : Value → Bool
is_number (Value.num Number.nan) = false
is_number (Value.num n) = true
is_number _ = false

-- The fields of a strict object with their tests.
abbrev pub Shape : Type 0
Shape = List (String × (Value → Bool))

unfoldable pub is_field : Shape → Key → Value → Bool
is_field [] k v = false
is_field ((s, test) ∷ shape) k v = if is_name s k then test v else is_field shape k v

unfoldable pub are_fields : Shape → Props → Bool
are_fields shape Props.end = true
are_fields shape (Props.prop k (Descriptor.plain v) ps) = is_field shape k v && are_fields shape ps
are_fields shape (Props.prop k _ ps) = false

unfoldable pub has_key : String → Props → Bool
has_key s Props.end = false
has_key s (Props.prop k d ps) = is_name s k || has_key s ps

-- `z.object(shape).strict()`
unfoldable pub is_strict : Shape → Value → Bool
is_strict shape (Value.obj id proto ps) = are_fields shape ps && all (λ f. has_key f.0 ps) shape
is_strict shape _ = false

-- `redactedObjectSchema`
unfoldable pub is_redacted_object : Value → Bool
is_redacted_object (Value.obj id proto ps) = not (contains_secret_key (Value.obj id proto ps))
is_redacted_object _ = false

abbrev pub window_shape : Formats → Shape
window_shape formats =
    ("start", is_text_of formats.is_datetime) ∷ ("end", is_text_of formats.is_datetime) ∷ []

abbrev pub playbook_shape : Shape
playbook_shape = ("key", is_text) ∷ ("version", is_text) ∷ []

abbrev pub credits_shape : Shape
credits_shape = ("consumed", is_number) ∷ ("estimate", is_number) ∷ []
