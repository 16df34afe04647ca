-- ===== src/Contracts/Export/Harmless.antt =====
-- packages/contracts/src/export.ts: the strict parts of a report have no key that names a secret.
use mathlib.Core.Path.{subst}
use text.Mathlib.TextEquality.{eq_iff}
use touchmyapi.Common.{
  ℕ, ◌≡◌, refl, arith, Bool, true, false, [], ◌∷◌, String, Text, codes, ◌&&◌, lower, lower_code,
  starts_with, All, Bool-cases, inl, inr,
}
use touchmyapi.Js.{Value, Descriptor, Props, Proto, Key, is_name}
use touchmyapi.Contracts.Redacted.{
  contains, contains_secret_key, holds_secret_key, is_secret_key, is_secret_name,
}
use touchmyapi.Contracts.Export.{
  Formats, is_text_of, is_number, Shape, is_field, are_fields, is_strict, is_redacted_object,
  window_shape, playbook_shape, credits_shape,
}

-- A shape in which neither a key nor what its test accepts names a secret.
abbrev pub IsHarmless : Shape → Type 0
IsHarmless shape =
    All
      (λ f.
        ((k : Key) → is_name f.0 k ≡ true → is_secret_key k ≡ false)
        × ((v : Value) → f.1 v ≡ true → contains_secret_key v ≡ false))
      shape

field-harmless :
    (shape : Shape)
    → IsHarmless shape
    → (k : Key) (v : Value) → is_field shape k v ≡ true
    → (is_secret_key k ≡ false) × (contains_secret_key v ≡ false)
unfolding is_field
field-harmless [] h k v e = cc
field-harmless ((s, test) ∷ shape) ((named, tested), h) k v e = elim (Bool-cases (is_name s k)) [
  | inl same ↦ (named k same, tested v (rw same at e))
  | inr other ↦ field-harmless shape h k v (rw other at e)
]

fields-harmless :
    (shape : Shape)
    → IsHarmless shape
    → (ps : Props) → are_fields shape ps ≡ true
    → holds_secret_key true ps ≡ false
unfolding are_fields holds_secret_key
fields-harmless shape h Props.end e = refl
fields-harmless shape h (Props.prop k (Descriptor.plain v) ps) e =
    let (known, more) = both (is_field shape k v) (are_fields shape ps) e in
    let (open_key, clean) = field-harmless shape h k v known in
    rw (open_key, clean) (fields-harmless shape h ps more)
  where
    both : (a b : Bool) → (a && b) ≡ true → (a ≡ true) × (b ≡ true)
    both a b h = ground arith
fields-harmless shape h (Props.prop k (Descriptor.lying v) ps) e = cc
fields-harmless shape h (Props.prop k Descriptor.missing ps) e = cc
fields-harmless shape h (Props.prop k Descriptor.accessor ps) e = cc

strict-harmless :
    (shape : Shape)
    → IsHarmless shape
    → (v : Value) → is_strict shape v ≡ true
    → contains_secret_key v ≡ false
unfolding is_strict contains_secret_key
strict-harmless shape h (Value.obj id proto ps) e = fields-harmless shape h ps (ground arith)
strict-harmless shape h (Value.arr id len ps) e = cc
strict-harmless shape h (Value.num n) e = cc
strict-harmless shape h (Value.bool b) e = cc
strict-harmless shape h (Value.str t) e = cc
strict-harmless shape h Value.null e = cc
strict-harmless shape h Value.undefined e = cc
strict-harmless shape h Value.unnamed e = cc
strict-harmless shape h Value.func e = cc
strict-harmless shape h Value.hostile e = cc

text-clean : (p : Text → Bool) (v : Value) → is_text_of p v ≡ true → contains_secret_key v ≡ false
unfolding contains_secret_key
text-clean p (Value.str t) h = refl
text-clean p (Value.obj id proto ps) h = cc
text-clean p (Value.arr id len ps) h = cc
text-clean p (Value.num n) h = cc
text-clean p (Value.bool b) h = cc
text-clean p Value.null h = cc
text-clean p Value.undefined h = cc
text-clean p Value.unnamed h = cc
text-clean p Value.func h = cc
text-clean p Value.hostile h = cc

number-clean : (v : Value) → is_number v ≡ true → contains_secret_key v ≡ false
unfolding contains_secret_key
number-clean (Value.num n) h = refl
number-clean (Value.str t) h = cc
number-clean (Value.obj id proto ps) h = cc
number-clean (Value.arr id len ps) h = cc
number-clean (Value.bool b) h = cc
number-clean Value.null h = cc
number-clean Value.undefined h = cc
number-clean Value.unnamed h = cc
number-clean Value.func h = cc
number-clean Value.hostile h = cc

key-harmless :
    (s : String)
    → is_secret_name (codes s) ≡ false
    → (k : Key) → is_name s k ≡ true
    → is_secret_key k ≡ false
key-harmless s h (Key.name t) e = subst (λ u. is_secret_name (codes u) ≡ false) ((eq_iff s t).0 e) h
key-harmless s h (Key.index i) e = refl
key-harmless s h Key.symbol e = refl

window-IsHarmless : (formats : Formats) → IsHarmless (window_shape formats)
unfolding is_secret_name lower lower_code contains starts_with
window-IsHarmless formats = (
  (key-harmless "start" refl, text-clean formats.is_datetime),
  ((key-harmless "end" refl, text-clean formats.is_datetime), tt),
)

playbook-IsHarmless : IsHarmless playbook_shape
unfolding is_secret_name lower lower_code contains starts_with
playbook-IsHarmless = (
  (key-harmless "key" refl, text-clean (λ t. true)),
  ((key-harmless "version" refl, text-clean (λ t. true)), tt),
)

credits-IsHarmless : IsHarmless credits_shape
unfolding is_secret_name lower lower_code contains starts_with
credits-IsHarmless = (
  (key-harmless "consumed" refl, number-clean),
  ((key-harmless "estimate" refl, number-clean), tt),
)

-- What the strict parts of a report hold has no key that names a secret.
pub window-clean :
    (formats : Formats) (v : Value)
    → is_strict (window_shape formats) v ≡ true
    → contains_secret_key v ≡ false
window-clean formats = strict-harmless (window_shape formats) (window-IsHarmless formats)

pub playbook-clean : (v : Value) → is_strict playbook_shape v ≡ true → contains_secret_key v ≡ false
playbook-clean = strict-harmless playbook_shape playbook-IsHarmless

pub credits-clean : (v : Value) → is_strict credits_shape v ≡ true → contains_secret_key v ≡ false
credits-clean = strict-harmless credits_shape credits-IsHarmless

-- An object without such a key passes the schema of redacted metadata.
pub clean-is_redacted_object :
    (id : ℕ) (proto : Proto) (ps : Props)
    → contains_secret_key (Value.obj id proto ps) ≡ false
    → is_redacted_object (Value.obj id proto ps) ≡ true
unfolding is_redacted_object
clean-is_redacted_object id proto ps h = rw h refl
