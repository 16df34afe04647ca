-- ===== src/Js.antt =====
-- JavaScript values as the policy boundary meets them: data of any shape, from any caller.
-- An object has an identity, a prototype and a list of own properties; a property of an ordinary
-- object is a data property or an accessor, and what only a proxy can do is a constructor of its
-- own: a read that disagrees with the descriptor, a key without a descriptor, and an object whose
-- every reflective operation throws.
use text.Mathlib.Text.{◌==◌ as str_eq}
use touchmyapi.Common.{
  ℕ, Bool, true, false, List, [], ◌∷◌, Text, String, codes, text_eq, Option, none, some, ltb, ◌^◌,
  ◌&&◌, if◌then◌else◌, any,
}

-- A number, as far as the code looks at it: a non-negative integer; `fraction n`, between `n` and
-- `n + 1`; a negative number; an infinite one; NaN.
pub data Number : Type 0 where
  nat : ℕ → Number
  fraction : ℕ → Number
  negative infinite : Number
  nan : Number

-- An own property's key: a name, the decimal name of an array index, or a symbol.
pub data Key : Type 0 where
  name : String → Key
  index : ℕ → Key
  symbol : Key

pub data Proto : Type 0 where
  object_proto null_proto other_proto : Proto

mutual
  pub data Value : Type 0 where
    undefined null unnamed func hostile : Value
    bool : Bool → Value
    num : Number → Value
    str : Text → Value
    obj : (id : ℕ) → Proto → Props → Value
    arr : (id : ℕ) → (len : ℕ) → Props → Value

  pub data Descriptor : Type 0 where
    plain lying : Value → Descriptor
    accessor missing : Descriptor

  pub data Props : Type 0 where
    end : Props
    prop : Key → Descriptor → Props → Props

abbrev pub props : Props → List (Key × Descriptor)
props end = []
props (prop k d ps) = (k, d) ∷ props ps

abbrev pub is_name : String → Key → Bool
is_name s (name t) = str_eq s t
is_name s _ = false

-- The null-prototype copy of an object that a snapshot makes.
abbrev pub Snapshot : Type 0
Snapshot = List (Key × Value)

-- `Object.prototype.hasOwnProperty.call(snapshot, key)` with the value there; own keys are distinct.
unfoldable pub own : Snapshot → String → Option Value
own [] s = none
own ((k, v) ∷ rest) s = if is_name s k then some v else own rest s

-- `snapshot[key]`.
unfoldable pub field : Snapshot → String → Value
unfolding own
field r s = elim (own r s) [ none ↦ undefined | some v ↦ v ]

-- `keys.includes(key)` where the key is one of a list of names.
unfoldable pub key_in : List String → Key → Bool
key_in names k = any (λ s. is_name s k) names

-- `value === "literal"`.
unfoldable pub is_str : String → Value → Bool
unfolding text_eq
is_str s (str t) = text_eq t (codes s)
is_str s _ = false

abbrev pub as_str : Value → Option Text
as_str (str t) = some t
as_str _ = none

abbrev pub is_null : Value → Bool
is_null null = true
is_null _ = false

abbrev pub is_nullish : Value → Bool
is_nullish null = true
is_nullish undefined = true
is_nullish _ = false

-- `Number.MAX_SAFE_INTEGER` + 1.
abbrev pub safe_bound : ℕ
safe_bound = 2 ^ 53

-- `typeof value === "number" && Number.isSafeInteger(value) && value > 0`.
unfoldable pub positive_safe_integer : Value → Option ℕ
positive_safe_integer (num (nat n)) = if ltb 0 n && ltb n safe_bound then some n else none
positive_safe_integer _ = none
