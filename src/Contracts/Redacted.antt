-- ===== src/Contracts/Redacted.antt =====
-- packages/contracts/src/redacted.ts: metadata without keys that name a secret. A value here is JSON
-- data, as `Object.entries` lists it: entries with a name or an index as their key.
use touchmyapi.Common.{
  Bool, true, false, List, [], ◌∷◌, Text, codes, starts_with, lower, any, is_empty, ◌||◌, ◌&&◌,
}
use touchmyapi.Js.{Value, Descriptor, Props, Key, name}

-- `/p/.test(t)` for a text without operators.
unfoldable pub contains : Text → Text → Bool
contains p [] = is_empty p
contains p (c ∷ t) = starts_with p (c ∷ t) || contains p t

-- What `secretKeyPattern` lists, `api[_-]?key` written out.
abbrev pub secret_words : List Text
secret_words =
    codes "secret"
    ∷ codes "token"
    ∷ codes "password"
    ∷ codes "credential"
    ∷ codes "authorization"
    ∷ codes "apikey"
    ∷ codes "api_key"
    ∷ codes "api-key"
    ∷ codes "cookie"
    ∷ []

-- `secretKeyPattern.test(key)`; the flag `i` folds ASCII letters.
unfoldable pub is_secret_name : Text → Bool
is_secret_name t = any (λ p. contains p (lower t)) secret_words

abbrev pub is_secret_key : Key → Bool
is_secret_key (name s) = is_secret_name (codes s)
is_secret_key _ = false

unfoldable mutual
  -- `containsSecretKey`; the keys of an array are no entries.
  pub contains_secret_key : Value → Bool
  contains_secret_key (Value.arr id len ps) = holds_secret_key false ps
  contains_secret_key (Value.obj id proto ps) = holds_secret_key true ps
  contains_secret_key _ = false

  -- The entries of an object, or the elements of an array.
  pub holds_secret_key : Bool → Props → Bool
  holds_secret_key keyed Props.end = false
  holds_secret_key keyed (Props.prop k (Descriptor.plain v) ps) =
      keyed && is_secret_key k || contains_secret_key v || holds_secret_key keyed ps
  holds_secret_key keyed (Props.prop k (Descriptor.lying v) ps) =
      keyed && is_secret_key k || contains_secret_key v || holds_secret_key keyed ps
  holds_secret_key keyed (Props.prop k _ ps) = keyed && is_secret_key k || holds_secret_key keyed ps
