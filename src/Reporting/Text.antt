-- ===== src/Reporting/Text.antt =====
-- packages/reporting/src/sanitize.ts: the regular expressions, and texts without credentials.
pub mod Labels
use touchmyapi.Common.{
  ℕ, Bool, true, false, List, [], ◌∷◌, ◌++◌, Option, none, some, Text, codes, starts_with,
  lower_code, any, all, split, is_empty, is_digit, is_letter, is_space, drop_text, ◌==◌, ◌&&◌, ◌||◌,
  not, if◌then◌else◌,
}
use touchmyapi.Js.{Key, name}
use touchmyapi.Contracts.Redacted.{contains}

-- The case folding of the flags `iu`: besides the ASCII letters, the long s and the kelvin sign.
unfoldable pub fold_code : ℕ → ℕ
fold_code c = if c == 383 then b's' else if c == 8490 then b'k' else lower_code c

unfoldable pub fold : Text → Text
fold [] = []
fold (c ∷ t) = fold_code c ∷ fold t

-- What `SECRET_KEY` lists, with the choices in `api[_-]?key` and `private[_-]?key` written out.
abbrev pub key_words : List Text
key_words =
    codes "secret"
    ∷ codes "token"
    ∷ codes "password"
    ∷ codes "credential"
    ∷ codes "authorization"
    ∷ codes "apikey"
    ∷ codes "api_key"
    ∷ codes "api-key"
    ∷ codes "cookie"
    ∷ codes "privatekey"
    ∷ codes "private_key"
    ∷ codes "private-key"
    ∷ []

-- `SECRET_KEY.test(key)`
unfoldable pub is_sensitive_name : Text → Bool
is_sensitive_name t = any (λ p. contains p (fold t)) key_words

unfoldable pub is_sensitive_key : Key → Bool
is_sensitive_key (name s) = is_sensitive_name (codes s)
is_sensitive_key _ = false

abbrev pub is_label_code : ℕ → Bool
is_label_code c = is_letter c || is_digit c || c == b'_' || c == b'-'

abbrev pub is_label : Text → Bool
is_label t = not (is_empty t) && all is_label_code t

unfoldable pub are_jwt_parts : List Text → Bool
are_jwt_parts (a ∷ b ∷ c ∷ []) = is_label a && is_label b && is_label c
are_jwt_parts _ = false

-- `JWT.test(value)`
unfoldable pub is_jwt : Text → Bool
is_jwt t = are_jwt_parts (split b'.' t)

abbrev pub is_title_code : ℕ → Bool
is_title_code c = not (c == b'-' || c == 13 || c == 10)

-- `[^-\r\n]+-----`, from behind its first code unit on: what follows it.
unfoldable pub after_title : Text → Option Text
after_title [] = none
after_title (c ∷ t) =
    let further = after_title t in
    if is_title_code c
    then further
    else if starts_with (codes "-----") (c ∷ t)
    then some (drop_text (codes "-----") (c ∷ t))
    else none

-- `-----BEGIN [^-\r\n]+-----` or `-----END [^-\r\n]+-----` at the front.
unfoldable pub after_line : Text → Text → Option Text
after_line opening t =
    if starts_with opening t
    then (elim (drop_text opening t) [
      | [] ↦ none
      | c ∷ rest ↦ if is_title_code c then after_title rest else none
    ])
    else none

unfoldable pub has_end_line : Text → Bool
has_end_line [] = false
has_end_line (c ∷ t) = elim (after_line (codes "-----END ") (c ∷ t)) [
  | none ↦ has_end_line t
  | some rest ↦ true
]

-- `PEM.test(value)`
unfoldable pub is_pem : Text → Bool
is_pem [] = false
is_pem (c ∷ t) = elim (after_line (codes "-----BEGIN ") (c ∷ t)) [
  | none ↦ is_pem t
  | some rest ↦ has_end_line rest || is_pem t
]

-- `BEARER.test(value)`
unfoldable pub is_bearer : Text → Bool
is_bearer t =
    starts_with (codes "bearer") (fold t)
    && (elim (drop_text (codes "bearer") t) [ [] ↦ false | c ∷ rest ↦ is_space c ])

-- The names in `SENSITIVE_QUERY`, each with its equals sign.
abbrev pub query_names : List Text
query_names =
    codes "token="
    ∷ codes "secret="
    ∷ codes "password="
    ∷ codes "apikey="
    ∷ codes "api_key="
    ∷ codes "api-key="
    ∷ codes "authorization="
    ∷ []

unfoldable pub find_prefix : List Text → Text → Option Text
find_prefix [] t = none
find_prefix (p ∷ ps) t = if starts_with p (fold t) then some p else find_prefix ps t

abbrev pub is_value_code : ℕ → Bool
is_value_code c = not (c == b'&' || c == b'#' || is_space c)

abbrev pub starts_value : Text → Bool
starts_value [] = false
starts_value (c ∷ t) = is_value_code c

abbrev pub redacted : Text
redacted = codes "[REDACTED]"

-- The front of a match of `SENSITIVE_QUERY` up to its value.
unfoldable pub query_match : Text → Option Text
query_match [] = none
query_match (c ∷ t) =
    if c == b'?' || c == b'&'
    then (elim (find_prefix query_names t) [
      | none ↦ none
      | some p ↦ if starts_value (drop_text p t) then some p else none
    ])
    else none

-- Where the replacement stands: outside a match, in its name with so many code units left, or in its
-- value.
pub data Place : Type 0 where
  outside inside : Place
  naming : Text → Place

unfoldable pub redact_from : Place → Text → Text
redact_from place [] = elim place [ naming p ↦ redacted | _ ↦ [] ]
redact_from outside (c ∷ t) = elim (query_match (c ∷ t)) [
  | none ↦ c ∷ redact_from outside t
  | some p ↦ c ∷ redact_from (naming p) t
]
redact_from (naming []) (c ∷ t) = redacted ++ redact_from inside t
redact_from (naming (d ∷ p)) (c ∷ t) = c ∷ redact_from (naming p) t
redact_from inside (c ∷ t) =
    if is_value_code c then redact_from inside t else (elim (query_match (c ∷ t)) [
      | none ↦ c ∷ redact_from outside t
      | some p ↦ c ∷ redact_from (naming p) t
    ])

-- `value.replace(SENSITIVE_QUERY, ...)`
unfoldable pub redact_query : Text → Text
redact_query t = redact_from outside t

unfoldable pub safe_string : Text → Text
safe_string t = if is_jwt t || is_pem t || is_bearer t then redacted else redact_query t
