-- ===== src/Api/Session.antt =====
-- apps/api/src/auth.ts: the session token in a request's cookies.
use touchmyapi.Common.{
  ℕ, Bool, List, [], ◌∷◌, Option, none, some, Text, text_eq, split, join, trim, is_empty, all,
  is_digit, is_letter, length, ◌==◌, ◌&&◌, ◌||◌, if◌then◌else◌,
}

-- The value of a cookie whose key and rest are `fields`.
abbrev pub value_of : List Text → Option Text
value_of fields = let value = join b'=' fields in if is_empty value then none else some value

-- The first part of the header with the name decides, even where its value is empty.
unfoldable pub find_cookie : Text → List Text → Option Text
find_cookie name [] = none
find_cookie name (part ∷ parts) =
    let later = find_cookie name parts in
    elim (split b'=' (trim part)) [
      | [] ↦ later
      | key ∷ rest ↦ if text_eq key name then value_of rest else later
    ]

-- `readCookie`, from the header `cookie`.
unfoldable pub read_cookie : Option Text → Text → Option Text
read_cookie none name = find_cookie name (split b';' [])
read_cookie (some header) name = find_cookie name (split b';' header)

abbrev pub is_token_code : ℕ → Bool
is_token_code c = is_letter c || is_digit c || c == b'_' || c == b'-'

-- `/^[A-Za-z0-9_-]{43}$/u`
unfoldable pub is_session_token : Text → Bool
is_session_token t = length t == 43 && all is_token_code t

unfoldable pub read_session_token : Option Text → Text → Option Text
read_session_token header name = elim (read_cookie header name) [
  | none ↦ none
  | some token ↦ if is_session_token token then some token else none
]
