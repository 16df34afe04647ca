-- ===== src/Policy/Host.antt =====
-- packages/policy/src/scope.ts: host names. The WHATWG URL parser of the platform is a parameter.
pub mod Unspecified
use touchmyapi.Common.{
  ℕ, Bool, false, List, [], ◌∷◌, ◌++◌, Option, none, some, Result, ok, err, Text, codes, text_eq,
  mem_text, starts_with, ends_with, has_code, length, any, all, ltb, ◌==◌, ◌&&◌, ◌||◌, not,
  is_empty, trim, is_space, is_control, lower, drop_trailing, occurrences, reverse, if◌then◌else◌,
}
use touchmyapi.Common.Maybe.{◌>>=◌, ◌>>◌, check}
use touchmyapi.Policy.Ipv4.{parse_ipv4, canonical_ipv4, is_forbidden_ipv4}
use touchmyapi.Policy.Ipv6.{parse_ipv6, canonical_ipv6, is_forbidden_ipv6, inner}

pub data Protocol : Type 0 where
  http https unsupported : Protocol

-- What `new URL(input)` gives, as far as the code looks at it; the port is `none` where
-- `url.port` is the empty text.
pub record Url : Type 0 where
  pub protocol : Protocol
  pub username : Text
  pub password : Text
  pub hostname : Text
  pub port : Option ℕ
  pub pathname : Text
  pub search : Text

-- `new URL`; `none` where it throws.
abbrev pub UrlParser : Type 0
UrlParser = Text → Option Url

pub record CanonicalIp : Type 0 where
  pub value : Text
  pub forbidden : Bool

unfoldable pub canonical_ip : Text → Option CanonicalIp
canonical_ip input = elim (parse_ipv4 input) [
  | some v ↦ some (record { value = canonical_ipv4 v; forbidden = is_forbidden_ipv4 v })
  | none ↦ elim (parse_ipv6 input) [
    | some v ↦ some (record { value = canonical_ipv6 v; forbidden = is_forbidden_ipv6 v })
    | none ↦ none
  ]
]

abbrev pub forbidden_names : List Text
forbidden_names =
    codes "localhost"
    ∷ codes "metadata"
    ∷ codes "metadata.google.internal"
    ∷ codes "instance-data"
    ∷ codes "instance-data.ec2.internal"
    ∷ []

abbrev pub forbidden_suffixes : List Text
forbidden_suffixes =
    codes ".internal"
    ∷ codes ".local"
    ∷ codes ".localhost"
    ∷ codes ".test"
    ∷ codes ".invalid"
    ∷ codes ".example"
    ∷ []

unfoldable pub forbidden_name : Text → Bool
forbidden_name input =
    let value = drop_trailing b'.' (lower input) in
    mem_text value forbidden_names || any (λ s. ends_with s value) forbidden_suffixes

abbrev drop_front : Text → Text
drop_front [] = []
drop_front (c ∷ t) = t

-- `replace(/^\[|\]$/g, "")`: each bracket by itself.
unfoldable pub drop_brackets : Text → Text
drop_brackets t =
    let front = if starts_with (codes "[") t then drop_front t else t in
    if ends_with (codes "]") front then reverse (drop_front (reverse front)) else front

unfoldable pub is_forbidden_address : Text → Bool
is_forbidden_address input =
    let value = drop_trailing b'.' (drop_brackets (lower (trim input))) in
    is_empty value
    || forbidden_name value
    || elim (canonical_ip value) [ none ↦ false | some ip ↦ ip.forbidden ]

-- The code units that no host may hold: white space, control characters and `/ ? # @ \ *`.
unfoldable pub is_host_code : ℕ → Bool
is_host_code c = not (
    is_space c
    || is_control c
    || c == b'/'
    || c == b'?'
    || c == b'#'
    || c == b'@'
    || c == 92
    || c == b'*')

unfoldable pub has_double_dot : Text → Bool
has_double_dot t = ltb 0 (occurrences (codes "..") t)

abbrev drop_trailing_dot : Text → Text
drop_trailing_dot t = if ends_with (codes ".") t then reverse (drop_front (reverse t)) else t

pub data SurfaceError : Type 0 where
  invalid_surface_host forbidden_surface_host : SurfaceError

-- `slice(1, -1)` of a name in brackets.
unfoldable pub unbracket : Text → Text
unbracket t = if starts_with (codes "[") t && ends_with (codes "]") t then inner t else t

module _ (parse_url : UrlParser) where
  -- The name that the URL parser makes of a host that is no address.
  unfoldable pub canonicalize_name : Text → Option Text
  canonicalize_name raw = do
    check (not (has_code b':' raw))
    check (not (ends_with (codes "..") raw))
    let plain = drop_trailing_dot raw
    check (not (is_empty plain || has_double_dot plain || ltb 253 (length plain)))
    url ← parse_url (codes "http://" ++ (plain ++ codes "/"))
    let hostname = unbracket (drop_trailing b'.' (lower url.hostname))
    check (not (is_empty hostname || has_double_dot hostname || has_code b':' hostname))
    some hostname

  unfoldable pub canonicalize_host : Text → Option Text
  canonicalize_host input = do
    check (text_eq (trim input) input)
    check (not (is_empty input) && all is_host_code input)
    elim (canonical_ip input) [ some ip ↦ some ip.value | none ↦ canonicalize_name input ]

  unfoldable pub normalize_surface_host : Text → Result SurfaceError Text
  normalize_surface_host input = elim (canonicalize_host input) [
    | none ↦ err invalid_surface_host
    | some hostname ↦
        if is_forbidden_address hostname then err forbidden_surface_host else ok hostname
  ]
