-- ===== src/Policy/Target.antt =====
-- packages/policy/src/scope.ts: the normal form of a target's URL.
use touchmyapi.Common.{
  ℕ, Bool, true, false, [], ◌∷◌, ◌++◌, Option, none, some, Result, ok, ◌>>=◌, ◌>>◌, guard, require,
  Text, codes, text_eq, starts_with, has_code, any, leb, ltb, ◌==◌, ◌&&◌, ◌||◌, not, is_empty, cut,
  cut_at, occurrences, trim, is_space, is_control, lower, print_number, if◌then◌else◌,
}
use touchmyapi.Policy.Host.{
  Protocol, http, unsupported, Url, UrlParser, canonicalize_host, is_forbidden_address,
}

pub data TargetError : Type 0 where
  invalid_url ambiguous_path_encoding fragment_not_allowed credentials_not_allowed : TargetError
  unsupported_protocol host_required forbidden_target : TargetError

pub record NormalizedTarget : Type 0 where
  pub url : Text
  pub hostname : Text
  pub port : ℕ
  pub path : Text
  pub protocol : Protocol

-- `/%(?:2f|5c|2e|25)/i`
unfoldable pub has_ambiguous_path_encoding : Text → Bool
has_ambiguous_path_encoding input =
    any (λ p. ltb 0 (occurrences p (lower input)))
      (codes "%2f" ∷ codes "%5c" ∷ codes "%2e" ∷ codes "%25" ∷ [])

-- What stands before the first `?` or `#`.
unfoldable pub before_query : Text → Text
before_query [] = []
before_query (c ∷ t) = let rest = before_query t in if c == b'?' || c == b'#' then [] else c ∷ rest

unfoldable pub raw_url_path : Text → Text
raw_url_path input = elim (cut_at (codes "://") input) [
  | none ↦ codes "/"
  | some (scheme, rest) ↦ elim (cut b'/' rest) [
    | none ↦ codes "/"
    | some (authority, path) ↦ before_query (b'/' ∷ path)
  ]
]

-- `/^https?:\/\/\//i`
unfoldable pub has_empty_authority : Text → Bool
has_empty_authority input =
    starts_with (codes "http:///") (lower input) || starts_with (codes "https:///") (lower input)

unfoldable pub is_malformed_url : Text → Bool
is_malformed_url input =
    is_empty input
    || not (text_eq (trim input) input)
    || any is_space input
    || any is_control input
    || has_empty_authority input
    || has_code b'#' input
    || has_code b'@' input
    || has_code 92 input

unfoldable pub malformed_code : Text → TargetError
malformed_code input =
    if has_code 92 input
    then ambiguous_path_encoding
    else if has_code b'#' input
    then fragment_not_allowed
    else if has_code b'@' input
    then credentials_not_allowed
    else invalid_url

-- The port of `DEFAULT_PORTS`, and the scheme's text; the two that the code goes on with.
abbrev pub default_port : Protocol → ℕ
default_port http = 80
default_port _ = 443

abbrev pub protocol_text : Protocol → Text
protocol_text http = codes "http:"
protocol_text _ = codes "https:"

abbrev pub is_supported : Protocol → Bool
is_supported unsupported = false
is_supported _ = true

abbrev pub or_default : ℕ → Option ℕ → ℕ
or_default d none = d
or_default d (some p) = p

abbrev pub or_root : Text → Text
or_root [] = codes "/"
or_root (c ∷ t) = c ∷ t

abbrev pub port_part : Protocol → ℕ → Text
port_part protocol port = if port == default_port protocol then [] else b':' ∷ print_number 10 port

abbrev pub authority_of : Text → Text
authority_of hostname =
    if has_code b':' hostname then codes "[" ++ (hostname ++ codes "]") else hostname

-- The URL that the code builds from the parts.
unfoldable pub target_of : Url → Text → ℕ → Text → NormalizedTarget
target_of parsed hostname port path = record {
  url =
      protocol_text parsed.protocol
      ++ (codes "//"
          ++ (authority_of hostname
              ++ (port_part parsed.protocol port ++ (path ++ parsed.search))));
  hostname = hostname;
  port = port;
  path = path;
  protocol = parsed.protocol;
}

module _ (parse_url : UrlParser) where
  -- The checks on the URL that the platform has parsed.
  unfoldable pub normalize_parsed : Url → Result TargetError NormalizedTarget
  normalize_parsed parsed = do
    guard (is_supported parsed.protocol) unsupported_protocol
    guard (is_empty parsed.username && is_empty parsed.password) credentials_not_allowed
    guard (not (is_empty parsed.hostname)) host_required
    hostname ← require invalid_url (canonicalize_host parse_url parsed.hostname)
    guard (not (is_forbidden_address hostname)) forbidden_target
    let port = or_default (default_port parsed.protocol) parsed.port
    guard (leb 1 port && leb port 65535) invalid_url
    let path = or_root parsed.pathname
    guard (not (has_ambiguous_path_encoding path)) ambiguous_path_encoding
    ok (target_of parsed hostname port path)

  unfoldable pub normalize_external_url : Text → Result TargetError NormalizedTarget
  normalize_external_url input = do
    guard (not (has_ambiguous_path_encoding (raw_url_path input))) ambiguous_path_encoding
    guard (not (is_malformed_url input)) (malformed_code input)
    parsed ← require invalid_url (parse_url input)
    normalize_parsed parsed
