-- ===== src/Policy/Rule.antt =====
-- packages/policy/src/scope.ts: the rules of a scope, and their compilation.
use touchmyapi.Common.{
  ℕ, Bool, true, false, List, [], ◌∷◌, ◌++◌, Option, none, some, Result, ok, err, ◌>>=◌, ◌>>◌,
  guard, require, Text, codes, starts_with, ends_with, has_code, any, all, leb, ltb, ◌==◌, ◌&&◌,
  ◌||◌, not, is_empty, is_digit, length, cut, split, is_space, is_control, read_digits,
  drop_trailing, reverse, if◌then◌else◌,
}
use touchmyapi.Js.{Value, num, nat, str, bool, null, undefined}
use touchmyapi.Policy.Host.{
  UrlParser, canonicalize_host, canonical_ip, is_forbidden_address, has_double_dot,
}
use touchmyapi.Policy.Target.{has_ambiguous_path_encoding}

pub record ScopeRule : Type 0 where
  pub host : Text
  pub port : Option ℕ
  pub path_prefix : Text
  pub wildcard : Bool

pub record CompiledScope : Type 0 where
  pub inclusions : List ScopeRule
  pub exclusions : List ScopeRule

-- A rule as a text, as the fields of an object (`undefined` where there is none), or as any other
-- value.
pub data RuleInput : Type 0 where
  rule_text : Text → RuleInput
  rule_fields : (host port path_prefix wildcard : Value) → RuleInput
  no_rule : RuleInput

-- The codes of `ScopeValidationError`.
pub data RuleError : Type 0 where
  invalid_rule invalid_wildcard forbidden_scope_rule ambiguous_path invalid_scope : RuleError

pub record RuleParts : Type 0 where
  pub host : Text
  pub path : Text
  pub port : Option ℕ
  pub wildcard : Bool

-- `parseRulePort`: `err` is its `undefined`, and `ok none` its `null`.
unfoldable pub parse_rule_port : Option Text → Result RuleError (Option ℕ)
parse_rule_port none = ok none
parse_rule_port (some t) =
    let port = read_digits 10 0 t in
    if not (is_empty t) && all is_digit t && leb 1 port && leb port 65535
    then ok (some port)
    else err invalid_rule

-- A host in brackets, and the port's text behind it.
unfoldable pub bracket_authority : Text → Result RuleError (Text × Option Text)
bracket_authority authority = elim (cut b']' authority) [
  | none ↦ err invalid_rule
  | some (host, []) ↦ ok (host ++ codes "]", none)
  | some (host, c ∷ port) ↦
      if c == b':' then ok (host ++ codes "]", some port) else err invalid_rule
]

unfoldable pub plain_authority : Text → Result RuleError (Text × Option Text)
plain_authority authority = elim (cut b':' authority) [
  | none ↦ ok (authority, none)
  | some (host, port) ↦ if has_code b':' port then err invalid_rule else ok (host, some port)
]

unfoldable pub split_authority : Text → Result RuleError (Text × Option Text)
split_authority authority =
    if starts_with (codes "[") authority
    then bracket_authority authority
    else plain_authority authority

-- What stands before the first `/`, and the rest with it.
unfoldable pub split_path : Text → Text × Text
split_path input = elim (cut b'/' input) [
  | none ↦ (input, codes "/")
  | some (authority, path) ↦ (authority, b'/' ∷ path)
]

unfoldable pub text_rule_parts : Text → Result RuleError RuleParts
text_rule_parts input = do
  guard (not (is_empty input || any (λ c. c == b'?' || c == b'#' || c == b'@' || is_space c) input))
      invalid_rule
  let (authority, path) = split_path input
  (host, port_text) ← split_authority authority
  port ← parse_rule_port port_text
  ok (record {
    host = host;
    path = path;
    port = port;
    wildcard = starts_with (codes "*.") authority;
  })

unfoldable pub port_field : Value → Result RuleError (Option ℕ)
port_field undefined = ok none
port_field null = ok none
port_field (num (nat n)) = if leb 1 n && leb n 65535 then ok (some n) else err invalid_rule
port_field _ = err invalid_rule

unfoldable pub path_field : Value → Result RuleError Text
path_field undefined = ok (codes "/")
path_field (str t) = ok t
path_field _ = err invalid_rule

unfoldable pub wildcard_field : Text → Value → Result RuleError Bool
wildcard_field host undefined = ok (starts_with (codes "*.") host)
wildcard_field host (bool b) = ok b
wildcard_field host _ = err invalid_rule

unfoldable pub rule_parts : RuleInput → Result RuleError RuleParts
rule_parts (rule_text t) = text_rule_parts t
rule_parts (rule_fields (str host) port path wildcard) = do
  path' ← path_field path
  wildcard' ← wildcard_field host wildcard
  port' ← port_field port
  ok (record { host = host; path = path'; port = port'; wildcard = wildcard' })
rule_parts _ = err invalid_rule

-- The host behind a wildcard's `*.`.
unfoldable pub wildcard_host : Bool → Text → Result RuleError Text
wildcard_host false host = if starts_with (codes "*") host then err invalid_wildcard else ok host
wildcard_host true (a ∷ b ∷ host) =
    if a == b'*'
      && b == b'.'
      && not (is_empty host || starts_with (codes ".") host || has_double_dot host)
    then ok host
    else err invalid_wildcard
wildcard_host true _ = err invalid_wildcard

abbrev drop_star : Text → Text
drop_star path = elim (reverse path) [ [] ↦ [] | c ∷ t ↦ reverse t ]

module _ (parse_url : UrlParser) where
  -- `normalizeRulePath`, its `null` an `invalid_rule` as in the caller; so is an empty result.
  unfoldable pub normalize_rule_path : Text → Result RuleError Text
  normalize_rule_path [] = ok (codes "/")
  normalize_rule_path (c ∷ t) = do
    let input = c ∷ t
    guard (not (has_ambiguous_path_encoding input || has_code 92 input)) ambiguous_path
    guard
        (starts_with (codes "/") input
          && not (any is_control input || has_code b'?' input || has_code b'#' input))
        invalid_rule
    let path = if ends_with (codes "/*") input then drop_star input else input
    url ← require invalid_rule (parse_url (codes "http://scope.invalid" ++ path))
    guard (starts_with (codes "/") url.pathname) invalid_rule
    let normalized =
        if ltb 1 (length url.pathname) then drop_trailing b'/' url.pathname else codes "/"
    guard (not (is_empty normalized)) invalid_rule
    ok normalized

  abbrev has_ip : Text → Bool
  has_ip host = elim (canonical_ip host) [ none ↦ false | some ip ↦ true ]

  unfoldable pub compile_rule : RuleInput → Result RuleError ScopeRule
  compile_rule input = do
    parts ← rule_parts input
    host_input ← wildcard_host parts.wildcard parts.host
    host ← require forbidden_scope_rule (canonicalize_host parse_url host_input)
    guard (not (is_forbidden_address host)) forbidden_scope_rule
    guard (not (parts.wildcard && (has_ip host || ltb (length (split b'.' host)) 2)))
        invalid_wildcard
    path_prefix ← normalize_rule_path parts.path
    ok (record {
      host = host;
      port = parts.port;
      path_prefix = path_prefix;
      wildcard = parts.wildcard;
    })

  unfoldable pub compile_rules : List RuleInput → Result RuleError (List ScopeRule)
  compile_rules [] = ok []
  compile_rules (r ∷ rs) = do rule ← compile_rule r; rules ← compile_rules rs; ok (rule ∷ rules)

  -- `compileScope`; `none` is an argument that is no array.
  unfoldable pub compile_scope :
      Option (List RuleInput) → Option (List RuleInput) → Result RuleError CompiledScope
  compile_scope inclusions exclusions = do
    ins ← require invalid_scope inclusions
    exs ← require invalid_scope exclusions
    included ← compile_rules ins
    excluded ← compile_rules exs
    ok (record { inclusions = included; exclusions = excluded })
