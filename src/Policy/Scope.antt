-- ===== src/Policy/Scope.antt =====
-- packages/policy/src/scope.ts: whether a target lies in a scope, and the addresses that a name
-- resolves to.
pub mod Matching
pub mod Addresses
use touchmyapi.Common.{
  ℕ, Bool, true, false, List, [], ◌∷◌, ◌++◌, Option, none, some, Result, ok, err, ◌>>=◌, require,
  Text, codes, text_eq, starts_with, ends_with, has_code, any, ◌==◌, ◌&&◌, ◌||◌, not, is_empty,
  mem_text, trim, lower, drop_trailing, reverse, drop_text, if◌then◌else◌,
}
use touchmyapi.Js.{Value, str}
use touchmyapi.Policy.Host.{UrlParser, canonicalize_host, canonical_ip, is_forbidden_address}
use touchmyapi.Policy.Target.{NormalizedTarget, normalize_external_url}
use touchmyapi.Policy.Rule.{ScopeRule, CompiledScope}

unfoldable pub path_matches : Text → Text → Bool
path_matches prefix path =
    if text_eq prefix (codes "/")
    then starts_with (codes "/") path
    else text_eq path prefix || starts_with (prefix ++ codes "/") path

-- `hostname.slice(0, -host.length - 1)`.
unfoldable pub before_suffix : Text → Text → Text
before_suffix suffix hostname = reverse (drop_text (reverse suffix) (reverse hostname))

unfoldable pub host_matches : ScopeRule → Text → Bool
host_matches rule hostname =
    let suffix = codes "." ++ rule.host in
    if rule.wildcard
    then ends_with suffix hostname
      && not (text_eq hostname rule.host)
      && not (has_code b'.' (before_suffix suffix hostname))
    else text_eq hostname rule.host

abbrev pub port_matches : Option ℕ → ℕ → Bool
port_matches none port = true
port_matches (some p) port = p == port

unfoldable pub rule_matches : ScopeRule → NormalizedTarget → Bool
rule_matches rule candidate =
    host_matches rule (drop_trailing b'.' (lower candidate.hostname))
    && port_matches rule.port candidate.port
    && path_matches rule.path_prefix candidate.path

unfoldable pub target_in_scope : CompiledScope → NormalizedTarget → Bool
target_in_scope scope target =
    not (any (λ rule. rule_matches rule target) scope.exclusions)
    && any (λ rule. rule_matches rule target) scope.inclusions

pub data AddressError : Type 0 where
  invalid_hostname forbidden_resolved_address resolved_addresses_required : AddressError
  invalid_resolved_address invalid_resolved_input : AddressError

-- `if (!seen.has(value)) { seen.add(value); normalized.push(value); }`
unfoldable pub add_address : Text → List Text → List Text
add_address value found = if mem_text value found then found else found ++ value ∷ []

-- The loop over the addresses; `found` holds the addresses so far, in their order, and is both
-- `normalized` and `seen`.
unfoldable pub resolve_all : List Text → List Value → Result AddressError (List Text)
resolve_all found [] = ok found
resolve_all found (str address ∷ rest) = elim (canonical_ip (trim address)) [
  | none ↦ err invalid_resolved_address
  | some ip ↦
      let more = resolve_all (add_address ip.value found) rest in
      if ip.forbidden then err forbidden_resolved_address else more
]
resolve_all found (_ ∷ rest) = err invalid_resolved_address

-- The part of `validateResolvedAddresses` behind the normal form of the host.
unfoldable pub validate_name : Text → List Value → Result AddressError (List Text)
validate_name name addresses = elim (canonical_ip name) [
  | some ip ↦ if ip.forbidden then err forbidden_resolved_address else ok (ip.value ∷ [])
  | none ↦
      if is_forbidden_address name
      then err forbidden_resolved_address
      else if is_empty addresses
      then err resolved_addresses_required
      else resolve_all [] addresses
]

module _ (parse_url : UrlParser) where
  -- `matchesScope`, at a scope that was compiled; `none` is any other value.
  unfoldable pub matches_scope : Option CompiledScope → Text → Bool
  matches_scope none candidate = false
  matches_scope (some scope) candidate = elim (normalize_external_url parse_url candidate) [
    | err e ↦ false
    | ok target ↦ target_in_scope scope target
  ]

  -- `validateResolvedAddresses`; `addresses` is `none` for a value that is no array.
  unfoldable pub validate_resolved_addresses :
      Value → Option (List Value) → Result AddressError (List Text)
  validate_resolved_addresses (str hostname) (some addresses) = do
    name ← require invalid_hostname (canonicalize_host parse_url hostname)
    validate_name name addresses
  validate_resolved_addresses _ _ = err invalid_resolved_input
