-- ===== src/Tests/Scope.antt =====
-- Targets, scopes and resolved addresses at concrete inputs.
use touchmyapi.Common.{
  ◌≡◌, ◌↔◌, refl, Bool, true, false, List, [], ◌∷◌, ◌++◌, Option, none, some, Text, codes, has_code,
}
use touchmyapi.Js.{Value, str}
use touchmyapi.Policy.Host.{Url, UrlParser, http, canonicalize_host}
use touchmyapi.Policy.Target.{NormalizedTarget, normalize_external_url}
use touchmyapi.Policy.Rule.{ScopeRule}
use touchmyapi.Policy.Scope.{path_matches, host_matches, matches_scope, validate_resolved_addresses}
use touchmyapi.Policy.Scope.Matching.{
  IsInScope, IsCovered, matches_scope_iff, host_matches_wildcard_iff, path_matches_iff,
}
use touchmyapi.Tests.Request.{platform, scope, site, site_url}

matches_scope_iff_example :
    (matches_scope platform.parse_url (some scope) site ≡ true)
    ↔ IsInScope platform.parse_url scope site
matches_scope_iff_example = matches_scope_iff platform.parse_url scope site

abbrev wildcard_rule : ScopeRule
wildcard_rule = record {
  host = codes "shop.com";
  port = none;
  path_prefix = codes "/";
  wildcard = true;
}

host_matches_wildcard_iff_example : (host_matches wildcard_rule (codes "api.shop.com") ≡ true) ↔ (
    (label : Text) × (has_code b'.' label ≡ false)
    × (codes "api.shop.com" ≡ (label ++ b'.' ∷ codes "shop.com")))
host_matches_wildcard_iff_example =
    host_matches_wildcard_iff wildcard_rule (codes "api.shop.com") refl

path_matches_iff_example :
    (path_matches (codes "/admin") (codes "/admins") ≡ true)
    ↔ IsCovered (codes "/admin") (codes "/admins")
path_matches_iff_example = path_matches_iff (codes "/admin") (codes "/admins")

admins_outside : path_matches (codes "/admin") (codes "/admins") ≡ false
unfolding touchmyapi.Common.cut touchmyapi.Common.cut_last touchmyapi.Common.occurrences
    touchmyapi.Common.cut_at touchmyapi.Common.split touchmyapi.Common.join
    touchmyapi.Common.is_space touchmyapi.Common.trim_start touchmyapi.Common.trim
    touchmyapi.Common.lower_code touchmyapi.Common.lower touchmyapi.Common.drop_trailing
    touchmyapi.Common.is_control touchmyapi.Common.digit_value touchmyapi.Common.read_digits
    touchmyapi.Common.digit_code touchmyapi.Common.print_digits touchmyapi.Common.print_number
    touchmyapi.Common.Table.holds_below touchmyapi.Common.text_eq touchmyapi.Common.starts_with
    touchmyapi.Common.ends_with touchmyapi.Common.has_code touchmyapi.Common.mem_text
    touchmyapi.Common.is_digit touchmyapi.Common.is_letter touchmyapi.Common.is_hex
    touchmyapi.Policy.Host.canonical_ip touchmyapi.Policy.Host.forbidden_name
    touchmyapi.Policy.Host.drop_brackets touchmyapi.Policy.Host.is_forbidden_address
    touchmyapi.Policy.Host.is_host_code touchmyapi.Policy.Host.has_double_dot
    touchmyapi.Policy.Host.unbracket touchmyapi.Policy.Host.canonicalize_name
    touchmyapi.Policy.Host.canonicalize_host touchmyapi.Policy.Host.normalize_surface_host
    touchmyapi.Policy.Ipv4.is_octet_text touchmyapi.Policy.Ipv4.octets
    touchmyapi.Policy.Ipv4.parse_ipv4 touchmyapi.Policy.Ipv4.canonical_ipv4
    touchmyapi.Policy.Ipv4.is_forbidden_ipv4 touchmyapi.Policy.Ipv6.strip_brackets
    touchmyapi.Policy.Ipv6.expand_dotted touchmyapi.Policy.Ipv6.colon_parts
    touchmyapi.Policy.Ipv6.ipv6_parts touchmyapi.Policy.Ipv6.is_word_text
    touchmyapi.Policy.Ipv6.words touchmyapi.Policy.Ipv6.parse_ipv6 touchmyapi.Policy.Ipv6.end_run
    touchmyapi.Policy.Ipv6.scan_runs touchmyapi.Policy.Ipv6.pieces
    touchmyapi.Policy.Ipv6.double_front touchmyapi.Policy.Ipv6.canonical_ipv6
    touchmyapi.Policy.Ipv6.mapped_ipv4 touchmyapi.Policy.Ipv6.is_mapped
    touchmyapi.Policy.Ipv6.is_special_ipv6 touchmyapi.Policy.Ipv6.is_forbidden_ipv6
    touchmyapi.Policy.Scope.path_matches touchmyapi.Policy.Scope.before_suffix
    touchmyapi.Policy.Scope.host_matches touchmyapi.Policy.Scope.rule_matches
    touchmyapi.Policy.Scope.target_in_scope touchmyapi.Policy.Scope.add_address
    touchmyapi.Policy.Scope.resolve_all touchmyapi.Policy.Scope.validate_name
    touchmyapi.Policy.Scope.matches_scope touchmyapi.Policy.Scope.validate_resolved_addresses
    touchmyapi.Policy.Target.has_ambiguous_path_encoding touchmyapi.Policy.Target.before_query
    touchmyapi.Policy.Target.raw_url_path touchmyapi.Policy.Target.has_empty_authority
    touchmyapi.Policy.Target.is_malformed_url touchmyapi.Policy.Target.malformed_code
    touchmyapi.Policy.Target.target_of touchmyapi.Policy.Target.normalize_parsed
    touchmyapi.Policy.Target.normalize_external_url
admins_outside = refl

abbrev address : Text
address = codes "93.184.216.34"

abbrev named : Text
named = codes "site.com"

abbrev parse_named : UrlParser
parse_named t = some (record site_url { hostname = named })

abbrev given : List Value
given = str address ∷ str (codes " 8.8.8.8") ∷ str address ∷ []

abbrev accepted : List Text
accepted = address ∷ codes "8.8.8.8" ∷ []
