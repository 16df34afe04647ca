-- ===== src/Policy/Host/Unspecified.antt =====
-- packages/policy/src/scope.ts: what becomes of the IPv6 address of all zeros.
use touchmyapi.Common.{
  ◌≡◌, refl, arith, true, false, Option, none, some, ok, Text, codes, text_eq, trim, all, is_empty,
  not, ◌&&◌, replicate, ◌||◌, if◌then◌else◌,
}
use touchmyapi.Policy.Ipv4.{parse_ipv4}
use touchmyapi.Policy.Ipv6.{Ipv6, parse_ipv6, canonical_ipv6, is_forbidden_ipv6}
use touchmyapi.Policy.Host.{
  UrlParser, CanonicalIp, canonical_ip, canonicalize_host, is_forbidden_address, is_host_code,
  normalize_surface_host,
}

abbrev pub unspecified : Ipv6
unspecified = replicate 8 0

unspecified_ip :
    (t : Text)
    → parse_ipv4 t ≡ none
    → parse_ipv6 t ≡ some unspecified
    → canonical_ip t ≡ some (record { value = codes ":"; forbidden = true })
unfolding canonical_ip touchmyapi.Policy.Ipv6.end_run touchmyapi.Policy.Ipv6.scan_runs
    touchmyapi.Policy.Ipv6.pieces touchmyapi.Policy.Ipv6.double_front
    touchmyapi.Policy.Ipv6.canonical_ipv6 touchmyapi.Policy.Ipv6.is_forbidden_ipv6
    touchmyapi.Policy.Ipv6.is_special_ipv6 touchmyapi.Policy.Ipv6.is_mapped
    touchmyapi.Policy.Ipv6.mapped_ipv4 touchmyapi.Common.print_number touchmyapi.Common.join
unspecified_ip t h k = ground arith

unspecified_host :
    (parse_url : UrlParser) (t : Text)
    → text_eq (trim t) t ≡ true
    → (not (is_empty t) && all is_host_code t) ≡ true
    → parse_ipv4 t ≡ none
    → parse_ipv6 t ≡ some unspecified
    → canonicalize_host parse_url t ≡ some (codes ":")
unfolding canonicalize_host
unspecified_host parse_url t trimmed clean h k = rw (trimmed, clean, unspecified_ip t h k) refl

unspecified_passes : is_forbidden_address (codes ":") ≡ false
unfolding touchmyapi.Policy.Host.canonical_ip touchmyapi.Policy.Host.forbidden_name
    touchmyapi.Policy.Host.drop_brackets touchmyapi.Policy.Host.is_forbidden_address
    touchmyapi.Common.text_eq touchmyapi.Common.starts_with touchmyapi.Common.ends_with
    touchmyapi.Common.has_code touchmyapi.Common.mem_text touchmyapi.Common.is_digit
    touchmyapi.Common.is_letter touchmyapi.Common.is_hex touchmyapi.Common.cut
    touchmyapi.Common.cut_last touchmyapi.Common.occurrences touchmyapi.Common.cut_at
    touchmyapi.Common.split touchmyapi.Common.join touchmyapi.Common.is_space
    touchmyapi.Common.trim_start touchmyapi.Common.trim touchmyapi.Common.lower_code
    touchmyapi.Common.lower touchmyapi.Common.drop_trailing touchmyapi.Common.is_control
    touchmyapi.Common.digit_value touchmyapi.Common.read_digits touchmyapi.Common.digit_code
    touchmyapi.Common.print_digits touchmyapi.Common.print_number
    touchmyapi.Policy.Ipv4.is_octet_text touchmyapi.Policy.Ipv4.octets
    touchmyapi.Policy.Ipv4.parse_ipv4 touchmyapi.Policy.Ipv4.is_forbidden_ipv4
    touchmyapi.Policy.Ipv6.strip_brackets touchmyapi.Policy.Ipv6.expand_dotted
    touchmyapi.Policy.Ipv6.colon_parts touchmyapi.Policy.Ipv6.ipv6_parts
    touchmyapi.Policy.Ipv6.is_word_text touchmyapi.Policy.Ipv6.words
    touchmyapi.Policy.Ipv6.parse_ipv6
unspecified_passes = refl

unspecified_forbidden : is_forbidden_ipv6 unspecified ≡ true
unfolding touchmyapi.Policy.Ipv6.end_run touchmyapi.Policy.Ipv6.scan_runs
    touchmyapi.Policy.Ipv6.pieces touchmyapi.Policy.Ipv6.double_front
    touchmyapi.Policy.Ipv6.canonical_ipv6 touchmyapi.Policy.Ipv6.is_forbidden_ipv6
    touchmyapi.Policy.Ipv6.is_special_ipv6 touchmyapi.Policy.Ipv6.is_mapped
    touchmyapi.Policy.Ipv6.mapped_ipv4
unspecified_forbidden = refl

-- However the address of all zeros is written, with no white space around it and no code unit that a
-- host may not hold, it is a forbidden address, but `normalize_surface_host` accepts it, as the text
-- ":".
pub normalize_surface_host-unspecified :
    (parse_url : UrlParser) (t : Text)
    → text_eq (trim t) t ≡ true
    → (not (is_empty t) && all is_host_code t) ≡ true
    → parse_ipv4 t ≡ none
    → parse_ipv6 t ≡ some unspecified
    → (is_forbidden_ipv6 unspecified ≡ true) × (normalize_surface_host parse_url t ≡ ok (codes ":"))
unfolding normalize_surface_host
normalize_surface_host-unspecified parse_url t trimmed clean h k = (
  unspecified_forbidden,
  ground (arith, unspecified_host parse_url t trimmed clean h k, unspecified_passes),
)
