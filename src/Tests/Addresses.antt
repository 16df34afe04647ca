-- ===== src/Tests/Addresses.antt =====
-- Addresses at concrete inputs.
use touchmyapi.Common.{
  text_eq, trim, is_empty, all, ◌&&◌, none, ok, ℕ, ◌≡◌, refl, Bool, true, false, not, List, [], ◌∷◌,
  some, any, arith, codes, if◌then◌else◌,
}
use touchmyapi.Policy.Host.{is_host_code, normalize_surface_host}
use touchmyapi.Policy.Host.Unspecified.{unspecified, normalize_surface_host-unspecified}
use touchmyapi.Tests.Request.{platform}
use touchmyapi.Policy.Ipv4.{Ipv4, parse_ipv4, canonical_ipv4, is_forbidden_ipv4}
use touchmyapi.Policy.Ipv4.Ranges.{IsOctets, blocks, in_block, number, is_forbidden_ipv4-blocks}
use touchmyapi.Policy.Ipv4.RoundTrip.{parse_ipv4-canonical, parse_ipv4-IsOctets}
use touchmyapi.Policy.Ipv6.{Ipv6, word, parse_ipv6, is_forbidden_ipv6, is_mapped, mapped_ipv4}
use touchmyapi.Policy.Ipv6.Global.{is_public, is_forbidden_ipv6_lem}
use touchmyapi.Policy.Ipv6.Words.{IsWords, parse_ipv6-IsWords}

abbrev metadata : Ipv4
metadata = record { a = 169; b = 254; c = 169; d = 254 }

metadata-IsOctets : IsOctets metadata
metadata-IsOctets = ground arith

is_forbidden_ipv4-blocks_example :
    is_forbidden_ipv4 metadata ≡ any (in_block (number metadata)) blocks
is_forbidden_ipv4-blocks_example = is_forbidden_ipv4-blocks metadata metadata-IsOctets

metadata_forbidden : is_forbidden_ipv4 metadata ≡ true
unfolding is_forbidden_ipv4
metadata_forbidden = refl

parse_ipv4-canonical_example : parse_ipv4 (canonical_ipv4 metadata) ≡ some metadata
parse_ipv4-canonical_example = parse_ipv4-canonical metadata metadata-IsOctets

metadata_parsed : parse_ipv4 (codes "169.254.169.254") ≡ some metadata
unfolding touchmyapi.Common.cut touchmyapi.Common.cut_last touchmyapi.Common.occurrences
    touchmyapi.Common.cut_at touchmyapi.Common.split touchmyapi.Common.join
    touchmyapi.Common.is_space touchmyapi.Common.trim_start touchmyapi.Common.trim
    touchmyapi.Common.lower_code touchmyapi.Common.lower touchmyapi.Common.drop_trailing
    touchmyapi.Common.is_control touchmyapi.Common.digit_value touchmyapi.Common.read_digits
    touchmyapi.Common.digit_code touchmyapi.Common.print_digits touchmyapi.Common.print_number
    touchmyapi.Common.Table.holds_below touchmyapi.Common.text_eq touchmyapi.Common.starts_with
    touchmyapi.Common.ends_with touchmyapi.Common.has_code touchmyapi.Common.mem_text
    touchmyapi.Common.is_digit touchmyapi.Common.is_letter touchmyapi.Common.is_hex
    touchmyapi.Policy.Ipv4.is_octet_text touchmyapi.Policy.Ipv4.octets
    touchmyapi.Policy.Ipv4.parse_ipv4 touchmyapi.Policy.Ipv4.canonical_ipv4
    touchmyapi.Policy.Ipv4.is_forbidden_ipv4 touchmyapi.Policy.Ipv6.strip_brackets
    touchmyapi.Policy.Ipv6.expand_dotted touchmyapi.Policy.Ipv6.colon_parts
    touchmyapi.Policy.Ipv6.ipv6_parts touchmyapi.Policy.Ipv6.is_word_text
    touchmyapi.Policy.Ipv6.words touchmyapi.Policy.Ipv6.parse_ipv6 touchmyapi.Policy.Ipv6.end_run
    touchmyapi.Policy.Ipv6.scan_runs touchmyapi.Policy.Ipv6.pieces
    touchmyapi.Policy.Ipv6.double_front touchmyapi.Policy.Ipv6.canonical_ipv6
    touchmyapi.Policy.Ipv6.mapped_ipv4 touchmyapi.Policy.Ipv6.is_mapped
    touchmyapi.Policy.Ipv6.is_special_ipv6 touchmyapi.Policy.Ipv6.is_forbidden_ipv6
metadata_parsed = refl

parse_ipv4-IsOctets_example : IsOctets metadata
parse_ipv4-IsOctets_example = parse_ipv4-IsOctets (codes "169.254.169.254") metadata metadata_parsed

abbrev loopback : Ipv6
loopback = 0 ∷ 0 ∷ 0 ∷ 0 ∷ 0 ∷ 0 ∷ 0 ∷ 1 ∷ []

is_forbidden_ipv6_lem_example : is_forbidden_ipv6 loopback ≡ (
    if is_mapped loopback
    then is_forbidden_ipv4 (mapped_ipv4 loopback)
    else not (is_public (word loopback 0) (word loopback 1)))
is_forbidden_ipv6_lem_example = is_forbidden_ipv6_lem loopback (omega arith)

loopback_parsed : parse_ipv6 (codes "[::1]") ≡ some loopback
unfolding touchmyapi.Common.cut touchmyapi.Common.cut_last touchmyapi.Common.occurrences
    touchmyapi.Common.cut_at touchmyapi.Common.split touchmyapi.Common.join
    touchmyapi.Common.is_space touchmyapi.Common.trim_start touchmyapi.Common.trim
    touchmyapi.Common.lower_code touchmyapi.Common.lower touchmyapi.Common.drop_trailing
    touchmyapi.Common.is_control touchmyapi.Common.digit_value touchmyapi.Common.read_digits
    touchmyapi.Common.digit_code touchmyapi.Common.print_digits touchmyapi.Common.print_number
    touchmyapi.Common.Table.holds_below touchmyapi.Common.text_eq touchmyapi.Common.starts_with
    touchmyapi.Common.ends_with touchmyapi.Common.has_code touchmyapi.Common.mem_text
    touchmyapi.Common.is_digit touchmyapi.Common.is_letter touchmyapi.Common.is_hex
    touchmyapi.Policy.Ipv4.is_octet_text touchmyapi.Policy.Ipv4.octets
    touchmyapi.Policy.Ipv4.parse_ipv4 touchmyapi.Policy.Ipv4.canonical_ipv4
    touchmyapi.Policy.Ipv4.is_forbidden_ipv4 touchmyapi.Policy.Ipv6.strip_brackets
    touchmyapi.Policy.Ipv6.expand_dotted touchmyapi.Policy.Ipv6.colon_parts
    touchmyapi.Policy.Ipv6.ipv6_parts touchmyapi.Policy.Ipv6.is_word_text
    touchmyapi.Policy.Ipv6.words touchmyapi.Policy.Ipv6.parse_ipv6 touchmyapi.Policy.Ipv6.end_run
    touchmyapi.Policy.Ipv6.scan_runs touchmyapi.Policy.Ipv6.pieces
    touchmyapi.Policy.Ipv6.double_front touchmyapi.Policy.Ipv6.canonical_ipv6
    touchmyapi.Policy.Ipv6.mapped_ipv4 touchmyapi.Policy.Ipv6.is_mapped
    touchmyapi.Policy.Ipv6.is_special_ipv6 touchmyapi.Policy.Ipv6.is_forbidden_ipv6
loopback_parsed = refl

parse_ipv6-IsWords_example : IsWords loopback
parse_ipv6-IsWords_example = parse_ipv6-IsWords (codes "[::1]") loopback loopback_parsed

colons_parsed : parse_ipv6 (codes "::") ≡ some unspecified
unfolding touchmyapi.Common.cut touchmyapi.Common.cut_last touchmyapi.Common.occurrences
    touchmyapi.Common.cut_at touchmyapi.Common.split touchmyapi.Common.join
    touchmyapi.Common.is_space touchmyapi.Common.trim_start touchmyapi.Common.trim
    touchmyapi.Common.lower_code touchmyapi.Common.lower touchmyapi.Common.drop_trailing
    touchmyapi.Common.is_control touchmyapi.Common.digit_value touchmyapi.Common.read_digits
    touchmyapi.Common.digit_code touchmyapi.Common.print_digits touchmyapi.Common.print_number
    touchmyapi.Common.Table.holds_below touchmyapi.Common.text_eq touchmyapi.Common.starts_with
    touchmyapi.Common.ends_with touchmyapi.Common.has_code touchmyapi.Common.mem_text
    touchmyapi.Common.is_digit touchmyapi.Common.is_letter touchmyapi.Common.is_hex
    touchmyapi.Policy.Ipv4.is_octet_text touchmyapi.Policy.Ipv4.octets
    touchmyapi.Policy.Ipv4.parse_ipv4 touchmyapi.Policy.Ipv4.canonical_ipv4
    touchmyapi.Policy.Ipv4.is_forbidden_ipv4 touchmyapi.Policy.Ipv6.strip_brackets
    touchmyapi.Policy.Ipv6.expand_dotted touchmyapi.Policy.Ipv6.colon_parts
    touchmyapi.Policy.Ipv6.ipv6_parts touchmyapi.Policy.Ipv6.is_word_text
    touchmyapi.Policy.Ipv6.words touchmyapi.Policy.Ipv6.parse_ipv6 touchmyapi.Policy.Ipv6.end_run
    touchmyapi.Policy.Ipv6.scan_runs touchmyapi.Policy.Ipv6.pieces
    touchmyapi.Policy.Ipv6.double_front touchmyapi.Policy.Ipv6.canonical_ipv6
    touchmyapi.Policy.Ipv6.mapped_ipv4 touchmyapi.Policy.Ipv6.is_mapped
    touchmyapi.Policy.Ipv6.is_special_ipv6 touchmyapi.Policy.Ipv6.is_forbidden_ipv6
colons_parsed = refl

colons_no_ipv4 : parse_ipv4 (codes "::") ≡ none
unfolding touchmyapi.Common.cut touchmyapi.Common.cut_last touchmyapi.Common.occurrences
    touchmyapi.Common.cut_at touchmyapi.Common.split touchmyapi.Common.join
    touchmyapi.Common.is_space touchmyapi.Common.trim_start touchmyapi.Common.trim
    touchmyapi.Common.lower_code touchmyapi.Common.lower touchmyapi.Common.drop_trailing
    touchmyapi.Common.is_control touchmyapi.Common.digit_value touchmyapi.Common.read_digits
    touchmyapi.Common.digit_code touchmyapi.Common.print_digits touchmyapi.Common.print_number
    touchmyapi.Common.Table.holds_below touchmyapi.Common.text_eq touchmyapi.Common.starts_with
    touchmyapi.Common.ends_with touchmyapi.Common.has_code touchmyapi.Common.mem_text
    touchmyapi.Common.is_digit touchmyapi.Common.is_letter touchmyapi.Common.is_hex
    touchmyapi.Policy.Ipv4.is_octet_text touchmyapi.Policy.Ipv4.octets
    touchmyapi.Policy.Ipv4.parse_ipv4 touchmyapi.Policy.Ipv4.canonical_ipv4
    touchmyapi.Policy.Ipv4.is_forbidden_ipv4 touchmyapi.Policy.Ipv6.strip_brackets
    touchmyapi.Policy.Ipv6.expand_dotted touchmyapi.Policy.Ipv6.colon_parts
    touchmyapi.Policy.Ipv6.ipv6_parts touchmyapi.Policy.Ipv6.is_word_text
    touchmyapi.Policy.Ipv6.words touchmyapi.Policy.Ipv6.parse_ipv6 touchmyapi.Policy.Ipv6.end_run
    touchmyapi.Policy.Ipv6.scan_runs touchmyapi.Policy.Ipv6.pieces
    touchmyapi.Policy.Ipv6.double_front touchmyapi.Policy.Ipv6.canonical_ipv6
    touchmyapi.Policy.Ipv6.mapped_ipv4 touchmyapi.Policy.Ipv6.is_mapped
    touchmyapi.Policy.Ipv6.is_special_ipv6 touchmyapi.Policy.Ipv6.is_forbidden_ipv6
colons_no_ipv4 = refl

colons_trimmed : text_eq (trim (codes "::")) (codes "::") ≡ true
unfolding touchmyapi.Common.cut touchmyapi.Common.cut_last touchmyapi.Common.occurrences
    touchmyapi.Common.cut_at touchmyapi.Common.split touchmyapi.Common.join
    touchmyapi.Common.is_space touchmyapi.Common.trim_start touchmyapi.Common.trim
    touchmyapi.Common.lower_code touchmyapi.Common.lower touchmyapi.Common.drop_trailing
    touchmyapi.Common.is_control touchmyapi.Common.digit_value touchmyapi.Common.read_digits
    touchmyapi.Common.digit_code touchmyapi.Common.print_digits touchmyapi.Common.print_number
    touchmyapi.Common.Table.holds_below touchmyapi.Common.text_eq touchmyapi.Common.starts_with
    touchmyapi.Common.ends_with touchmyapi.Common.has_code touchmyapi.Common.mem_text
    touchmyapi.Common.is_digit touchmyapi.Common.is_letter touchmyapi.Common.is_hex
    touchmyapi.Policy.Ipv4.is_octet_text touchmyapi.Policy.Ipv4.octets
    touchmyapi.Policy.Ipv4.parse_ipv4 touchmyapi.Policy.Ipv4.canonical_ipv4
    touchmyapi.Policy.Ipv4.is_forbidden_ipv4 touchmyapi.Policy.Ipv6.strip_brackets
    touchmyapi.Policy.Ipv6.expand_dotted touchmyapi.Policy.Ipv6.colon_parts
    touchmyapi.Policy.Ipv6.ipv6_parts touchmyapi.Policy.Ipv6.is_word_text
    touchmyapi.Policy.Ipv6.words touchmyapi.Policy.Ipv6.parse_ipv6 touchmyapi.Policy.Ipv6.end_run
    touchmyapi.Policy.Ipv6.scan_runs touchmyapi.Policy.Ipv6.pieces
    touchmyapi.Policy.Ipv6.double_front touchmyapi.Policy.Ipv6.canonical_ipv6
    touchmyapi.Policy.Ipv6.mapped_ipv4 touchmyapi.Policy.Ipv6.is_mapped
    touchmyapi.Policy.Ipv6.is_special_ipv6 touchmyapi.Policy.Ipv6.is_forbidden_ipv6
colons_trimmed = refl

colons_clean : (not (is_empty (codes "::")) && all is_host_code (codes "::")) ≡ true
unfolding touchmyapi.Common.cut touchmyapi.Common.cut_last touchmyapi.Common.occurrences
    touchmyapi.Common.cut_at touchmyapi.Common.split touchmyapi.Common.join
    touchmyapi.Common.is_space touchmyapi.Common.trim_start touchmyapi.Common.trim
    touchmyapi.Common.lower_code touchmyapi.Common.lower touchmyapi.Common.drop_trailing
    touchmyapi.Common.is_control touchmyapi.Common.digit_value touchmyapi.Common.read_digits
    touchmyapi.Common.digit_code touchmyapi.Common.print_digits touchmyapi.Common.print_number
    touchmyapi.Common.Table.holds_below touchmyapi.Common.text_eq touchmyapi.Common.starts_with
    touchmyapi.Common.ends_with touchmyapi.Common.has_code touchmyapi.Common.mem_text
    touchmyapi.Common.is_digit touchmyapi.Common.is_letter touchmyapi.Common.is_hex
    touchmyapi.Policy.Ipv4.is_octet_text touchmyapi.Policy.Ipv4.octets
    touchmyapi.Policy.Ipv4.parse_ipv4 touchmyapi.Policy.Ipv4.canonical_ipv4
    touchmyapi.Policy.Ipv4.is_forbidden_ipv4 touchmyapi.Policy.Ipv6.strip_brackets
    touchmyapi.Policy.Ipv6.expand_dotted touchmyapi.Policy.Ipv6.colon_parts
    touchmyapi.Policy.Ipv6.ipv6_parts touchmyapi.Policy.Ipv6.is_word_text
    touchmyapi.Policy.Ipv6.words touchmyapi.Policy.Ipv6.parse_ipv6 touchmyapi.Policy.Ipv6.end_run
    touchmyapi.Policy.Ipv6.scan_runs touchmyapi.Policy.Ipv6.pieces
    touchmyapi.Policy.Ipv6.double_front touchmyapi.Policy.Ipv6.canonical_ipv6
    touchmyapi.Policy.Ipv6.mapped_ipv4 touchmyapi.Policy.Ipv6.is_mapped
    touchmyapi.Policy.Ipv6.is_special_ipv6 touchmyapi.Policy.Ipv6.is_forbidden_ipv6 is_host_code
colons_clean = refl

normalize_surface_host-unspecified_example :
    (is_forbidden_ipv6 unspecified ≡ true)
    × (normalize_surface_host platform.parse_url (codes "::") ≡ ok (codes ":"))
normalize_surface_host-unspecified_example =
    normalize_surface_host-unspecified platform.parse_url (codes "::") colons_trimmed colons_clean
      colons_no_ipv4 colons_parsed
