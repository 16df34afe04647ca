-- ===== src/Policy/Ipv4.antt =====
-- packages/policy/src/scope.ts: IPv4 addresses, their text and the forbidden ranges.
pub mod Ranges
pub mod RoundTrip
use touchmyapi.Common.{
  ℕ, Bool, true, false, List, [], ◌∷◌, Option, none, some, Text, is_digit, length, all, leb, ltb,
  ◌==◌, ◌&&◌, ◌||◌, not, is_empty, split, join, read_digits, print_number, map, if◌then◌else◌,
}

pub record Ipv4 : Type 0 where
  pub a : ℕ
  pub b : ℕ
  pub c : ℕ
  pub d : ℕ

-- `/^\d{1,3}$/`
unfoldable pub is_octet_text : Text → Bool
is_octet_text t = all is_digit t && not (is_empty t) && leb (length t) 3

abbrev pub decimal : Text → ℕ
decimal t = read_digits 10 0 t

unfoldable pub octets : List Text → Option Ipv4
octets (a ∷ b ∷ c ∷ d ∷ []) =
    if is_octet_text a
      && is_octet_text b
      && is_octet_text c
      && is_octet_text d
      && leb (decimal a) 255
      && leb (decimal b) 255
      && leb (decimal c) 255
      && leb (decimal d) 255
    then some (record { a = decimal a; b = decimal b; c = decimal c; d = decimal d })
    else none
octets _ = none

unfoldable pub parse_ipv4 : Text → Option Ipv4
parse_ipv4 input = octets (split b'.' input)

unfoldable pub canonical_ipv4 : Ipv4 → Text
canonical_ipv4 v =
    join b'.'
      (print_number 10 v.a ∷ print_number 10 v.b ∷ print_number 10 v.c ∷ print_number 10 v.d ∷ [])

unfoldable pub is_forbidden_ipv4 : Ipv4 → Bool
is_forbidden_ipv4 v =
    a == 0
    || a == 10
    || a == 127
    || a == 100 && leb 64 b && leb b 127
    || a == 169 && b == 254
    || a == 172 && leb 16 b && leb b 31
    || a == 192 && b == 168
    || a == 192 && b == 0 && c == 0
    || a == 192 && b == 0 && c == 2
    || a == 192 && b == 88 && c == 99
    || a == 198 && b == 18
    || a == 198 && b == 19
    || a == 198 && b == 51 && c == 100
    || a == 203 && b == 0 && c == 113
    || leb 224 a
  where
    open v use {a, b, c}
