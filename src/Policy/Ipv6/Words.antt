-- ===== src/Policy/Ipv6/Words.antt =====
-- packages/policy/src/scope.ts.
-- Whatever text is read as an IPv6 address, it has eight words of 16 bits.
use mathlib.Core.Path.{subst}
use touchmyapi.Common.{
  ℕ, zero, suc, ◌<◌, ◌≡◌, ap, refl, true, List, [], ◌∷◌, some, Text, arith, ◌&&◌, ◌||◌, ◌==◌, not,
  all, All, length, is_hex, digit_value, read_digits, map, is_empty, &&-eq-true, has_code,
}
use touchmyapi.Common.Maybe.{>>=-eq-some, check}
use touchmyapi.Policy.Ipv6.{
  Ipv6, is_word_text, words, parse_ipv6, strip_brackets, expand_dotted, ipv6_parts, word,
}

digit_value-hex : (c : ℕ) → is_hex c ≡ true → digit_value c < 16
unfolding is_hex digit_value
digit_value-hex c h = ground arith

word_text-lt : (t : Text) → is_word_text t ≡ true → read_digits 16 0 t < 0x10000
unfolding is_word_text read_digits
word_text-lt [] h = omega arith
word_text-lt (a ∷ []) h = ground (arith, digit_value-hex a)
word_text-lt (a ∷ b ∷ []) h = ground (arith, digit_value-hex a, digit_value-hex b)
word_text-lt (a ∷ b ∷ c ∷ []) h =
    ground (arith, digit_value-hex a, digit_value-hex b, digit_value-hex c)
word_text-lt (a ∷ b ∷ c ∷ d ∷ []) h =
    ground (arith, digit_value-hex a, digit_value-hex b, digit_value-hex c, digit_value-hex d)
word_text-lt (a ∷ b ∷ c ∷ d ∷ e ∷ t) h = ground arith

pub record IsWords (v : Ipv6) : Type 0 where
  pub eight : length v ≡ 8
  pub small : All (λ x. x < 0x10000) v

map-words :
    (parts : List Text)
    → all is_word_text parts ≡ true
    → (length (map (read_digits 16 0) parts) ≡ length parts)
      × All (λ x. x < 0x10000) (map (read_digits 16 0) parts)
map-words [] h = (refl, tt)
map-words (t ∷ parts) h =
    let (here, later) = &&-eq-true (is_word_text t) (all is_word_text parts) h in
    let (len, small) = map-words parts later in (ap suc len, (word_text-lt t here, small))

words-IsWords : (parts : List Text) (v : Ipv6) → words parts ≡ some v → IsWords v
unfolding words
words-IsWords parts v h =
    let tested : (length parts == 8 && all is_word_text parts) ≡ true = ground arith in
    let (eight, valid) = &&-eq-true (length parts == 8) (all is_word_text parts) tested in
    let (len, small) = map-words parts valid in
    let same : map (read_digits 16 0) parts ≡ v = ground arith in
    subst IsWords same (record { eight = ground arith; small = small })

-- Whatever text is read as an IPv6 address, compressed, dotted or bracketed, the address has eight
-- words below 2 ^ 16.
pub parse_ipv6-IsWords : (t : Text) (v : Ipv6) → parse_ipv6 t ≡ some v → IsWords v
unfolding parse_ipv6
parse_ipv6-IsWords t v h =
    let (value, stripped, h1) = >>=-eq-some (strip_brackets t) _ h in
    let (u, checked, h2) = >>=-eq-some (check (not (is_empty value || has_code b'%' value))) _ h1 in
    let (expanded, dotted, h3) = >>=-eq-some (expand_dotted value) _ h2 in
    let (parts, cutted, h4) = >>=-eq-some (ipv6_parts expanded) _ h3 in words-IsWords parts v h4

word-lt : (v : Ipv6) (k : ℕ) → All (λ x. x < 0x10000) v → word v k < 0x10000
word-lt [] k h = omega arith
word-lt (x ∷ v) zero h = h.0
word-lt (x ∷ v) (suc k) h = word-lt v k h.1

-- So every word that the range tests look at is below 2 ^ 16.
pub parse_ipv6-word-lt : (t : Text) (v : Ipv6) (k : ℕ) → parse_ipv6 t ≡ some v → word v k < 0x10000
parse_ipv6-word-lt t v k h = word-lt v k (parse_ipv6-IsWords t v h).small
