-- ===== src/Policy/Patterns.antt =====
-- The regular expressions of packages/policy/src: engine.ts lines 92 to 96, membership.ts line 39.
-- All are anchored at both ends. A code unit outside ASCII matches none of the classes, in the
-- expressions with the flag `i` too.
use touchmyapi.Common.{
  ℕ, Bool, true, false, List, [], ◌∷◌, ◌++◌, Text, is_digit, is_letter, is_hex, replicate, leb,
  ◌==◌, ◌&&◌, ◌||◌, all, length,
}

-- One class for each code unit, and nothing behind.
unfoldable pub matches_classes : List (ℕ → Bool) → Text → Bool
matches_classes [] [] = true
matches_classes [] (c ∷ t) = false
matches_classes (p ∷ ps) [] = false
matches_classes (p ∷ ps) (c ∷ t) = p c && matches_classes ps t

abbrev pub is_code : ℕ → ℕ → Bool
is_code a c = c == a

abbrev dash : List (ℕ → Bool)
dash = is_code b'-' ∷ []

-- `^[0-9a-f]{8}-[0-9a-f]{4}-[0-9a-f]{4}-[0-9a-f]{4}-[0-9a-f]{12}$` with the flag `i`.
abbrev uuid_classes : List (ℕ → Bool)
uuid_classes =
    replicate 8 is_hex
    ++ (dash
        ++ (replicate 4 is_hex
            ++ (dash
                ++ (replicate 4 is_hex
                    ++ (dash ++ (replicate 4 is_hex ++ (dash ++ replicate 12 is_hex)))))))

unfoldable pub is_uuid : Text → Bool
unfolding matches_classes is_hex
is_uuid t = matches_classes uuid_classes t

unfoldable pub is_version_digit : ℕ → Bool
is_version_digit c = leb b'1' c && leb c b'5'

unfoldable pub is_variant_digit : ℕ → Bool
is_variant_digit c = c == b'8' || c == b'9' || c == b'a' || c == b'b' || c == b'A' || c == b'B'

-- The UUID of membership.ts, which also fixes the version and the variant.
abbrev strict_uuid_classes : List (ℕ → Bool)
strict_uuid_classes =
    replicate 8 is_hex
    ++ (dash
        ++ (replicate 4 is_hex
            ++ (dash
                ++ (is_version_digit
                    ∷ (replicate 3 is_hex
                        ++ (dash
                            ++ (is_variant_digit
                                ∷ (replicate 3 is_hex ++ (dash ++ replicate 12 is_hex)))))))))

unfoldable pub is_strict_uuid : Text → Bool
unfolding matches_classes is_hex is_version_digit is_variant_digit
is_strict_uuid t = matches_classes strict_uuid_classes t

unfoldable pub is_alnum : ℕ → Bool
unfolding is_digit is_letter
is_alnum c = is_letter c || is_digit c

-- `[A-Za-z0-9._-]`
unfoldable pub is_event_code : ℕ → Bool
unfolding is_alnum
is_event_code c = is_alnum c || c == b'.' || c == b'_' || c == b'-'

-- `[A-Za-z0-9._:@+-]`
unfoldable pub is_version_code : ℕ → Bool
unfolding is_event_code
is_version_code c = is_event_code c || c == b':' || c == b'@' || c == b'+'

unfoldable pub is_safe_version : Text → Bool
unfolding is_alnum is_version_code
is_safe_version [] = false
is_safe_version (c ∷ t) = is_alnum c && all is_version_code t && leb (length t) 127

unfoldable pub is_stripe_event : Text → Bool
unfolding is_alnum is_event_code
is_stripe_event (e ∷ v ∷ t ∷ u ∷ c ∷ rest) =
    e == b'e'
    && v == b'v'
    && t == b't'
    && u == b'_'
    && is_alnum c
    && all is_event_code rest
    && leb (length rest) 127
is_stripe_event _ = false

-- `either a b c`: `c` is the letter of codes `a` and `b`, which differ in case.
abbrev either : ℕ → ℕ → ℕ → Bool
either a b c = c == a || c == b

unfoldable pub is_fingerprint : Text → Bool
unfolding matches_classes is_hex is_digit
is_fingerprint t =
    matches_classes
      (either b's' b'S'
        ∷ either b'h' b'H'
        ∷ either b'a' b'A'
        ∷ is_code b'2'
        ∷ is_code b'5'
        ∷ is_code b'6'
        ∷ is_code b':'
        ∷ replicate 64 is_hex)
      t

-- `(?:\.\d{1,9})?Z`, of which `more` digits are still allowed and `seen` says that one was read.
unfoldable pub is_utc_fraction : ℕ → Bool → Text → Bool
is_utc_fraction more seen [] = false
is_utc_fraction more seen (c ∷ []) = seen && c == b'Z'
is_utc_fraction ℕ.zero seen (c ∷ d ∷ t) = false
is_utc_fraction (ℕ.suc more) seen (c ∷ d ∷ t) = is_digit c && is_utc_fraction more true (d ∷ t)

unfoldable pub is_utc_tail : Text → Bool
unfolding is_utc_fraction is_digit
is_utc_tail [] = false
is_utc_tail (c ∷ t) = c == b'Z' && length t == 0 || c == b'.' && is_utc_fraction 9 false t

-- The classes of the part before the fraction, and then the tail.
unfoldable pub matches_then : List (ℕ → Bool) → (Text → Bool) → Text → Bool
matches_then [] tail t = tail t
matches_then (p ∷ ps) tail [] = false
matches_then (p ∷ ps) tail (c ∷ t) = p c && matches_then ps tail t

abbrev two_digits : List (ℕ → Bool)
two_digits = is_digit ∷ is_digit ∷ []

-- `^\d{4}-\d{2}-\d{2}T\d{2}:\d{2}:\d{2}(?:\.\d{1,9})?Z$`
unfoldable pub is_utc_iso : Text → Bool
unfolding matches_then is_utc_tail is_digit
is_utc_iso t =
    matches_then
      (replicate 4 is_digit
        ++ (dash
            ++ (two_digits
                ++ (dash
                    ++ (two_digits
                        ++ (is_code b'T'
                            ∷ (two_digits
                                ++ (is_code b':'
                                    ∷ (two_digits ++ (is_code b':' ∷ two_digits))))))))))
      is_utc_tail t
