-- ===== src/Common/Search.antt =====
-- Searching, cutting, splitting and printing of JavaScript strings: `indexOf`, `lastIndexOf`,
-- `slice`, `split`, `trim`, `toLowerCase`, `Number.parseInt` and `toString` where the code uses
-- them. `lower` leaves code units outside ASCII alone.
use Prim.Native.Nat.{ℕ, zero, suc, ◌+◌, ◌-◌, ◌*◌, ◌/◌, ◌%◌}
use mathlib.Core.Bool.{Bool, ◌&&◌, ◌||◌}
use mathlib.Core.Option.{Option, none, some}
use mathlib.Core.List.{List, [], ◌∷◌, ◌++◌, map, reverse}
use touchmyapi.Common.Tests.{leb, ltb, ◌==◌, if◌then◌else◌}
use touchmyapi.Common.Texts.{Text, starts_with, is_digit}

abbrev pub on_first {ℓ} : {B : Type ℓ} → ℕ → Option (Text × B) → Option (Text × B)
on_first c none = none
on_first c (some (before, after)) = some (c ∷ before, after)

-- What stands before and behind the first code unit `c`: `slice(0, i)` and `slice(i + 1)` for
-- `i = indexOf(c)`, and `none` for -1.
unfoldable pub cut : ℕ → Text → Option (Text × Text)
cut c [] = none
cut c (d ∷ t) = if d == c then some ([], t) else on_first d (cut c t)

-- The same for the last one.
unfoldable pub cut_last : ℕ → Text → Option (Text × Text)
cut_last c [] = none
cut_last c (d ∷ t) = elim (cut_last c t) [
  | some (before, after) ↦ some (d ∷ before, after)
  | none ↦ if d == c then some ([], t) else none
]

-- Whether a text occurs in another, and how often, counted at every position.
unfoldable pub occurrences : Text → Text → ℕ
unfolding starts_with
occurrences p [] = if starts_with p [] then 1 else 0
occurrences p (c ∷ t) =
    let later = occurrences p t in if starts_with p (c ∷ t) then suc later else later

abbrev pub drop_text : Text → Text → Text
drop_text [] t = t
drop_text (a ∷ p) [] = []
drop_text (a ∷ p) (c ∷ t) = drop_text p t

-- What stands before and behind the first occurrence of `p`.
unfoldable pub cut_at : Text → Text → Option (Text × Text)
unfolding starts_with
cut_at p [] = if starts_with p [] then some ([], []) else none
cut_at p (c ∷ t) =
    if starts_with p (c ∷ t) then some ([], drop_text p (c ∷ t)) else on_first c (cut_at p t)

abbrev pub onto_first : ℕ → List Text → List Text
onto_first c [] = (c ∷ []) ∷ []
onto_first c (w ∷ ws) = (c ∷ w) ∷ ws

-- `split(c)`: the empty text has one, empty piece.
unfoldable pub split : ℕ → Text → List Text
split c [] = [] ∷ []
split c (d ∷ t) = let more = split c t in if d == c then [] ∷ more else onto_first d more

-- `join(c)`.
unfoldable pub join : ℕ → List Text → Text
join c [] = []
join c (w ∷ []) = w
join c (w ∷ v ∷ ws) = w ++ (c ∷ join c (v ∷ ws))

-- The white space of `\s` and of `trim`.
unfoldable pub is_space : ℕ → Bool
is_space c =
    leb 9 c && leb c 13
    || c == 32
    || c == 0xa0
    || c == 0x1680
    || leb 0x2000 c && leb c 0x200a
    || c == 0x2028
    || c == 0x2029
    || c == 0x202f
    || c == 0x205f
    || c == 0x3000
    || c == 0xfeff

unfoldable pub trim_start : Text → Text
unfolding is_space
trim_start [] = []
trim_start (c ∷ t) = let rest = trim_start t in if is_space c then rest else c ∷ t

unfoldable pub trim : Text → Text
unfolding trim_start
trim t = reverse (trim_start (reverse (trim_start t)))

unfoldable pub lower_code : ℕ → ℕ
lower_code c = if leb b'A' c && leb c b'Z' then c + 32 else c

unfoldable pub lower : Text → Text
unfolding lower_code
lower t = map lower_code t

-- `replace(/c+$/, "")`.
unfoldable pub drop_trailing : ℕ → Text → Text
drop_trailing a [] = []
drop_trailing a (c ∷ t) = elim (drop_trailing a t) [
  | [] ↦ if c == a then [] else c ∷ []
  | d ∷ s ↦ c ∷ d ∷ s
]

-- `hasControlCharacter`.
unfoldable pub is_control : ℕ → Bool
is_control c = ltb c 32 || c == 127

-- The value of a hexadecimal digit, decimal digits included.
unfoldable pub digit_value : ℕ → ℕ
unfolding is_digit
digit_value c = if is_digit c then c - b'0' else if leb b'a' c then c - b'a' + 10 else c - b'A' + 10

unfoldable pub read_digits : ℕ → ℕ → Text → ℕ
unfolding digit_value
read_digits base acc [] = acc
read_digits base acc (c ∷ t) = read_digits base (acc * base + digit_value c) t

unfoldable pub digit_code : ℕ → ℕ
digit_code d = if ltb d 10 then b'0' + d else b'a' + (d - 10)

-- `n.toString(base)`, its digits put before `acc`; `suc n` is fuel enough for every base over 1.
unfoldable pub print_digits : ℕ → ℕ → ℕ → Text → Text
unfolding digit_code
print_digits zero base n acc = acc
print_digits (suc fuel) base n acc =
    let more = print_digits fuel base (n / base) (digit_code (n % base) ∷ acc) in
    if ltb n base then digit_code n ∷ acc else more

unfoldable pub print_number : ℕ → ℕ → Text
unfolding print_digits
print_number base n = print_digits (suc n) base n []
