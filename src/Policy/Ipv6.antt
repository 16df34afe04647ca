-- ===== src/Policy/Ipv6.antt =====
-- packages/policy/src/scope.ts: IPv6 addresses, their text and the forbidden ranges. An address is
-- the list of its eight 16-bit words; `word v k` is `v[k] ?? 0`.
pub mod Global
pub mod Words
use Prim.Native.Nat.{bit_and}
use touchmyapi.Common.{
  ℕ, zero, suc, ◌+◌, ◌-◌, ◌*◌, ◌/◌, ◌%◌, Bool, true, false, List, [], ◌∷◌, ◌++◌, Option, none, some,
  Text, codes, starts_with, ends_with, has_code, is_hex, length, replicate, all, any, leb, ltb,
  ◌==◌, ◌&&◌, ◌||◌, not, is_empty, cut_last, cut_at, occurrences, split, join, read_digits,
  print_number, map, reverse, if◌then◌else◌,
}
use touchmyapi.Common.Maybe.{◌>>=◌, ◌>>◌, check}
use touchmyapi.Policy.Ipv4.{Ipv4, parse_ipv4, is_forbidden_ipv4}

abbrev pub Ipv6 : Type 0
Ipv6 = List ℕ

abbrev pub word : Ipv6 → ℕ → ℕ
word [] k = 0
word (x ∷ v) zero = x
word (x ∷ v) (suc k) = word v k

abbrev drop_last : Text → Text
drop_last t = elim (reverse t) [ [] ↦ [] | c ∷ r ↦ reverse r ]

-- `slice(1, -1)`.
abbrev pub inner : Text → Text
inner [] = []
inner (c ∷ s) = drop_last s

-- Brackets stand on both sides or on neither.
unfoldable pub strip_brackets : Text → Option Text
strip_brackets t =
    let opened = starts_with (codes "[") t in
    let closed = ends_with (codes "]") t in
    if opened || closed then (if opened && closed then some (inner t) else none) else some t

-- A dotted tail behind the last colon stands for two words; a dot elsewhere is refused.
unfoldable pub expand_dotted : Text → Option Text
expand_dotted value =
    if has_code b'.' value
    then elim (cut_last b':' value) [
      | none ↦ none
      | some (before, after) ↦ do
        v ← parse_ipv4 after
        some (
            before
            ++ (b':'
                ∷ (print_number 16 (v.a * 256 + v.b)
                    ++ (b':' ∷ print_number 16 (v.c * 256 + v.d)))))
    ]
    else some value

-- `text ? text.split(":") : []`.
unfoldable pub colon_parts : Text → List Text
colon_parts [] = []
colon_parts (c ∷ t) = split b':' (c ∷ t)

-- The words' texts, with a run of zeros for the one `::`.
unfoldable pub ipv6_parts : Text → Option (List Text)
unfolding colon_parts
ipv6_parts value = elim (cut_at (codes "::") value) [
  | none ↦ some (split b':' value)
  | some (left, right) ↦
      let ls = colon_parts left in
      let rs = colon_parts right in
      do
        check (occurrences (codes "::") value == 1)
        check (not (any is_empty ls || any is_empty rs))
        check (ltb (length ls + length rs) 8)
        some (ls ++ (replicate (8 - length ls - length rs) (codes "0") ++ rs))
]

-- `/^[0-9a-fA-F]{1,4}$/`
unfoldable pub is_word_text : Text → Bool
is_word_text t = all is_hex t && not (is_empty t) && leb (length t) 4

unfoldable pub words : List Text → Option Ipv6
words parts =
    if length parts == 8 && all is_word_text parts
    then some (map (read_digits 16 0) parts)
    else none

unfoldable pub parse_ipv6 : Text → Option Ipv6
parse_ipv6 input = do
  value ← strip_brackets input
  check (not (is_empty value || has_code b'%' value))
  expanded ← expand_dotted value
  parts ← ipv6_parts expanded
  words parts

-- The first longest run of at least two zero words: the loop's `bestStart`, `bestLength` and
-- `runStart`, of which `none` is -1.
pub record Runs : Type 0 where
  pub best_start : Option ℕ
  pub best_length : ℕ
  pub run_start : Option ℕ

unfoldable pub end_run : ℕ → Runs → Runs
end_run i r = elim r.run_start [
  | none ↦ r
  | some s ↦
      let closed : Runs = record r { run_start = none } in
      if ltb r.best_length (i - s) && leb 2 (i - s)
      then record closed { best_start = some s; best_length = i - s }
      else closed
]

abbrev start_run : ℕ → Runs → Runs
start_run i r = elim r.run_start [ none ↦ record r { run_start = some i } | some s ↦ r ]

unfoldable pub scan_runs : Ipv6 → ℕ → Runs → Runs
unfolding end_run
scan_runs [] i r = end_run i r
scan_runs (x ∷ v) i r = scan_runs v (suc i) (if x == 0 then start_run i r else end_run i r)

-- The second loop, `skip` words of the best run being still to be passed over.
unfoldable pub pieces : Ipv6 → ℕ → ℕ → Option ℕ → ℕ → List Text
pieces [] i skip start len = []
pieces (x ∷ v) i (suc skip) start len = pieces v (suc i) skip start len
pieces (x ∷ v) i zero none len = print_number 16 x ∷ pieces v (suc i) zero none len
pieces (x ∷ v) i zero (some s) len =
    let rest = pieces v (suc i) (if i == s then len - 1 else 0) (some s) len in
    if i == s then [] ∷ (if i + len == 8 then [] ∷ rest else rest) else print_number 16 x ∷ rest

-- `replace(/^:([^:])/, "::$1")`
unfoldable pub double_front : Text → Text
double_front [] = []
double_front (c ∷ []) = c ∷ []
double_front (c ∷ d ∷ t) = if c == b':' && not (d == b':') then b':' ∷ b':' ∷ d ∷ t else c ∷ d ∷ t

-- `replace(/([^:]):$/, "$1::")`, on the reversed text the same replacement.
unfoldable pub canonical_ipv6 : Ipv6 → Text
canonical_ipv6 v =
    let r = scan_runs v 0 (record { best_start = none; best_length = 0; run_start = none }) in
    reverse
      (double_front (reverse (double_front (join b':' (pieces v 0 0 r.best_start r.best_length)))))

-- The IPv4 address of the last two words.
unfoldable pub mapped_ipv4 : Ipv6 → Ipv4
mapped_ipv4 v = record {
  a = (word v 6 / 256) % 256;
  b = word v 6 % 256;
  c = (word v 7 / 256) % 256;
  d = word v 7 % 256;
}

unfoldable pub is_mapped : Ipv6 → Bool
is_mapped v =
    word v 0 == 0
    && word v 1 == 0
    && word v 2 == 0
    && word v 3 == 0
    && word v 4 == 0
    && word v 5 == 0xffff

-- The ranges that the code lists inside the global unicast block.
unfoldable pub is_special_ipv6 : Ipv6 → Bool
is_special_ipv6 v =
    let first = word v 0 in
    let second = word v 1 in
    let unspecified = all (λ x. x == 0) v in
    first == 0x2002
    || unspecified
    || unspecified && word v 7 == 1
    || bit_and first 0xfe00 == 0xfc00
    || bit_and first 0xffc0 == 0xfe80
    || bit_and first 0xff00 == 0xff00
    || first == 0x2001 && second == 0x0db8
    || first == 0x2001 && second == 0x0002
    || first == 0x2001 && (bit_and second 0xfff0 == 0x0010 || bit_and second 0xfff0 == 0x0020)
    || (first == 0
        || first == 0x2001 && second == 0
        || first == 0x3fff && bit_and second 0xf000 == 0)
    || first == 0x0100 && second == 0 && word v 2 == 0 && word v 3 == 0

unfoldable pub is_forbidden_ipv6 : Ipv6 → Bool
is_forbidden_ipv6 v =
    if is_mapped v
    then is_forbidden_ipv4 (mapped_ipv4 v)
    else if not (leb 0x2000 (word v 0) && leb (word v 0) 0x3fff)
    then true
    else is_special_ipv6 v
