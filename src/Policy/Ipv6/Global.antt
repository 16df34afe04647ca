-- ===== src/Policy/Ipv6/Global.antt =====
-- packages/policy/src/scope.ts.
-- Which IPv6 addresses are left: the masks as ranges.
use Prim.Native.Nat.{bit_and}
use touchmyapi.Common.{
  ℕ, ◌≤◌, ◌<◌, ◌≡◌, refl, Bool, true, false, [], ◌∷◌, arith, ◌&&◌, ◌||◌, ◌==◌, not, leb, ltb, all,
  if◌then◌else◌,
}
use touchmyapi.Common.Table.{holds_below, holds_below-at}
use touchmyapi.Policy.Ipv4.{is_forbidden_ipv4}
use touchmyapi.Policy.Ipv6.{Ipv6, word, is_mapped, mapped_ipv4, is_special_ipv6, is_forbidden_ipv6}

-- In the global unicast block none of the three masks of the first word applies.
first_masks : ℕ → Bool
first_masks x =
    not (bit_and x 0xfe00 == 0xfc00 || bit_and x 0xffc0 == 0xfe80 || bit_and x 0xff00 == 0xff00)

first_table : holds_below first_masks 0x4000 ≡ true
unfolding holds_below first_masks
first_table = refl

same : Bool → Bool → Bool
same true b = b
same false b = not b

second_masks : ℕ → Bool
second_masks x =
    same (bit_and x 0xfff0 == 0x0010 || bit_and x 0xfff0 == 0x0020) (leb 0x10 x && leb x 0x2f)
    && same (bit_and x 0xf000 == 0) (ltb x 0x1000)

second_table : holds_below second_masks 0x10000 ≡ true
unfolding holds_below second_masks same
second_table = refl

first-unmasked :
    (x : ℕ)
    → x ≤ 0x3fff
    → ((bit_and x 0xfe00 == 0xfc00) ≡ false)
      × ((bit_and x 0xffc0 == 0xfe80) ≡ false)
      × ((bit_and x 0xff00 == 0xff00) ≡ false)
unfolding first_masks
first-unmasked x h =
    let checked : first_masks x ≡ true =
      holds_below-at first_masks 0x4000 x (omega arith) first_table in
    ground arith

second-masked :
    (x : ℕ)
    → x < 0x10000
    → ((bit_and x 0xfff0 == 0x0010 || bit_and x 0xfff0 == 0x0020) ≡ (leb 0x10 x && leb x 0x2f))
      × ((bit_and x 0xf000 == 0) ≡ ltb x 0x1000)
unfolding second_masks same
second-masked x h =
    let checked : second_masks x ≡ true = holds_below-at second_masks 0x10000 x h second_table in
    ground arith

not-unspecified : (v : Ipv6) → 0 < word v 0 → all (λ x. x == 0) v ≡ false
not-unspecified [] h = elim h [ ]
not-unspecified (x ∷ v) h = ground arith

-- Global unicast addresses, without 2002::/16, 2001::/32, 2001:2::/32, 2001:10::/28, 2001:20::/28,
-- 2001:db8::/32 and 3fff::/20, from the first two words.
pub is_public : ℕ → ℕ → Bool
is_public first second =
    leb 0x2000 first
    && leb first 0x3fff
    && not (first == 0x2002)
    && not (
        first == 0x2001
        && (second == 0 || second == 2 || second == 0xdb8 || leb 0x10 second && leb second 0x2f))
    && not (first == 0x3fff && ltb second 0x1000)

is_special_ipv6-public :
    (v : Ipv6)
    → 0x2000 ≤ word v 0
    → word v 0 ≤ 0x3fff
    → word v 1 < 0x10000
    → is_special_ipv6 v ≡ not (is_public (word v 0) (word v 1))
unfolding is_special_ipv6 is_public
is_special_ipv6-public v lo hi h =
    let (m, n, k) = first-unmasked (word v 0) hi in
    let (p, q) = second-masked (word v 1) h in
    simp (m, n, k, p, q, not-unspecified v (omega arith)) (ground arith)

-- An address is forbidden exactly if it is mapped from a forbidden IPv4 address, or not mapped and
-- not public.
pub is_forbidden_ipv6_lem :
    (v : Ipv6)
    → word v 1 < 0x10000
    → is_forbidden_ipv6 v ≡ (
        if is_mapped v
        then is_forbidden_ipv4 (mapped_ipv4 v)
        else not (is_public (word v 0) (word v 1)))
unfolding is_forbidden_ipv6 is_public
is_forbidden_ipv6_lem v h = ground (arith, is_special_ipv6-public v)
