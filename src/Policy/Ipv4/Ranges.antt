-- ===== src/Policy/Ipv4/Ranges.antt =====
-- packages/policy/src/scope.ts.
-- The forbidden IPv4 addresses as ranges of 32-bit numbers, in the notation of their blocks.
use touchmyapi.Common.{
  ◌&&◌, ◌||◌, ℕ, ◌+◌, ◌*◌, ◌^◌, ◌-◌, ◌<◌, ◌≡◌, Bool, List, [], ◌∷◌, arith, any, leb, ltb, ◌==◌,
}
use mathlib.Core.Bool.{or_assoc, or-false}
use touchmyapi.Policy.Ipv4.{Ipv4, is_forbidden_ipv4}

abbrev pub number : Ipv4 → ℕ
number v = ((v.a * 256 + v.b) * 256 + v.c) * 256 + v.d

-- A block `a.b.c.0/len` as its first address and its size.
pub record Block : Type 0 where
  pub first : ℕ
  pub size : ℕ

abbrev block : ℕ → ℕ → ℕ → ℕ → Block
block a b c len = record { first = ((a * 256 + b) * 256 + c) * 256; size = 2 ^ (32 - len) }

-- The blocks of the registry of special purpose addresses, multicast and reserved space.
abbrev pub blocks : List Block
blocks =
    block 0 0 0 8
    ∷ block 10 0 0 8
    ∷ block 127 0 0 8
    ∷ block 100 64 0 10
    ∷ block 169 254 0 16
    ∷ block 172 16 0 12
    ∷ block 192 168 0 16
    ∷ block 192 0 0 24
    ∷ block 192 0 2 24
    ∷ block 192 88 99 24
    ∷ block 198 18 0 15
    ∷ block 198 51 100 24
    ∷ block 203 0 113 24
    ∷ block 224 0 0 3
    ∷ []

pub in_block : ℕ → Block → Bool
in_block n b = leb b.first n && ltb n (b.first + b.size)

pub record IsOctets (v : Ipv4) : Type 0 where
  pub a : v.a < 256
  pub b : v.b < 256
  pub c : v.c < 256
  pub d : v.d < 256

module _ (v : Ipv4) (h : IsOctets v) where
  in_block_8 : (k : ℕ) → in_block (number v) (block k 0 0 8) ≡ (v.a == k)
  unfolding in_block
  in_block_8 k = ground arith

  in_block_16 : (k l : ℕ) → l < 256 → in_block (number v) (block k l 0 16) ≡ (v.a == k && v.b == l)
  unfolding in_block
  in_block_16 k l p = ground arith

  in_block_24 :
      (k l m : ℕ)
      → l < 256
      → m < 256
      → in_block (number v) (block k l m 24) ≡ (v.a == k && v.b == l && v.c == m)
  unfolding in_block
  in_block_24 k l m p q = ground arith

  in_block_100 : in_block (number v) (block 100 64 0 10) ≡ (v.a == 100 && leb 64 v.b && leb v.b 127)
  unfolding in_block
  in_block_100 = ground arith

  in_block_172 : in_block (number v) (block 172 16 0 12) ≡ (v.a == 172 && leb 16 v.b && leb v.b 31)
  unfolding in_block
  in_block_172 = ground arith

  in_block_198 :
      in_block (number v) (block 198 18 0 15) ≡ (v.a == 198 && v.b == 18 || v.a == 198 && v.b == 19)
  unfolding in_block
  in_block_198 = ground arith

  in_block_224 : in_block (number v) (block 224 0 0 3) ≡ leb 224 v.a
  unfolding in_block
  in_block_224 = ground arith

-- An address of four octets is forbidden exactly if it lies in one of the blocks.
pub is_forbidden_ipv4-blocks :
    (v : Ipv4) → IsOctets v → is_forbidden_ipv4 v ≡ any (in_block (number v)) blocks
unfolding is_forbidden_ipv4
is_forbidden_ipv4-blocks v h = simp (
  in_block_8 v h 0,
  in_block_8 v h 10,
  in_block_8 v h 127,
  in_block_100 v h,
  in_block_16 v h 169 254 (omega arith),
  in_block_172 v h,
  in_block_16 v h 192 168 (omega arith),
  in_block_24 v h 192 0 0 (omega arith) (omega arith),
  in_block_24 v h 192 0 2 (omega arith) (omega arith),
  in_block_24 v h 192 88 99 (omega arith) (omega arith),
  in_block_198 v h,
  in_block_24 v h 198 51 100 (omega arith) (omega arith),
  in_block_24 v h 203 0 113 (omega arith) (omega arith),
  in_block_224 v h,
  or_assoc,
  or-false,
)
