-- ===== src/Policy/Ipv4/RoundTrip.antt =====
-- packages/policy/src/scope.ts.
-- Reading the canonical text of an address gives the address back, and whatever is read has four
-- octets.
use touchmyapi.Common.{
  ℕ, ◌<◌, ◌≡◌, ◌∙◌, ap, refl, Bool, true, List, [], ◌∷◌, some, Text, arith, ◌&&◌, ◌==◌, not, any,
  is_digit, print_number, read_digits, split, split-join, IsFree,
}
use touchmyapi.Common.Table.{holds_below, holds_below-at}
use touchmyapi.Policy.Ipv4.{Ipv4, is_octet_text, decimal, octets, parse_ipv4, canonical_ipv4}
use touchmyapi.Policy.Ipv4.Ranges.{IsOctets}

octets-IsOctets : (ws : List Text) (v : Ipv4) → octets ws ≡ some v → IsOctets v
unfolding octets
octets-IsOctets (a ∷ b ∷ c ∷ d ∷ []) v h = ground arith
octets-IsOctets [] v h = cc
octets-IsOctets (_ ∷ []) v h = cc
octets-IsOctets (_ ∷ _ ∷ []) v h = cc
octets-IsOctets (_ ∷ _ ∷ _ ∷ []) v h = cc
octets-IsOctets (_ ∷ _ ∷ _ ∷ _ ∷ _ ∷ _) v h = cc

-- Whatever text is read as an address, its four numbers are octets.
pub parse_ipv4-IsOctets : (t : Text) (v : Ipv4) → parse_ipv4 t ≡ some v → IsOctets v
unfolding parse_ipv4
parse_ipv4-IsOctets t v h = octets-IsOctets (split b'.' t) v h

octet_prints : ℕ → Bool
octet_prints n =
    let t = print_number 10 n in is_octet_text t && decimal t == n && not (any (λ d. d == b'.') t)

octet_table : holds_below octet_prints 256 ≡ true
unfolding holds_below octet_prints is_octet_text is_digit read_digits print_number
octet_table = refl

print-octet :
    (n : ℕ)
    → n < 256
    → (is_octet_text (print_number 10 n) ≡ true)
      × (decimal (print_number 10 n) ≡ n)
      × IsFree b'.' (print_number 10 n)
unfolding octet_prints
print-octet n h =
    let checked : octet_prints n ≡ true = holds_below-at octet_prints 256 n h octet_table in
    ground arith

abbrev IsOctetText : Text → ℕ → Type 0
IsOctetText t n = (is_octet_text t ≡ true) × (decimal t ≡ n)

octets_of_texts :
    (a b c d : Text) (v : Ipv4)
    → IsOctets v
    → IsOctetText a v.a
    → IsOctetText b v.b
    → IsOctetText c v.c
    → IsOctetText d v.d
    → octets (a ∷ b ∷ c ∷ d ∷ []) ≡ some v
unfolding octets
octets_of_texts a b c d v h ha hb hc hd = ground arith

-- The canonical text of every address of four octets reads as that address.
pub parse_ipv4-canonical : (v : Ipv4) → IsOctets v → parse_ipv4 (canonical_ipv4 v) ≡ some v
unfolding parse_ipv4 canonical_ipv4
parse_ipv4-canonical v h =
    let (oa, da, fa) = print-octet v.a h.a in
    let (ob, db, fb) = print-octet v.b h.b in
    let (oc, dc, fc) = print-octet v.c h.c in
    let (od, dd, fd) = print-octet v.d h.d in
    let rest : List Text = print_number 10 v.b ∷ print_number 10 v.c ∷ print_number 10 v.d ∷ [] in
    ap octets (split-join b'.' (print_number 10 v.a) rest fa (fb, (fc, (fd, tt))))
    ∙ octets_of_texts _ _ _ _ v h (oa, da) (ob, db) (oc, dc) (od, dd)
