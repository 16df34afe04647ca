-- ===== src/Policy/Scope/Addresses.antt =====
-- packages/policy/src/scope.ts.
-- The addresses that are accepted for a target.
use touchmyapi.Common.{
  ◌≡◌, ◌≢◌, false, List, [], ◌∷◌, some, none, Text, if◌then◌else◌, true, trim, mem_text,
}
use touchmyapi.Js.{Value, str}
use touchmyapi.Policy.Host.{CanonicalIp, canonical_ip, is_forbidden_address}

-- The texts that do not stand in `found`.
abbrev pub without : List Text → List Text → List Text
without found [] = []
without found (t ∷ ts) = let rest = without found ts in if mem_text t found then rest else t ∷ rest

-- The first occurrence of each text, in their order.
abbrev pub first_occurrences : List Text → List Text
first_occurrences [] = []
first_occurrences (t ∷ ts) = t ∷ without (t ∷ []) (first_occurrences ts)

-- Each given value is the text of an address that is not forbidden; `values` are their normal forms.
abbrev pub AreRead : List Value → List Text → Type 0
AreRead [] [] = Unit
AreRead (str t ∷ rest) (value ∷ values) =
    ((ip : CanonicalIp) × (canonical_ip (trim t) ≡ some ip)
      × (ip.value ≡ value)
      × (ip.forbidden ≡ false))
    × AreRead rest values
AreRead _ _ = false ≡ true

-- What the accepted addresses of a host are: the host's own address; or, in their order and each
-- once, the normal forms of the addresses given.
pub data IsValidated (name : Text) (addresses : List Value) (result : List Text) : Type 0 where
  own_address :
      (ip : CanonicalIp)
      → canonical_ip name ≡ some ip
      → ip.forbidden ≡ false
      → result ≡ ip.value ∷ []
      → IsValidated name addresses result
  resolved :
      canonical_ip name ≡ none
      → is_forbidden_address name ≡ false
      → addresses ≢ []
      → (values : List Text) → AreRead addresses values
      → result ≡ first_occurrences values
      → IsValidated name addresses result
