-- ===== src/Policy/Engine/Authorize/Refusal.antt =====
-- packages/policy/src/engine.ts: what a refused assessment carries, and the limits of an allowed one.
use mathlib.Core.Bool.{false≢true}
use touchmyapi.Common.{
  ◌≡◌, refl, sym, ap, ◌∙◌, true, false, List, [], ◌∷◌, ◌++◌, Option, none, some, arith, is_empty,
  inl, inr, Bool-cases, ◌||◌,
}
use touchmyapi.Js.{Value, Snapshot}
use touchmyapi.Policy.Engine.Facts.{
  BlockCode, code_eq, BlockCode-discrete, has_code_in, add_code, add_codes, denied, allowed,
  Platform, Registry, PolicyDecision,
}
use touchmyapi.Policy.Engine.Snapshot.{snapshot_object}
use touchmyapi.Policy.Engine.Authorize.{read_parts}
use touchmyapi.Policy.Engine.Authorize.Clear.{part_codes-IsClear, add_codes-eq-nil}
use touchmyapi.Policy.Engine.Authorize.Sound.{clear_parts}
use touchmyapi.Policy.Engine.Authorize.Codes.{
  conclude, decide, grant, authorize, part_codes, root_codes,
}

abbrev pub IsDistinct : List BlockCode → Type 0
IsDistinct [] = Unit
IsDistinct (c ∷ cs) = (has_code_in c cs ≡ false) × IsDistinct cs

has_code_in-snoc :
    (c d : BlockCode) (cs : List BlockCode)
    → has_code_in c (cs ++ d ∷ []) ≡ (has_code_in c cs || code_eq c d)
unfolding has_code_in
has_code_in-snoc c d [] = ground arith
has_code_in-snoc c d (e ∷ cs) = ground (arith, has_code_in-snoc c d cs)

code_eq_sym : (c d : BlockCode) → code_eq c d ≡ code_eq d c
unfolding code_eq
code_eq_sym c d = ground (arith, BlockCode-discrete c d, BlockCode-discrete d c)

IsDistinct-snoc :
    (d : BlockCode) (cs : List BlockCode)
    → has_code_in d cs ≡ false
    → IsDistinct cs
    → IsDistinct (cs ++ d ∷ [])
unfolding has_code_in
IsDistinct-snoc d [] h k = (refl, tt)
IsDistinct-snoc d (c ∷ cs) h k = (
  rw (has_code_in-snoc c d cs, code_eq_sym c d) (ground arith),
  IsDistinct-snoc d cs (ground arith) k.1,
)

add_codes-IsDistinct : (cs more : List BlockCode) → IsDistinct cs → IsDistinct (add_codes cs more)
unfolding add_codes add_code
add_codes-IsDistinct cs [] h = h
add_codes-IsDistinct cs (d ∷ more) h = elim (Bool-cases (has_code_in d cs)) [
  | inl old ↦
      let same : add_code cs d ≡ cs = rw old refl in rw same (add_codes-IsDistinct cs more h)
  | inr new ↦
      let longer : add_code cs d ≡ cs ++ d ∷ [] = rw new refl in
      rw longer (add_codes-IsDistinct (cs ++ d ∷ []) more (IsDistinct-snoc d cs new h))
]

-- Nothing of an assessment is left in a refusal.
pub record IsRefusal (d : PolicyDecision) : Type 0 where
  pub no_actions : d.actions ≡ []
  pub no_capabilities : d.capabilities ≡ []
  pub no_limits : d.limits ≡ none
  pub no_target : d.target ≡ none
  pub no_addresses : d.resolved_addresses ≡ []
  pub no_fingerprint : d.scope_fingerprint ≡ none
  pub distinct : IsDistinct d.blocked

denied-IsRefusal : (cs : List BlockCode) → IsRefusal (denied cs)
unfolding denied
denied-IsRefusal cs = record {
  no_actions = refl;
  no_capabilities = refl;
  no_limits = refl;
  no_target = refl;
  no_addresses = refl;
  no_fingerprint = refl;
  distinct = add_codes-IsDistinct [] cs tt;
}

denied-blocked : (cs : List BlockCode) → is_empty cs ≡ false → is_empty (denied cs).blocked ≡ false
unfolding denied
denied-blocked cs h = elim (Bool-cases (is_empty (add_codes [] cs))) [
  | inl clear ↦ ground (arith, add_codes-eq-nil cs clear)
  | inr full ↦ full
]

-- Where no code is added, the assessment is allowed.
clear_copy :
    (platform : Platform) (registry : Registry) (s : Option Snapshot)
    → part_codes platform (read_parts platform registry s) ≡ []
    → (conclude (read_parts platform registry s)).allowed ≡ true
unfolding read_parts root_codes grant allowed
clear_copy platform registry none h =
    let c = part_codes-IsClear platform (read_parts platform registry none) h in
    let clash = c.root_codes in cc
clear_copy platform registry (some root) h =
    let p = read_parts platform registry (some root) in
    let c = part_codes-IsClear platform p h in
    ap (λ d. d.allowed) (clear_parts platform registry root c (conclude p) refl).decided

refused_copy :
    (platform : Platform) (registry : Registry) (s : Option Snapshot)
    → let d = decide platform (read_parts platform registry s) in
      d.allowed ≡ false → IsRefusal d × (is_empty d.blocked ≡ false)
unfolding decide
refused_copy platform registry s h =
    let p = read_parts platform registry s in
    elim (Bool-cases (is_empty (add_codes [] (part_codes platform p)))) [
      | inl clear ↦
          let is_allowed = clear_copy platform registry s (add_codes-eq-nil _ clear) in
          let same : decide platform p ≡ conclude p = rw clear refl in
          absurd (false≢true (sym h ∙ ap (λ d. d.allowed) same ∙ is_allowed))
      | inr full ↦
          rw full (denied-IsRefusal (add_codes [] (part_codes platform p)), denied-blocked _ full)
    ]

-- A refused assessment carries no action, capability, limit, target, address or fingerprint; it names
-- at least one code, and none of them twice.
pub authorize-IsRefusal :
    (platform : Platform) (registry : Registry) (input : Value)
    → let d = authorize platform registry input in
      d.allowed ≡ false → IsRefusal d × (is_empty d.blocked ≡ false)
unfolding authorize
authorize-IsRefusal platform registry input h =
    refused_copy platform registry (snapshot_object input none) h
