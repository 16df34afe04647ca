-- ===== src/Policy/Engine/Authorize/Clear.antt =====
-- packages/policy/src/engine.ts: the empty list of codes is that every check has passed.
use touchmyapi.Common.{
  ◌≡◌, refl, Bool, true, false, List, [], ◌∷◌, ◌++◌, Option, none, some, Result, ok, err, Text,
  codes, text_eq_iff, arith, append-eq-nil, is_empty, ◌⊎◌, inl, inr, Bool-cases, ◌&&◌,
}
use touchmyapi.Policy.Target.{NormalizedTarget, TargetError}
use touchmyapi.Policy.Scope.{AddressError}
use touchmyapi.Policy.Engine.Facts.{BlockCode, Platform, add_code, add_codes, has_code_in, denied}
use touchmyapi.Policy.Engine.Evidence.{FactState, verified, AttestationState, attested}
use touchmyapi.Policy.Engine.Authorize.{
  active_external, Parts, code_of, value_of, target_of, is_active, add_if,
}
use touchmyapi.Policy.Engine.Authorize.Codes.{
  root_codes, action_codes, category_codes, target_codes, port_codes, scope_codes, address_codes,
  attestation_codes, verification_codes, execution_codes, part_codes, is_free_unverified, conclude,
  decide,
}

-- `add` never makes the list of codes empty again.
pub add_codes-cons :
    (c : BlockCode) (cs more : List BlockCode) → is_empty (add_codes (c ∷ cs) more) ≡ false
unfolding add_codes add_code
add_codes-cons c cs [] = refl
add_codes-cons c cs (d ∷ more) =
    ground (arith, add_codes-cons c cs more, add_codes-cons c (cs ++ d ∷ []) more)

pub add_codes-eq-nil : (cs : List BlockCode) → is_empty (add_codes [] cs) ≡ true → cs ≡ []
unfolding add_codes add_code has_code_in
add_codes-eq-nil [] h = refl
add_codes-eq-nil (c ∷ cs) h = ground (arith, add_codes-cons c [] cs)

-- An allowed decision was made with no code added.
pub decide-allowed :
    (platform : Platform) (p : Parts)
    → (decide platform p).allowed ≡ true
    → (part_codes platform p ≡ []) × (decide platform p ≡ conclude p)
unfolding decide denied
decide-allowed platform p h = elim (Bool-cases (is_empty (add_codes [] (part_codes platform p)))) [
  | inl clear ↦ (add_codes-eq-nil _ clear, rw clear refl)
  | inr full ↦ ground arith
]

pub add_if-nil : (b : Bool) (c : BlockCode) → add_if b c ≡ [] → b ≡ false
add_if-nil true c h = cc
add_if-nil false c h = refl

pub code_of-nil {ℓ} : {A : Type ℓ} (r : Result BlockCode A) → code_of r ≡ [] → (a : A) × (r ≡ ok a)
code_of-nil (ok a) h = (a, refl)
code_of-nil (err e) h = cc

pub target_codes-nil :
    (malformed : Bool) (t : Option (Result TargetError NormalizedTarget))
    → target_codes malformed t ≡ []
    → (malformed ≡ false) × ((target : NormalizedTarget) × (t ≡ some (ok target)))
unfolding target_codes
target_codes-nil malformed none h = cc
target_codes-nil malformed (some (ok t)) h = (add_if-nil malformed _ h, (t, refl))
target_codes-nil malformed (some (err e)) h = ground arith

pub port_codes-nil :
    (t : NormalizedTarget) → port_codes (some t) ≡ [] → (t.port ≡ 80) ⊎ (t.port ≡ 443)
unfolding port_codes
port_codes-nil t h = ground arith

pub address_codes-nil :
    (r : Result AddressError (List Text))
    → address_codes (some r) ≡ []
    → (ts : List Text) × (r ≡ ok ts)
unfolding address_codes
address_codes-nil r h = ground arith

pub attestation_codes-nil : (s : AttestationState) → attestation_codes s ≡ [] → s ≡ attested
unfolding attestation_codes
attestation_codes-nil s h = ground arith

pub verification_codes-nil :
    (s : FactState) → verification_codes (some active_external) s ≡ [] → s ≡ verified
unfolding verification_codes
verification_codes-nil s h = ground arith

pub category_codes-nil : (t : Text) → category_codes t ≡ [] → t ≡ codes "surface"
unfolding category_codes
category_codes-nil t h = ground (arith, text_eq_iff t (codes "surface"))

-- Every code stands for a check, so the empty list of codes is that all of them passed.
pub record IsClear (platform : Platform) (p : Parts) : Type 0 where
  pub root_codes : root_codes p.root ≡ []
  pub action_codes : action_codes p.action ≡ []
  pub category_codes : category_codes p.category ≡ []
  pub context_codes : code_of p.context ≡ []
  pub plan_codes : code_of p.plan ≡ []
  pub target_codes : target_codes p.malformed p.target ≡ []
  pub port_codes : port_codes (target_of p.target) ≡ []
  pub scope_codes : scope_codes platform p ≡ []
  pub address_codes : address_codes p.addresses ≡ []
  pub playbook_codes : code_of p.playbook ≡ []
  pub attestation_codes : attestation_codes p.attestation ≡ []
  pub verification_codes : verification_codes p.action p.verification ≡ []
  pub execution_codes : execution_codes p.root ≡ []
  pub limit_codes : code_of p.limits ≡ []
  pub plan_action : (is_active p.action && is_free_unverified (value_of p.plan)) ≡ false

pub part_codes-IsClear :
    (platform : Platform) (p : Parts) → part_codes platform p ≡ [] → IsClear platform p
unfolding part_codes
part_codes-IsClear platform p h =
    let (a, h1) = append-eq-nil (root_codes p.root) _ h in
    let (b, h2) = append-eq-nil (action_codes p.action) _ h1 in
    let (c, h3) = append-eq-nil (category_codes p.category) _ h2 in
    let (d, h4) = append-eq-nil (code_of p.context) _ h3 in
    let (e, h5) = append-eq-nil (code_of p.plan) _ h4 in
    let (f, h6) = append-eq-nil (target_codes p.malformed p.target) _ h5 in
    let (g, h7) = append-eq-nil (port_codes (target_of p.target)) _ h6 in
    let (i, h8) = append-eq-nil (scope_codes platform p) _ h7 in
    let (j, h9) = append-eq-nil (address_codes p.addresses) _ h8 in
    let (k, h10) = append-eq-nil (code_of p.playbook) _ h9 in
    let (l, h11) = append-eq-nil (attestation_codes p.attestation) _ h10 in
    let (m, h12) = append-eq-nil (verification_codes p.action p.verification) _ h11 in
    let (n, h13) = append-eq-nil (execution_codes p.root) _ h12 in
    let (o, h14) = append-eq-nil (code_of p.limits) _ h13 in
    record {
      root_codes = a;
      action_codes = b;
      category_codes = c;
      context_codes = d;
      plan_codes = e;
      target_codes = f;
      port_codes = g;
      scope_codes = i;
      address_codes = j;
      playbook_codes = k;
      attestation_codes = l;
      verification_codes = m;
      execution_codes = n;
      limit_codes = o;
      plan_action = add_if-nil _ _ h14;
    }
