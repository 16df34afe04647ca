-- ===== src/Policy/Scope/Matching.antt =====
-- packages/policy/src/scope.ts.
-- When a target is in a scope.
use mathlib.Core.Bool.{false≢true}
use mathlib.Core.List.{append_assoc}
use touchmyapi.Common.{
  Result-cases, length, length-append, append-before, ends_with-append, before-append,
  starts_with-append, append-drop_text, ◌≡◌, ◌≢◌, ◌↔◌, Bool, true, false, List, [], ◌∷◌, ◌++◌, some,
  ok, arith, Text, codes, text_eq, text_eq_iff, starts_with, ends_with, has_code, any, any-Elem,
  Elem-any, Elem, any-eq-false, All, Bool-cases, inl, inr, ◌⊎◌, refl, drop_text, ap, sym, ◌∙◌,
}
use touchmyapi.Policy.Host.{UrlParser}
use touchmyapi.Policy.Target.{NormalizedTarget, normalize_external_url}
use touchmyapi.Policy.Rule.{ScopeRule, CompiledScope}
use touchmyapi.Policy.Scope.{
  path_matches, host_matches, rule_matches, target_in_scope, matches_scope, before_suffix,
}

-- A normal form that some inclusion matches and no exclusion.
pub record IsInScope (parse_url : UrlParser) (scope : CompiledScope) (candidate : Text)
    : Type 0 where
  pub target : NormalizedTarget
  pub normal : normalize_external_url parse_url candidate ≡ ok target
  pub included : (r : ScopeRule) × Elem r scope.inclusions × (rule_matches r target ≡ true)
  pub excluded : All (λ r. rule_matches r target ≡ false) scope.exclusions

target_in_scope_sound :
    (scope : CompiledScope) (target : NormalizedTarget)
    → target_in_scope scope target ≡ true
    → ((r : ScopeRule) × Elem r scope.inclusions × (rule_matches r target ≡ true))
      × All (λ r. rule_matches r target ≡ false) scope.exclusions
unfolding target_in_scope
target_in_scope_sound scope target h = (
  any-Elem (λ r. rule_matches r target) scope.inclusions (ground arith),
  any-eq-false (λ r. rule_matches r target) scope.exclusions (ground arith),
)

All-any-eq-false {ℓ} :
    {A : Type ℓ} (p : A → Bool) (xs : List A) → All (λ a. p a ≡ false) xs → any p xs ≡ false
All-any-eq-false p [] h = refl
All-any-eq-false p (x ∷ xs) h = ground (arith, All-any-eq-false p xs h.1)

target_in_scope_complete :
    (scope : CompiledScope) (target : NormalizedTarget)
    → (r : ScopeRule) × Elem r scope.inclusions × (rule_matches r target ≡ true)
    → All (λ r. rule_matches r target ≡ false) scope.exclusions
    → target_in_scope scope target ≡ true
unfolding target_in_scope
target_in_scope_complete scope target (r, listed, matched) excluded = rw (
  All-any-eq-false (λ r. rule_matches r target) scope.exclusions excluded,
  Elem-any (λ r. rule_matches r target) scope.inclusions listed matched,
)

matches_scope_of_target :
    (parse_url : UrlParser) (scope : CompiledScope) (candidate : Text) (target : NormalizedTarget)
    → normalize_external_url parse_url candidate ≡ ok target
    → matches_scope parse_url (some scope) candidate ≡ target_in_scope scope target
unfolding matches_scope
matches_scope_of_target parse_url scope candidate target h = ground arith

matches_scope_normal :
    (parse_url : UrlParser) (scope : CompiledScope) (candidate : Text)
    → matches_scope parse_url (some scope) candidate ≡ true
    → (target : NormalizedTarget) × (normalize_external_url parse_url candidate ≡ ok target)
unfolding matches_scope
matches_scope_normal parse_url scope candidate h =
    elim (Result-cases (normalize_external_url parse_url candidate)) [
      | inl normal ↦ normal
      | inr (e, failed) ↦ absurd (false≢true (ground arith))
    ]

-- A candidate is in a compiled scope exactly if it has a normal form that some inclusion matches and
-- that no exclusion matches.
pub matches_scope_iff :
    (parse_url : UrlParser) (scope : CompiledScope) (candidate : Text)
    → (matches_scope parse_url (some scope) candidate ≡ true) ↔ IsInScope parse_url scope candidate
matches_scope_iff parse_url scope candidate = (
  λ h.
      let (target, normal) = matches_scope_normal parse_url scope candidate h in
      let (included, excluded) =
        target_in_scope_sound scope target
          (sym (matches_scope_of_target parse_url scope candidate target normal) ∙ h) in
      record { target = target; normal = normal; included = included; excluded = excluded },
  λ s.
      matches_scope_of_target parse_url scope candidate s.target s.normal
      ∙ target_in_scope_complete scope s.target s.included s.excluded,
)

longer-ne : (label host : Text) → text_eq (label ++ b'.' ∷ host) host ≡ false
longer-ne label host = elim (Bool-cases (text_eq (label ++ b'.' ∷ host) host)) [
  | inl same ↦
      let len = ap length ((text_eq_iff (label ++ b'.' ∷ host) host).0 same) in
      absurd (omega (arith, len, length-append {0} label (b'.' ∷ host)))
  | inr differs ↦ differs
]

before_suffix-append : (label suffix : Text) → before_suffix suffix (label ++ suffix) ≡ label
unfolding before_suffix
before_suffix-append label suffix = before-append suffix label

wildcard_matches :
    (rule : ScopeRule) (label : Text)
    → rule.wildcard ≡ true
    → has_code b'.' label ≡ false
    → host_matches rule (label ++ b'.' ∷ rule.host) ≡ true
unfolding host_matches
wildcard_matches rule label w free =
    let suffix = b'.' ∷ rule.host in
    rw (
      w,
      ends_with-append suffix label,
      longer-ne label rule.host,
      before_suffix-append label suffix,
      free,
    )

wildcard_matched :
    (rule : ScopeRule) (hostname : Text)
    → rule.wildcard ≡ true
    → host_matches rule hostname ≡ true
    → (ends_with (b'.' ∷ rule.host) hostname ≡ true)
      × (has_code b'.' (before_suffix (b'.' ∷ rule.host) hostname) ≡ false)
unfolding host_matches
wildcard_matched rule hostname w h = ground arith

before_suffix-split :
    (suffix hostname : Text)
    → ends_with suffix hostname ≡ true
    → hostname ≡ (before_suffix suffix hostname ++ suffix)
unfolding before_suffix
before_suffix-split suffix hostname h = sym (append-before suffix hostname h)

-- A wildcard rule matches exactly the names with one label more, which may be empty, in front of
-- the rule's host and a dot.
pub host_matches_wildcard_iff :
    (rule : ScopeRule) (hostname : Text)
    → rule.wildcard ≡ true
    → (host_matches rule hostname ≡ true)
      ↔ ((label : Text) × (has_code b'.' label ≡ false) × (hostname ≡ (label ++ b'.' ∷ rule.host)))
host_matches_wildcard_iff rule hostname w = (
  λ h.
      let suffix = b'.' ∷ rule.host in
      let (ends, free) = wildcard_matched rule hostname w h in
      (before_suffix suffix hostname, free, before_suffix-split suffix hostname ends),
  λ (label, free, same). rw same (wildcard_matches rule label w free),
)

-- What a rule's path covers: the root every path that begins with a slash; any other prefix itself
-- and what stands below it behind a slash.
abbrev pub IsCovered : Text → Text → Type 0
IsCovered prefix path =
    (prefix ≡ codes "/") × ((rest : Text) × (path ≡ b'/' ∷ rest))
    ⊎ (prefix ≢ codes "/") × ((path ≡ prefix) ⊎ ((rest : Text) × (path ≡ (prefix ++ b'/' ∷ rest))))

slash_split :
    (path : Text) → starts_with (codes "/") path ≡ true → (rest : Text) × (path ≡ b'/' ∷ rest)
unfolding starts_with
slash_split [] h = absurd (false≢true h)
slash_split (c ∷ rest) h = (rest, ground arith)

path_covered :
    (prefix path : Text)
    → text_eq prefix (codes "/") ≡ false
    → path_matches prefix path ≡ true
    → (path ≡ prefix) ⊎ ((rest : Text) × (path ≡ (prefix ++ b'/' ∷ rest)))
unfolding path_matches
path_covered prefix path other h = elim (Bool-cases (text_eq path prefix)) [
  | inl same ↦ inl ((text_eq_iff path prefix).0 same)
  | inr differs ↦
      let below : starts_with (prefix ++ codes "/") path ≡ true = ground arith in
      inr (
        drop_text (prefix ++ codes "/") path,
        sym (append-drop_text (prefix ++ codes "/") path below)
            ∙ append_assoc prefix (codes "/") (drop_text (prefix ++ codes "/") path),
      )
]

path_matches_root : (path : Text) → path_matches (codes "/") path ≡ starts_with (codes "/") path
unfolding path_matches text_eq
path_matches_root path = refl

path_matches_below :
    (prefix rest : Text)
    → text_eq prefix (codes "/") ≡ false
    → path_matches prefix (prefix ++ b'/' ∷ rest) ≡ true
unfolding path_matches
path_matches_below prefix rest other =
    let below : starts_with (prefix ++ codes "/") (prefix ++ b'/' ∷ rest) ≡ true =
      rw (← append_assoc prefix (codes "/") rest) (starts_with-append (prefix ++ codes "/") rest) in
    ground arith

path_matches_self :
    (prefix : Text) → text_eq prefix (codes "/") ≡ false → path_matches prefix prefix ≡ true
unfolding path_matches
path_matches_self prefix other = ground (arith, text_eq_iff prefix prefix)

not-root : (prefix : Text) → prefix ≢ codes "/" → text_eq prefix (codes "/") ≡ false
not-root prefix h = ground (arith, text_eq_iff prefix (codes "/"))

-- A rule's path matches exactly the paths that it covers, so that "/admin" never matches "/admins".
pub path_matches_iff :
    (prefix path : Text) → (path_matches prefix path ≡ true) ↔ IsCovered prefix path
path_matches_iff prefix path = (
  λ h. elim (Bool-cases (text_eq prefix (codes "/"))) [
    | inl root ↦
        let same = (text_eq_iff prefix (codes "/")).0 root in
        inl (same, slash_split path (sym (path_matches_root path) ∙ (rw same at h)))
    | inr other ↦ inr (
      λ same. false≢true (sym other ∙ (text_eq_iff prefix (codes "/")).1 same),
      path_covered prefix path other h,
    )
  ],
  elim [
    | inl (root, (rest, same)) ↦
        rw (root, same) (path_matches_root (b'/' ∷ rest) ∙ starts_with-append (codes "/") rest)
    | inr (other, inl same) ↦ rw same (path_matches_self prefix (not-root prefix other))
    | inr (other, inr (rest, same)) ↦
        rw same (path_matches_below prefix rest (not-root prefix other))
  ],
)
