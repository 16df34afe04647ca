-- ===== src/Analysis/Keys.antt =====
-- packages/analysis/src/index.ts: the analysis against a reference: of all findings in the order in
-- which they are made, the last one for each key.
use mathlib.Core.Path.{subst}
use touchmyapi.Common.{
  ◌≡◌, refl, ap, ◌∙◌, Bool, false, List, [], ◌∷◌, ◌++◌, Option, none, some, Text, text_eq,
  text_eq_iff, any, arith, Bool-cases, inl, inr, ◌||◌, if◌then◌else◌,
}
use touchmyapi.Common.Sort.{find, insert, sort}
use touchmyapi.Contracts.Observation.{PassiveObservation}
use touchmyapi.Analysis.Findings.{
  AnalyzedFinding, analyze_observation, set_finding, set_findings, collect_findings,
}

abbrev pub has_key : Text → AnalyzedFinding → Bool
has_key k f = text_eq f.source_key k

-- Everything that the observations report, in order.
abbrev pub reported : List PassiveObservation → List AnalyzedFinding
reported [] = []
reported (o ∷ os) = analyze_observation o ++ reported os

abbrev pub or_else : Option AnalyzedFinding → Option AnalyzedFinding → Option AnalyzedFinding
or_else none o = o
or_else (some f) o = some f

-- The last one with the key.
abbrev pub latest : Text → List AnalyzedFinding → Option AnalyzedFinding
latest k [] = none
latest k (f ∷ fs) = or_else (latest k fs) (if has_key k f then some f else none)

abbrev pub IsDistinctKeys : List AnalyzedFinding → Type 0
IsDistinctKeys [] = Unit
IsDistinctKeys (f ∷ fs) = (any (has_key f.source_key) fs ≡ false) × IsDistinctKeys fs

text_eq_sym : (s t : Text) → text_eq s t ≡ text_eq t s
text_eq_sym s t = ground (arith, text_eq_iff s t, text_eq_iff t s)

any-set_finding :
    (k : Text) (f : AnalyzedFinding) (fs : List AnalyzedFinding)
    → any (has_key k) (set_finding f fs) ≡ (any (has_key k) fs || has_key k f)
unfolding set_finding
any-set_finding k f [] = ground arith
any-set_finding k f (g ∷ gs) =
    ground (arith, any-set_finding k f gs, text_eq_iff g.source_key f.source_key)

set_finding-IsDistinctKeys :
    (f : AnalyzedFinding) (fs : List AnalyzedFinding)
    → IsDistinctKeys fs
    → IsDistinctKeys (set_finding f fs)
unfolding set_finding
set_finding-IsDistinctKeys f [] h = (refl, tt)
set_finding-IsDistinctKeys f (g ∷ gs) (new, h) =
    elim (Bool-cases (text_eq g.source_key f.source_key)) [
      | inl same ↦
          let e = (text_eq_iff g.source_key f.source_key).0 same in
          rw same (subst (λ k. any (has_key k) gs ≡ false) e new, h)
      | inr other ↦ rw other (
        any-set_finding g.source_key f gs ∙ ground (arith, text_eq_sym f.source_key g.source_key),
        set_finding-IsDistinctKeys f gs h,
      )
    ]

find-set_finding :
    (k : Text) (f : AnalyzedFinding) (fs : List AnalyzedFinding)
    → find (has_key k) (set_finding f fs) ≡ (if has_key k f then some f else find (has_key k) fs)
unfolding set_finding find
find-set_finding k f [] = refl
find-set_finding k f (g ∷ gs) = ground (
  arith,
  find-set_finding k f gs,
  text_eq_iff g.source_key f.source_key,
  text_eq_iff g.source_key k,
  text_eq_iff f.source_key k,
)

pub find-set_findings :
    (k : Text) (found fs : List AnalyzedFinding)
    → find (has_key k) (set_findings found fs) ≡ or_else (latest k fs) (find (has_key k) found)
unfolding set_findings
find-set_findings k found [] = refl
find-set_findings k found (f ∷ fs) =
    ground (arith, find-set_findings k (set_finding f found) fs, find-set_finding k f found)

pub set_findings-IsDistinctKeys :
    (found fs : List AnalyzedFinding)
    → IsDistinctKeys found
    → IsDistinctKeys (set_findings found fs)
unfolding set_findings
set_findings-IsDistinctKeys found [] h = h
set_findings-IsDistinctKeys found (f ∷ fs) h =
    set_findings-IsDistinctKeys (set_finding f found) fs (set_finding-IsDistinctKeys f found h)

set_findings-append :
    (found fs gs : List AnalyzedFinding)
    → set_findings (set_findings found fs) gs ≡ set_findings found (fs ++ gs)
unfolding set_findings
set_findings-append found [] gs = refl
set_findings-append found (f ∷ fs) gs = set_findings-append (set_finding f found) fs gs

pub collect_findings-reported :
    (found : List AnalyzedFinding) (os : List PassiveObservation)
    → collect_findings found os ≡ set_findings found (reported os)
unfolding collect_findings set_findings
collect_findings-reported found [] = refl
collect_findings-reported found (o ∷ os) =
    collect_findings-reported (set_findings found (analyze_observation o)) os
    ∙ set_findings-append found (analyze_observation o) (reported os)

module _ (le : AnalyzedFinding → AnalyzedFinding → Bool) where
  any-insert :
      (k : Text) (f : AnalyzedFinding) (fs : List AnalyzedFinding)
      → any (has_key k) (insert le f fs) ≡ (has_key k f || any (has_key k) fs)
  unfolding insert
  any-insert k f [] = refl
  any-insert k f (g ∷ gs) = ground (arith, any-insert k f gs)

  any-sort :
      (k : Text) (fs : List AnalyzedFinding) → any (has_key k) (sort le fs) ≡ any (has_key k) fs
  unfolding sort
  any-sort k [] = refl
  any-sort k (f ∷ fs) = ground (arith, any-sort k fs, any-insert k f (sort le fs))

  insert-IsDistinctKeys :
      (f : AnalyzedFinding) (fs : List AnalyzedFinding)
      → any (has_key f.source_key) fs ≡ false
      → IsDistinctKeys fs
      → IsDistinctKeys (insert le f fs)
  unfolding insert
  insert-IsDistinctKeys f [] new h = (refl, tt)
  insert-IsDistinctKeys f (g ∷ gs) new (fresh, h) = elim (Bool-cases (le f g)) [
    | inl first ↦ rw first (new, (fresh, h))
    | inr later ↦ rw later (
      any-insert g.source_key f gs ∙ ground (arith, text_eq_sym f.source_key g.source_key),
      insert-IsDistinctKeys f gs (ground arith) h,
    )
  ]

  pub sort-IsDistinctKeys :
      (fs : List AnalyzedFinding) → IsDistinctKeys fs → IsDistinctKeys (sort le fs)
  unfolding sort
  sort-IsDistinctKeys [] h = tt
  sort-IsDistinctKeys (f ∷ fs) (new, h) =
      insert-IsDistinctKeys f (sort le fs) (any-sort f.source_key fs ∙ new)
        (sort-IsDistinctKeys fs h)

  find-insert :
      (k : Text) (f : AnalyzedFinding) (fs : List AnalyzedFinding)
      → any (has_key f.source_key) fs ≡ false
      → find (has_key k) (insert le f fs) ≡ (if has_key k f then some f else find (has_key k) fs)
  unfolding insert find
  find-insert k f [] new = refl
  find-insert k f (g ∷ gs) new = ground (
    arith,
    find-insert k f gs,
    text_eq_iff f.source_key k,
    text_eq_iff g.source_key k,
    text_eq_iff g.source_key f.source_key,
  )

  pub find-sort :
      (k : Text) (fs : List AnalyzedFinding)
      → IsDistinctKeys fs
      → find (has_key k) (sort le fs) ≡ find (has_key k) fs
  unfolding sort find
  find-sort k [] h = refl
  find-sort k (f ∷ fs) (new, h) =
      find-insert k f (sort le fs) (any-sort f.source_key fs ∙ new)
      ∙ ap (λ o. if has_key k f then some f else o) (find-sort k fs h)
