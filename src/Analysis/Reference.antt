-- ===== src/Analysis/Reference.antt =====
-- packages/analysis/src/index.ts: the whole analysis against its reference.
use mathlib.Core.Path.{subst}
use touchmyapi.Common.{
  ◌≡◌, ◌↔◌, refl, sym, ap, ◌∙◌, Bool, true, false, List, [], ◌∷◌, Option, none, some, Result, ok,
  err, Text, All, Elem, Elem-All, here, there, Bool-cases, inl, inr, length, ltb,
}
use touchmyapi.Common.Sort.{find, IsSorted, IsConsistent, sort-IsSorted}
use touchmyapi.Js.{Value}
use touchmyapi.Contracts.Observation.{
  PassiveObservation, ActionId, dns_records, tls_cert, http_headers, robots_txt, sitemap_xml,
  endpoint_minimal, all_actions,
}
use touchmyapi.Analysis.Findings.{
  AnalyzedFinding, PassiveAnalysis, AnalysisError, limit_exceeded, invalid_observation,
  collect_findings, was_observed, untested, parse_all, by_key, analysis_of,
  analyze_passive_observations,
}
use touchmyapi.Analysis.Keys.{
  has_key, or_else, reported, latest, IsDistinctKeys, set_findings-IsDistinctKeys,
  find-set_findings, collect_findings-reported, sort-IsDistinctKeys, find-sort,
}

untested-All :
    (as' : List ActionId) (os : List PassiveObservation)
    → All (λ a. was_observed a os ≡ false) (untested as' os)
unfolding untested
untested-All [] os = tt
untested-All (b ∷ bs) os = elim (Bool-cases (was_observed b os)) [
  | inl seen ↦ rw seen (untested-All bs os)
  | inr unseen ↦ rw unseen (unseen, untested-All bs os)
]

Elem-untested :
    (a : ActionId) (as' : List ActionId) (os : List PassiveObservation)
    → Elem a as'
    → was_observed a os ≡ false
    → Elem a (untested as' os)
unfolding untested
Elem-untested a [] os m h = elim m [ ]
Elem-untested a (b ∷ bs) os (here e) h =
    let unseen : was_observed b os ≡ false = rw (← e) h in rw unseen (here e)
Elem-untested a (b ∷ bs) os (there m) h = elim (Bool-cases (was_observed b os)) [
  | inl seen ↦ rw seen (Elem-untested a bs os m h)
  | inr unseen ↦ rw unseen (there (Elem-untested a bs os m h))
]

all_actions-Elem : (a : ActionId) → Elem a all_actions
all_actions-Elem dns_records = here refl
all_actions-Elem tls_cert = there (here refl)
all_actions-Elem http_headers = there (there (here refl))
all_actions-Elem robots_txt = there (there (there (here refl)))
all_actions-Elem sitemap_xml = there (there (there (there (here refl))))
all_actions-Elem endpoint_minimal = there (there (there (there (there (here refl)))))

module _ (parse : Value → Option PassiveObservation) (collate : Text → Text → Bool) where
  -- The analysis of observations: at each key the last finding that they report, sorted, and the
  -- actions of the catalog that none of them is of.
  pub record IsAnalysis (os : List PassiveObservation) (a : PassiveAnalysis) : Type 0 where
    pub distinct : IsDistinctKeys a.findings
    pub sorted : IsSorted (by_key parse collate) a.findings
    pub latest_are : (k : Text) → find (has_key k) a.findings ≡ latest k (reported os)
    pub untested_are :
        (action : ActionId) → Elem action a.untested_actions ↔ (was_observed action os ≡ false)

  by_key-IsConsistent : IsConsistent collate → IsConsistent (by_key parse collate)
  by_key-IsConsistent c = record {
    total = λ x y. c.total x.source_key y.source_key;
    transitive = λ x y z. c.transitive x.source_key y.source_key z.source_key;
  }

  analysis_of-IsAnalysis :
      IsConsistent collate
      → (os : List PassiveObservation) → IsAnalysis os (analysis_of parse collate os)
  unfolding analysis_of find
  analysis_of-IsAnalysis c os =
      let same = collect_findings-reported [] os in
      let distinct : IsDistinctKeys (collect_findings [] os) =
        subst IsDistinctKeys (sym same) (set_findings-IsDistinctKeys [] (reported os) tt) in
      record {
        distinct = sort-IsDistinctKeys (by_key parse collate) (collect_findings [] os) distinct;
        sorted =
            sort-IsSorted (by_key parse collate) (by_key-IsConsistent c) (collect_findings [] os);
        latest_are = λ k.
            find-sort (by_key parse collate) k (collect_findings [] os) distinct
            ∙ ap (find (has_key k)) same
            ∙ find-set_findings k [] (reported os)
            ∙ or_else_none (latest k (reported os));
        untested_are = λ a. (
          Elem-All _ (untested all_actions os) (untested-All all_actions os),
          Elem-untested a all_actions os (all_actions-Elem a),
        );
      }
    where
      or_else_none : (o : Option AnalyzedFinding) → or_else o none ≡ o
      or_else_none none = refl
      or_else_none (some f) = refl

  -- What a result says of the input.
  abbrev pub Judged : List Value → Result AnalysisError PassiveAnalysis → Type 0
  Judged input (err limit_exceeded) = ltb 32 (length input) ≡ true
  Judged input (err invalid_observation) =
      (ltb 32 (length input) ≡ false) × (parse_all parse input ≡ none)
  Judged input (ok a) =
      (ltb 32 (length input) ≡ false)
      × ((os : List PassiveObservation) × (parse_all parse input ≡ some os) × IsAnalysis os a)

  parsed-Judged :
      IsConsistent collate
      → (input : List Value) → ltb 32 (length input) ≡ false
      → (o : Option (List PassiveObservation)) → parse_all parse input ≡ o
      → Judged input
          (elim o [ none ↦ err invalid_observation | some os ↦ ok (analysis_of parse collate os) ])
  parsed-Judged c input few none read = (few, read)
  parsed-Judged c input few (some os) read = (few, (os, read, analysis_of-IsAnalysis c os))

  -- Where the collation is consistent: more than 32 inputs exceed the limit, and up to 32 of which the
  -- schema refuses one are invalid. All others make an analysis: it holds exactly one finding for each
  -- key that any observation reports, the last one reported, sorted by key; and it lists exactly the
  -- actions that no observation is of.
  pub analyze_passive_observations-Judged :
      IsConsistent collate
      → (input : List Value) → Judged input (analyze_passive_observations parse collate input)
  unfolding analyze_passive_observations
  analyze_passive_observations-Judged c input = elim (Bool-cases (ltb 32 (length input))) [
    | inl many ↦ rw many many
    | inr few ↦ rw few (parsed-Judged c input few (parse_all parse input) refl)
  ]
