-- ===== src/Reporting/Report/Public.antt =====
-- packages/reporting/src/sanitize.ts: what a report shows under each plan.
use mathlib.Core.Path.{subst}
use touchmyapi.Common.{
  ◌≡◌, refl, sym, arith, Bool, true, false, List, [], ◌∷◌, Option, none, some, Text, All,
  Option-cases, inl, inr,
}
use touchmyapi.Common.Maybe.{◌>>=◌, >>=-eq-some}
use touchmyapi.Common.Sort.{sort}
use touchmyapi.Js.{Value}
use touchmyapi.Policy.Entitlement.{Plan, free_unverified, free_verified, pro, lifetime}
use touchmyapi.Contracts.Redacted.{contains_secret_key}
use touchmyapi.Contracts.Export.{Formats, is_strict, window_shape, playbook_shape, credits_shape}
use touchmyapi.Contracts.Export.Harmless.{window-clean, playbook-clean, credits-clean}
use touchmyapi.Reporting.Sanitize.{sanitized_object}
use touchmyapi.Reporting.Sanitize.Clean.{contains_secret_key-sanitized_object}
use touchmyapi.Reporting.Report.{
  ReportFinding, ReportSource, is_paid, each_given, base_finding, full_finding, sanitize_finding,
  sanitize_findings, by_id, report_findings, is_exported, parse_export, sanitize_report,
}

-- Nothing but the summary of a finding.
pub record IsSummary (f : ReportFinding) : Type 0 where
  pub no_evidence : f.evidence ≡ none
  pub no_reproduction : f.reproduction ≡ none
  pub no_impact : f.impact ≡ none
  pub no_remediation : f.remediation ≡ none

abbrev pub IsCleanEvidence : Option Value → Type 0
IsCleanEvidence none = Unit
IsCleanEvidence (some v) = contains_secret_key v ≡ false

-- A finding as a plan shows it.
abbrev pub IsShown : Bool → ReportFinding → Type 0
IsShown true f = IsCleanEvidence f.evidence
IsShown false f = IsSummary f

base-IsSummary : (f : ReportFinding) → IsSummary (base_finding f)
unfolding base_finding
base-IsSummary f = record {
  no_evidence = refl;
  no_reproduction = refl;
  no_impact = refl;
  no_remediation = refl;
}

evidence-clean :
    (f : ReportFinding) (e : Option Value) (g : ReportFinding)
    → (each_given sanitized_object e >>= λ evidence. some (full_finding f evidence)) ≡ some g
    → IsCleanEvidence g.evidence
unfolding full_finding
evidence-clean f none g h =
    let same : full_finding f none ≡ g = ground arith in
    subst (λ x. IsCleanEvidence x.evidence) same tt
evidence-clean f (some v) g h = elim (Option-cases (sanitized_object v)) [
  | inl bad ↦ ground arith
  | inr (w, e) ↦
      let same : full_finding f (some w) ≡ g = ground arith in
      subst (λ x. IsCleanEvidence x.evidence) same (contains_secret_key-sanitized_object v w e)
]

finding-IsShown :
    (paid : Bool) (f g : ReportFinding) → sanitize_finding paid f ≡ some g → IsShown paid g
unfolding sanitize_finding
finding-IsShown true f g h = evidence-clean f f.evidence g h
finding-IsShown false f g h =
    let same : base_finding f ≡ g = ground arith in subst IsSummary same (base-IsSummary f)

findings-All :
    (paid : Bool) (fs gs : List ReportFinding)
    → sanitize_findings paid fs ≡ some gs
    → All (IsShown paid) gs
unfolding sanitize_findings
findings-All paid [] gs h = let same : [] ≡ gs = ground arith in subst (All (IsShown paid)) same tt
findings-All paid (f ∷ fs) gs h =
    let (g, e, k) = >>=-eq-some (sanitize_finding paid f) _ h in
    let (more, e2, k2) = >>=-eq-some (sanitize_findings paid fs) _ k in
    let same : (g ∷ more) ≡ gs = ground arith in
    subst (All (IsShown paid)) same (finding-IsShown paid f g e, findings-All paid fs more e2)

-- A report as a plan shows it.
pub record IsReport (plan : Plan) (r : ReportSource) : Type 0 where
  pub shown : All (IsShown (is_paid plan)) r.findings
  pub aggregate : plan ≡ free_unverified → r.findings ≡ []
  pub target_clean : contains_secret_key r.target ≡ false
  pub window_clean : contains_secret_key r.window ≡ false
  pub playbook_clean : contains_secret_key r.playbook ≡ false
  pub credits_clean : contains_secret_key r.credits ≡ false

-- What passes the schema keeps what its parts are made of.
module _ (formats : Formats) where
  parse_export-eq :
      (r s : ReportSource)
      → parse_export formats r ≡ some s
      → (r ≡ s)
        × (is_strict (window_shape formats) r.window ≡ true)
        × (is_strict playbook_shape r.playbook ≡ true)
        × (is_strict credits_shape r.credits ≡ true)
  unfolding parse_export is_exported
  parse_export-eq r s h = ground arith

module _ (collate : Text → Text → Bool) where
  report_findings-All :
      (plan : Plan) (fs gs : List ReportFinding)
      → report_findings collate plan fs ≡ some gs
      → All (IsShown (is_paid plan)) gs × (plan ≡ free_unverified → gs ≡ [])
  unfolding report_findings
  report_findings-All free_unverified fs gs h =
      let same : [] ≡ gs = ground arith in (subst (All (IsShown false)) same tt, λ e. sym same)
  report_findings-All free_verified fs gs h =
      (findings-All false (sort (by_id collate) fs) gs h, λ e. cc)
  report_findings-All pro fs gs h = (findings-All true (sort (by_id collate) fs) gs h, λ e. cc)
  report_findings-All lifetime fs gs h = (findings-All true (sort (by_id collate) fs) gs h, λ e. cc)

  -- Whatever the source is, a report that is made shows no more than the summaries of the findings
  -- unless the plan is paid, and no finding at all to an unverified free plan; and neither its target,
  -- its window, its playbook, its credits nor any evidence has a key, at any depth, that names a
  -- secret.
  pub sanitize_report-IsReport :
      (formats : Formats) (plan : Plan) (source r : ReportSource)
      → sanitize_report collate formats plan source ≡ some r
      → IsReport plan r
  unfolding sanitize_report
  sanitize_report-IsReport formats plan source r h =
      let (gs, e, k) = >>=-eq-some (report_findings collate plan source.findings) _ h in
      let (t, e2, k2) = >>=-eq-some (sanitized_object source.target) _ k in
      let (all_shown, none_shown) = report_findings-All plan source.findings gs e in
      let (same, window, playbook, credits) = parse_export-eq formats _ r k2 in
      subst (IsReport plan) same (record {
        shown = all_shown;
        aggregate = none_shown;
        target_clean = contains_secret_key-sanitized_object source.target t e2;
        window_clean = window-clean formats source.window window;
        playbook_clean = playbook-clean source.playbook playbook;
        credits_clean = credits-clean source.credits credits;
      })
