-- ===== src/Reporting/Report/Returns.antt =====
-- packages/reporting/src/sanitize.ts: which sources a report is made of without an exception.
use touchmyapi.Common.{
  ◌≡◌, refl, arith, Bool, true, false, List, [], ◌∷◌, Option, none, some, Text, All, all,
}
use touchmyapi.Common.Maybe.{◌>>=◌, ◌>>◌, check}
use touchmyapi.Common.Sort.{All-sort}
use touchmyapi.Js.{Value, Props, Proto}
use touchmyapi.Policy.Entitlement.{Plan, free_unverified, free_verified, pro, lifetime}
use touchmyapi.Contracts.Export.{
  Formats, is_text_of, is_strict, is_redacted_object, window_shape, playbook_shape, credits_shape,
}
use touchmyapi.Contracts.Export.Harmless.{clean-is_redacted_object}
use touchmyapi.Reporting.Sanitize.{sanitize_value, sanitize_props, sanitized_object}
use touchmyapi.Reporting.Sanitize.Clean.{contains_secret_key-sanitized_object}
use touchmyapi.Reporting.Sanitize.Data.{is_data, sanitized_object-returns}
use touchmyapi.Reporting.Report.{
  ReportFinding, ReportSource, all_given, each_given, base_finding, full_finding, sanitize_finding,
  sanitize_findings, by_id, report_findings, is_exported_finding, is_exported, parse_export,
  made_report, sanitize_report,
}

abbrev pub IsDataEvidence : Option Value → Type 0
IsDataEvidence none = Unit
IsDataEvidence (some v) = is_data [] v ≡ true

module _ (formats : Formats) where
  -- A finding with an identifier that the schema takes, and with data as its evidence.
  abbrev pub IsFinding : ReportFinding → Type 0
  IsFinding f = (formats.is_uuid f.id ≡ true) × IsDataEvidence f.evidence

  -- A source whose identifiers, times, window, playbook and credits have the form that the schema
  -- wants, and whose target and evidence are JSON data with finite numbers.
  pub record IsSound (source : ReportSource) : Type 0 where
    pub assessment : is_text_of formats.is_uuid source.assessment_id ≡ true
    pub generated : is_text_of formats.is_datetime source.generated_at ≡ true
    pub target : is_data [] source.target ≡ true
    pub window : is_strict (window_shape formats) source.window ≡ true
    pub playbook : is_strict playbook_shape source.playbook ≡ true
    pub findings : All IsFinding source.findings
    pub credits : is_strict credits_shape source.credits ≡ true

  copied-object :
      (free : Bool) (rest : Option Props) (w : Value)
      → (check free >> (rest >>= λ qs. some (Value.obj 0 Proto.object_proto qs))) ≡ some w
      → (qs : Props) × (w ≡ Value.obj 0 Proto.object_proto qs)
  copied-object false rest w h = cc
  copied-object true none w h = cc
  copied-object true (some qs) w h = (qs, ground arith)

  sanitized-object :
      (v w : Value)
      → sanitized_object v ≡ some w
      → (qs : Props) × (w ≡ Value.obj 0 Proto.object_proto qs)
  unfolding sanitized_object sanitize_value
  sanitized-object (Value.obj id proto ps) w h =
      copied-object true (sanitize_props true (id ∷ []) ps) w h
  sanitized-object (Value.arr id len ps) w h = (Props.end, ground arith)
  sanitized-object (Value.num n) w h = (Props.end, ground arith)
  sanitized-object (Value.bool b) w h = (Props.end, ground arith)
  sanitized-object (Value.str t) w h = (Props.end, ground arith)
  sanitized-object Value.null w h = (Props.end, ground arith)
  sanitized-object Value.undefined w h = (Props.end, ground arith)
  sanitized-object Value.unnamed w h = (Props.end, ground arith)
  sanitized-object Value.func w h = (Props.end, ground arith)
  sanitized-object Value.hostile w h = (Props.end, ground arith)

  -- What the sanitizer makes of JSON data passes the schema of redacted metadata.
  sanitized-redacted :
      (v : Value)
      → is_data [] v ≡ true
      → (w : Value) × (sanitized_object v ≡ some w) × (is_redacted_object w ≡ true)
  sanitized-redacted v d =
      let (w, e) = sanitized_object-returns v d in
      let (qs, same) = sanitized-object v w e in
      let clean = contains_secret_key-sanitized_object v w e in
      (w, e, rw same (clean-is_redacted_object 0 Proto.object_proto qs (rw same at clean)))

  evidence-redacted :
      (o : Option Value)
      → IsDataEvidence o
      → (x : Option Value) × (each_given sanitized_object o ≡ some x)
        × (all_given is_redacted_object x ≡ true)
  evidence-redacted none d = (none, refl, refl)
  evidence-redacted (some v) d = let (w, e, r) = sanitized-redacted v d in (some w, rw e refl, r)

  finding-exported :
      (paid : Bool) (f : ReportFinding)
      → IsFinding f
      → (g : ReportFinding) × (sanitize_finding paid f ≡ some g)
        × (is_exported_finding formats g ≡ true)
  unfolding sanitize_finding is_exported_finding base_finding full_finding
  finding-exported false f (id, d) = (base_finding f, refl, rw id refl)
  finding-exported true f (id, d) =
      let (x, e, r) = evidence-redacted f.evidence d in
      (full_finding f x, rw e refl, rw (id, r) refl)

  findings-exported :
      (paid : Bool) (fs : List ReportFinding)
      → All IsFinding fs
      → (gs : List ReportFinding) × (sanitize_findings paid fs ≡ some gs)
        × (all (is_exported_finding formats) gs ≡ true)
  unfolding sanitize_findings
  findings-exported paid [] h = ([], refl, refl)
  findings-exported paid (f ∷ fs) (d, h) =
      let (g, e, r) = finding-exported paid f d in
      let (gs, e2, r2) = findings-exported paid fs h in (g ∷ gs, rw (e, e2) refl, rw (r, r2) refl)

  module _ (collate : Text → Text → Bool) where
    report_findings-exported :
        (plan : Plan) (fs : List ReportFinding)
        → All IsFinding fs
        → (gs : List ReportFinding) × (report_findings collate plan fs ≡ some gs)
          × (all (is_exported_finding formats) gs ≡ true)
    unfolding report_findings
    report_findings-exported free_unverified fs h = ([], refl, refl)
    report_findings-exported free_verified fs h =
        findings-exported false _ (All-sort (by_id collate) IsFinding fs h)
    report_findings-exported pro fs h =
        findings-exported true _ (All-sort (by_id collate) IsFinding fs h)
    report_findings-exported lifetime fs h =
        findings-exported true _ (All-sort (by_id collate) IsFinding fs h)

    -- A report is made, under every plan, of a source whose identifiers, times, window, playbook and
    -- credits have the form that the schema wants, and whose target and evidence are JSON data with
    -- finite numbers.
    pub sanitize_report-returns :
        (plan : Plan) (source : ReportSource)
        → IsSound source
        → (r : ReportSource) × (sanitize_report collate formats plan source ≡ some r)
    unfolding sanitize_report parse_export is_exported
    sanitize_report-returns plan source h =
        let (gs, e, all_pass) = report_findings-exported plan source.findings h.findings in
        let (t, e2, redacted) = sanitized-redacted source.target h.target in
        (
          made_report collate source gs t,
          rw (e, e2, h.assessment, h.generated, redacted, h.window, h.playbook, all_pass, h.credits)
              refl,
        )
