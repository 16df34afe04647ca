-- ===== src/Reporting/Report.antt =====
-- packages/reporting/src/sanitize.ts: sanitizeReport, with the schema of the export,
-- packages/contracts/src/export.ts, through which the report goes in the end. The parts that the code
-- passes on unread are values, which the schema judges; texts and lists are typed, as in the source.
pub mod Public
pub mod Returns
use touchmyapi.Common.{
  ℕ, Bool, true, false, List, [], ◌∷◌, Option, none, some, Text, map, all, ◌&&◌, if◌then◌else◌,
  ◌||◌,
}
use touchmyapi.Common.Maybe.{◌>>=◌, ◌>>◌, check}
use touchmyapi.Common.Sort.{sort}
use touchmyapi.Js.{Value}
use touchmyapi.Policy.Entitlement.{Plan, free_unverified, free_verified, pro, lifetime}
use touchmyapi.Contracts.Export.{
  Formats, is_text_of, is_strict, is_redacted_object, window_shape, playbook_shape, credits_shape,
}
use touchmyapi.Reporting.Text.{safe_string}
use touchmyapi.Reporting.Sanitize.{sanitized_object}

pub record ReportFinding : Type 0 where
  pub id : Text
  pub title : Text
  pub category : Text
  pub severity : Text
  pub evidence : Option Value
  pub reproduction : Option (List Text)
  pub impact : Option Text
  pub remediation : Option Text

pub record ReportSource : Type 0 where
  pub assessment_id : Value
  pub generated_at : Value
  pub target : Value
  pub inclusions : List Text
  pub exclusions : List Text
  pub window : Value
  pub playbook : Value
  pub methodology : List Text
  pub limitations : List Text
  pub findings : List ReportFinding
  pub credits : Value

abbrev pub is_paid : Plan → Bool
is_paid pro = true
is_paid lifetime = true
is_paid _ = false

abbrev pub safe_texts : List Text → List Text
safe_texts ts = map safe_string ts

abbrev pub map_given : {A B : Type 0} → (A → B) → Option A → Option B
map_given f none = none
map_given f (some a) = some (f a)

-- An optional field; `none` outside is an exception.
abbrev pub each_given : {A B : Type 0} → (A → Option B) → Option A → Option (Option B)
each_given f none = some none
each_given f (some a) = do b ← f a; some (some b)

-- `base`, and what a paid plan adds to it.
unfoldable pub base_finding : ReportFinding → ReportFinding
base_finding f = record {
  id = f.id;
  title = safe_string f.title;
  category = safe_string f.category;
  severity = safe_string f.severity;
  evidence = none;
  reproduction = none;
  impact = none;
  remediation = none;
}

unfoldable pub full_finding : ReportFinding → Option Value → ReportFinding
full_finding f evidence = record (base_finding f) {
  evidence = evidence;
  reproduction = map_given safe_texts f.reproduction;
  impact = map_given safe_string f.impact;
  remediation = map_given safe_string f.remediation;
}

unfoldable pub sanitize_finding : Bool → ReportFinding → Option ReportFinding
sanitize_finding false f = some (base_finding f)
sanitize_finding true f = do
  evidence ← each_given sanitized_object f.evidence
  some (full_finding f evidence)

unfoldable pub sanitize_findings : Bool → List ReportFinding → Option (List ReportFinding)
sanitize_findings paid [] = some []
sanitize_findings paid (f ∷ fs) = do
  g ← sanitize_finding paid f
  gs ← sanitize_findings paid fs
  some (g ∷ gs)

-- The schema of the export; a missing field of a finding passes.
abbrev pub all_given : {A : Type 0} → (A → Bool) → Option A → Bool
all_given p none = true
all_given p (some a) = p a

unfoldable pub is_exported_finding : Formats → ReportFinding → Bool
is_exported_finding formats f = formats.is_uuid f.id && all_given is_redacted_object f.evidence

unfoldable pub is_exported : Formats → ReportSource → Bool
is_exported formats r =
    is_text_of formats.is_uuid r.assessment_id
    && is_text_of formats.is_datetime r.generated_at
    && is_redacted_object r.target
    && is_strict (window_shape formats) r.window
    && is_strict playbook_shape r.playbook
    && all (is_exported_finding formats) r.findings
    && is_strict credits_shape r.credits

-- `reportExportSchema.parse`
unfoldable pub parse_export : Formats → ReportSource → Option ReportSource
parse_export formats r = do check (is_exported formats r); some r

-- `collate s t` is `s.localeCompare(t) <= 0`.
module _ (collate : Text → Text → Bool) where
  abbrev pub by_id : ReportFinding → ReportFinding → Bool
  by_id f g = collate f.id g.id

  unfoldable pub report_findings : Plan → List ReportFinding → Option (List ReportFinding)
  report_findings free_unverified fs = some []
  report_findings plan fs = sanitize_findings (is_paid plan) (sort by_id fs)

  abbrev pub made_report : ReportSource → List ReportFinding → Value → ReportSource
  made_report source findings target = record source {
    target = target;
    inclusions = safe_texts source.inclusions;
    exclusions = safe_texts source.exclusions;
    methodology = safe_texts source.methodology;
    limitations = safe_texts source.limitations;
    findings = findings;
  }

  -- The findings are made before the target; `none` is an exception.
  unfoldable pub sanitize_report : Formats → Plan → ReportSource → Option ReportSource
  sanitize_report formats plan source = do
    findings ← report_findings plan source.findings
    target ← sanitized_object source.target
    parse_export formats (made_report source findings target)
