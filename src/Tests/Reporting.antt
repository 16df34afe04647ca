-- ===== src/Tests/Reporting.antt =====
-- A report with a credential in its evidence.
use touchmyapi.Common.{
  ◌≡◌, refl, Bool, true, false, [], ◌∷◌, ◌++◌, none, some, Text, codes, not, is_empty, is_letter,
  is_digit,
}
use touchmyapi.Js.{Value}
use touchmyapi.Policy.Entitlement.{pro}
use touchmyapi.Contracts.Redacted.{contains_secret_key}
use touchmyapi.Reporting.Text.{redacted, safe_string}
use touchmyapi.Reporting.Text.Labels.{safe_string-labels}
use touchmyapi.Reporting.Sanitize.{sanitized_object}
use touchmyapi.Reporting.Sanitize.Data.{is_data, sanitized_object-returns}
use touchmyapi.Reporting.Sanitize.Clean.{contains_secret_key-sanitized_object}
use touchmyapi.Reporting.Report.{ReportSource, sanitize_report}
use touchmyapi.Contracts.Export.{Formats, is_strict, are_fields, is_field, has_key}
use touchmyapi.Reporting.Report.Public.{IsReport, sanitize_report-IsReport}
use touchmyapi.Reporting.Report.Returns.{IsSound, sanitize_report-returns}
use touchmyapi.Tests.Request.{text, number, object}

safe_string-labels_example :
    safe_string (codes "www" ++ b'.' ∷ (codes "example" ++ b'.' ∷ codes "com")) ≡ redacted
unfolding is_letter is_digit
safe_string-labels_example =
    safe_string-labels (codes "www") (codes "example") (codes "com") refl refl refl

abbrev evidence : Value
evidence = object (("status", number 200) ∷ ("accessToken", text "abc") ∷ [])

evidence-data : is_data [] evidence ≡ true
unfolding is_data
evidence-data = refl

sanitized_object-returns_example : (w : Value) × (sanitized_object evidence ≡ some w)
sanitized_object-returns_example = sanitized_object-returns evidence evidence-data

contains_secret_key-sanitized_object_example :
    contains_secret_key (sanitized_object-returns evidence evidence-data).0 ≡ false
contains_secret_key-sanitized_object_example =
    contains_secret_key-sanitized_object evidence
      (sanitized_object-returns evidence evidence-data).0
      (sanitized_object-returns evidence evidence-data).1

-- Formats that take any text but the empty one.
abbrev formats : Formats
formats = record { is_uuid = λ t. not (is_empty t); is_datetime = λ t. not (is_empty t) }

abbrev source : ReportSource
source = record {
  assessment_id = text "1";
  generated_at = text "2026-01-01T00:00:00Z";
  target = object (("host", text "example") ∷ []);
  inclusions = codes "example" ∷ [];
  exclusions = [];
  window =
      object (("start", text "2026-01-01T00:00:00Z") ∷ ("end", text "2026-01-02T00:00:00Z") ∷ []);
  playbook = object (("key", text "surface-public-posture") ∷ ("version", text "1.0.0") ∷ []);
  methodology = [];
  limitations = [];
  findings =
      record {
        id = codes "f";
        title = codes "a finding";
        category = codes "dns";
        severity = codes "low";
        evidence = some evidence;
        reproduction = none;
        impact = some (codes "little");
        remediation = none;
      }
      ∷ [];
  credits = object (("consumed", number 1) ∷ ("estimate", number 2) ∷ []);
}

abbrev any_order : Text → Text → Bool
any_order s t = true

source-IsSound : IsSound formats source
unfolding is_data is_strict are_fields is_field has_key
source-IsSound = record {
  assessment = refl;
  generated = refl;
  target = refl;
  window = refl;
  playbook = refl;
  findings = ((refl, refl), tt);
  credits = refl;
}

sanitize_report-returns_example :
    (r : ReportSource) × (sanitize_report any_order formats pro source ≡ some r)
sanitize_report-returns_example =
    sanitize_report-returns formats any_order pro source source-IsSound

abbrev made : (r : ReportSource) × (sanitize_report any_order formats pro source ≡ some r)
made = sanitize_report-returns formats any_order pro source source-IsSound

sanitize_report-IsReport_example : IsReport pro made.0
sanitize_report-IsReport_example =
    sanitize_report-IsReport any_order formats pro source made.0 made.1
