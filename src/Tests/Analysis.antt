-- ===== src/Tests/Analysis.antt =====
-- The analysis of one observation.
use touchmyapi.Common.{refl, Bool, true, false, [], ◌∷◌, Text, Option}
use touchmyapi.Common.Sort.{IsConsistent}
use touchmyapi.Js.{Value, bool}
use touchmyapi.Contracts.Observation.{PassiveObservation, parse_observation}
use touchmyapi.Analysis.Findings.{analyze_passive_observations}
use touchmyapi.Analysis.Reference.{Judged, analyze_passive_observations-Judged}
use touchmyapi.Tests.Request.{text, object}

abbrev headers : Value
headers = object (
    ("actionId", text "http.headers")
    ∷ ("kind", text "http_headers")
    ∷ ("observedAt", text "2026-01-01T00:00:00Z")
    ∷ ("data", object (("contentSecurityPolicy", bool false) ∷ []))
    ∷ [])

abbrev read : Value → Option PassiveObservation
read = parse_observation (λ t. true) (λ v. 30)

abbrev any_order : Text → Text → Bool
any_order s t = true

any_order-IsConsistent : IsConsistent any_order
any_order-IsConsistent = record { total = λ x y h. refl; transitive = λ x y z h k. refl }

analyze_passive_observations-Judged_example :
    Judged read any_order
      (headers ∷ [])
      (analyze_passive_observations read any_order (headers ∷ []))
analyze_passive_observations-Judged_example =
    analyze_passive_observations-Judged read any_order any_order-IsConsistent (headers ∷ [])
