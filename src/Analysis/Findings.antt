-- ===== src/Analysis/Findings.antt =====
-- packages/analysis/src/index.ts: the facts of an observation and the findings that they make.
use touchmyapi.Common.{
  ℕ, Bool, true, false, List, [], ◌∷◌, ◌++◌, String, Option, none, some, Result, ok, err, Text,
  codes, text_eq, any, ltb, length, is_control, ◌||◌, if◌then◌else◌,
}
use touchmyapi.Common.Maybe.{◌>>=◌}
use touchmyapi.Common.Sort.{sort}
use touchmyapi.Js.{Value, Number, Snapshot, field, bool, num, str, nat, fraction}
use touchmyapi.Contracts.Observation.{
  PassiveObservation, ActionId, ObservationKind, dns_records, tls_cert, http_headers, dns_kind,
  certificate_kind, headers_kind, all_actions, action_name,
}

pub data Severity : Type 0 where
  info low : Severity

pub data Conclusion : Type 0 where
  fact inference : Conclusion

-- The evidence is the time of the observation and the one fact that the finding rests on.
pub record AnalyzedFinding : Type 0 where
  pub source_key : Text
  pub title : Text
  pub category : Text
  pub severity : Severity
  pub endpoint : Option Text
  pub observed_at : Text
  pub evidence : String × Value
  pub reproduction : List Text
  pub impact : Text
  pub remediation : Text
  pub conclusion : Conclusion

unfoldable pub boolean_fact : Snapshot → String → Option Bool
boolean_fact facts key = elim (field facts key) [ bool b ↦ some b | _ ↦ none ]

-- `booleanFact(data, key) === false`
unfoldable pub is_false : Snapshot → String → Bool
is_false facts key = elim (boolean_fact facts key) [ some false ↦ true | _ ↦ false ]

-- `Math.floor(n)` where `n` is at least 0 and below 30.
unfoldable pub floor_below_30 : Number → Option ℕ
floor_below_30 (nat n) = if ltb n 30 then some n else none
floor_below_30 (fraction n) = if ltb n 30 then some n else none
floor_below_30 _ = none

unfoldable pub days_left : Snapshot → Option ℕ
days_left facts = elim (field facts "daysRemaining") [ num n ↦ floor_below_30 n | _ ↦ none ]

unfoldable pub endpoint_fact : Snapshot → Option Text
endpoint_fact facts = elim (field facts "endpoint") [
  | str t ↦ if ltb 2048 (length t) || any is_control t then none else some t
  | _ ↦ none
]

unfoldable pub csp_missing : PassiveObservation → AnalyzedFinding
csp_missing o = record {
  source_key = codes "http.headers:csp_missing";
  title = codes "Content Security Policy was not observed";
  category = codes "headers";
  severity = low;
  endpoint = endpoint_fact o.facts;
  observed_at = o.observed_at;
  evidence = ("contentSecurityPolicy", bool false);
  reproduction = [];
  impact = codes "Browser-side injection defenses have less depth when a content policy is absent.";
  remediation =
      codes
        "Deploy a restrictive Content-Security-Policy and validate it against application behavior.";
  conclusion = fact;
}

unfoldable pub hsts_missing : PassiveObservation → AnalyzedFinding
hsts_missing o = record {
  source_key = codes "http.headers:hsts_missing";
  title = codes "HTTP Strict Transport Security was not observed";
  category = codes "transport";
  severity = low;
  endpoint = endpoint_fact o.facts;
  observed_at = o.observed_at;
  evidence = ("strictTransportSecurity", bool false);
  reproduction = [];
  impact = codes "First visits can have weaker downgrade resistance without an HSTS policy.";
  remediation =
      codes
        "Enable Strict-Transport-Security after confirming HTTPS coverage for the intended hosts.";
  conclusion = fact;
}

unfoldable pub certificate_invalid : PassiveObservation → AnalyzedFinding
certificate_invalid o = record {
  source_key = codes "tls.cert:invalid";
  title = codes "The observed TLS certificate was not valid";
  category = codes "transport";
  severity = low;
  endpoint = endpoint_fact o.facts;
  observed_at = o.observed_at;
  evidence = ("valid", bool false);
  reproduction = [];
  impact = codes "Clients may reject or distrust the encrypted connection.";
  remediation =
      codes "Replace or repair the certificate chain and verify hostname and validity dates.";
  conclusion = fact;
}

unfoldable pub expires_soon : PassiveObservation → ℕ → AnalyzedFinding
expires_soon o days = record {
  source_key = codes "tls.cert:expires_soon";
  title = codes "The observed TLS certificate expires soon";
  category = codes "transport";
  severity = low;
  endpoint = endpoint_fact o.facts;
  observed_at = o.observed_at;
  evidence = ("daysRemaining", num (nat days));
  reproduction = [];
  impact = codes "An unrenewed certificate can interrupt trusted HTTPS service.";
  remediation = codes "Renew the certificate and confirm automated renewal before expiration.";
  conclusion = fact;
}

unfoldable pub caa_missing : PassiveObservation → AnalyzedFinding
caa_missing o = record {
  source_key = codes "dns.records:caa_missing";
  title = codes "No CAA restriction was observed";
  category = codes "dns";
  severity = info;
  endpoint = endpoint_fact o.facts;
  observed_at = o.observed_at;
  evidence = ("hasCaa", bool false);
  reproduction = [];
  impact = codes "Certificate issuance is not restricted by a published CAA policy.";
  remediation =
      codes
        "Consider publishing CAA records for the certificate authorities used by the organization.";
  conclusion = inference;
}

abbrev pub push_if : Bool → AnalyzedFinding → List AnalyzedFinding
push_if true f = f ∷ []
push_if false f = []

abbrev pub expiry_finding : PassiveObservation → Option ℕ → List AnalyzedFinding
expiry_finding o none = []
expiry_finding o (some days) = expires_soon o days ∷ []

-- `analyzeObservation`; an action that is observed as another kind makes no finding.
unfoldable pub findings_of : ActionId → ObservationKind → PassiveObservation → List AnalyzedFinding
findings_of http_headers headers_kind o =
    push_if (is_false o.facts "contentSecurityPolicy") (csp_missing o)
    ++ push_if (is_false o.facts "strictTransportSecurity") (hsts_missing o)
findings_of tls_cert certificate_kind o =
    push_if (is_false o.facts "valid") (certificate_invalid o)
    ++ expiry_finding o (days_left o.facts)
findings_of dns_records dns_kind o = push_if (is_false o.facts "hasCaa") (caa_missing o)
findings_of _ _ o = []

unfoldable pub analyze_observation : PassiveObservation → List AnalyzedFinding
analyze_observation o = findings_of o.action_id o.kind o

-- `bySourceKey.set(f.sourceKey, f)`: a key that is there keeps its place.
unfoldable pub set_finding : AnalyzedFinding → List AnalyzedFinding → List AnalyzedFinding
set_finding f [] = f ∷ []
set_finding f (g ∷ gs) =
    let later = set_finding f gs in if text_eq g.source_key f.source_key then f ∷ gs else g ∷ later

unfoldable pub set_findings : List AnalyzedFinding → List AnalyzedFinding → List AnalyzedFinding
set_findings found [] = found
set_findings found (f ∷ fs) = set_findings (set_finding f found) fs

-- The two nested loops of `analyzePassiveObservations`.
unfoldable pub collect_findings :
    List AnalyzedFinding → List PassiveObservation → List AnalyzedFinding
collect_findings found [] = found
collect_findings found (o ∷ os) = collect_findings (set_findings found (analyze_observation o)) os

pub record PassiveAnalysis : Type 0 where
  pub findings : List AnalyzedFinding
  pub limitations : List Text
  pub untested_actions : List ActionId

abbrev pub passive_limitations : List Text
passive_limitations =
    codes "Only the published passive public-posture actions were considered."
    ∷ codes "No authenticated or state-changing behavior was tested."
    ∷ codes "Absence of an observation is not evidence that a control is absent."
    ∷ []

pub data AnalysisError : Type 0 where
  limit_exceeded invalid_observation : AnalysisError

-- `observedActions.has(action)`
unfoldable pub was_observed : ActionId → List PassiveObservation → Bool
was_observed a os = any (λ o. text_eq (action_name o.action_id) (action_name a)) os

unfoldable pub untested : List ActionId → List PassiveObservation → List ActionId
untested [] os = []
untested (a ∷ as') os = let rest = untested as' os in if was_observed a os then rest else a ∷ rest

-- `input.map((item) => schema.parse(item))`
unfoldable pub parse_all :
    (Value → Option PassiveObservation) → List Value → Option (List PassiveObservation)
parse_all parse [] = some []
parse_all parse (v ∷ vs) = do o ← parse v; os ← parse_all parse vs; some (o ∷ os)

-- `parse` is the schema, and `collate s t` is `s.localeCompare(t) <= 0`.
module _ (parse : Value → Option PassiveObservation) (collate : Text → Text → Bool) where
  abbrev pub by_key : AnalyzedFinding → AnalyzedFinding → Bool
  by_key a b = collate a.source_key b.source_key

  unfoldable pub analysis_of : List PassiveObservation → PassiveAnalysis
  analysis_of os = record {
    findings = sort by_key (collect_findings [] os);
    limitations = passive_limitations;
    untested_actions = untested all_actions os;
  }

  unfoldable pub analyze_passive_observations : List Value → Result AnalysisError PassiveAnalysis
  analyze_passive_observations input =
      if ltb 32 (length input) then err limit_exceeded else elim (parse_all parse input) [
        | none ↦ err invalid_observation
        | some os ↦ ok (analysis_of os)
      ]
