-- ===== src/Tests/Request.antt =====
-- A request for a passive assessment of one address, that the policy allows.
use touchmyapi.Common.{
  ℕ, suc, true, false, List, [], ◌∷◌, String, none, some, Text, codes, text_eq, replicate, ◌++◌,
  if◌then◌else◌,
}
use touchmyapi.Js.{
  Value, Props, name, index, plain, prop, end, obj, arr, str, num, nat, bool, null, object_proto,
}
use touchmyapi.Policy.Host.{Url, http}
use touchmyapi.Policy.Rule.{CompiledScope}
use touchmyapi.Policy.Engine.Facts.{Platform, Registry, PolicyContext}
use touchmyapi.Policy.Engine.Context.{context_value}

abbrev pub fields : List (String × Value) → Props
fields [] = end
fields ((k, v) ∷ rest) = prop (name k) (plain v) (fields rest)

abbrev pub object : List (String × Value) → Value
object ps = obj 0 object_proto (fields ps)

abbrev elements : ℕ → List Value → Props
elements i [] = end
elements i (v ∷ vs) = prop (index i) (plain v) (elements (suc i) vs)

abbrev count : List Value → ℕ
count [] = 0
count (v ∷ vs) = suc (count vs)

abbrev pub array : List Value → Value
array vs = arr 0 (count vs) (elements 0 vs)

abbrev pub text : String → Value
text s = str (codes s)

abbrev pub number : ℕ → Value
number n = num (nat n)

abbrev pub site : Text
site = codes "http://93.184.216.34/"

abbrev pub site_url : Url
site_url = record {
  protocol = http;
  username = [];
  password = [];
  hostname = codes "93.184.216.34";
  port = none;
  pathname = codes "/";
  search = [];
}

abbrev pub stamp : Text
stamp = codes "2026-01-01T00:00:00Z"

-- The parser knows one URL, the clock one instant, and every hash is zero.
abbrev pub platform : Platform
platform = record {
  parse_url = λ t. if text_eq t site then some site_url else none;
  parse_date = λ t. some 1000;
  sha256_hex = λ t. replicate 64 b'0';
}

abbrev pub uuid : Text
uuid = codes "00000000-0000-4000-8000-000000000001"

abbrev pub scope : CompiledScope
scope = record {
  inclusions =
      record {
        host = codes "93.184.216.34";
        port = none;
        path_prefix = codes "/";
        wildcard = false;
      }
      ∷ [];
  exclusions = [];
}

abbrev pub registry : Registry
registry = record { contexts = 1 ∷ []; entitlements = (2, uuid) ∷ []; scopes = (3, scope) ∷ [] }

abbrev pub fingerprint : Text
fingerprint = codes "sha256:" ++ replicate 64 b'0'

abbrev pub context : PolicyContext
context = record {
  account_id = uuid;
  assessment_id = uuid;
  user_id = uuid;
  evaluated_at = record { text = stamp; time = 1000 };
  scope_fingerprint = fingerprint;
}

abbrev pub entitlement : Value
entitlement = obj 2 object_proto (
    fields (
      ("plan", text "free_unverified")
      ∷ ("source", text "baseline")
      ∷ ("sourceId", null)
      ∷ ("grantedAt", str stamp)
      ∷ ("expiresAt", null)
      ∷ []))

abbrev pub scope_value : Value
scope_value = obj 3 object_proto (fields (("inclusions", array []) ∷ ("exclusions", array []) ∷ []))

abbrev pub target : Value
target =
    object (("candidate", str site) ∷ ("resolvedAddresses", array (text "93.184.216.34" ∷ [])) ∷ [])

abbrev pub attestation : Value
attestation = object (
    ("version", text "terms@1")
    ∷ ("accountId", str uuid)
    ∷ ("assessmentId", str uuid)
    ∷ ("userId", str uuid)
    ∷ ("target", str site)
    ∷ ("scopeFingerprint", str fingerprint)
    ∷ ("playbookKey", text "surface-public-posture")
    ∷ ("playbookVersion", text "1.0.0")
    ∷ ("acceptedAt", str stamp)
    ∷ [])

abbrev ceiling : List (String × Value)
ceiling =
    ("durationS", number 400)
    ∷ ("concurrency", number 4)
    ∷ ("ratePerMin", number 60)
    ∷ ("credits", number 5)
    ∷ []

abbrev pub limits : Value
limits = object (
    ("playbook", object (("egress", array (text "scope_target" ∷ [])) ∷ ceiling))
    ∷ ("entitlement", object ceiling)
    ∷ ("account", object ceiling)
    ∷ ("global", object ceiling)
    ∷ ("requested", object (("ratePerMin", number 3) ∷ []))
    ∷ [])

abbrev limit : ℕ → ℕ → Value
limit requests duration =
    object (("requests", number requests) ∷ ("durationS", number duration) ∷ [])

abbrev probe : String → String → ℕ → Value
probe id kind requests = object (
    ("id", text id)
    ∷ ("type", text kind)
    ∷ ("allowedTargets", text "scope")
    ∷ ("limit", limit requests 30)
    ∷ [])

abbrev get : String → String → ℕ → ℕ → Value
get id kind requests duration = object (
    ("id", text id)
    ∷ ("type", text kind)
    ∷ ("allowedTargets", text "scope")
    ∷ ("method", text "GET")
    ∷ ("limit", limit requests duration)
    ∷ [])

abbrev texts : List String → List Value
texts [] = []
texts (s ∷ ss) = text s ∷ texts ss

abbrev pub playbook : Value
playbook = object (
    ("schemaVersion", text "playbook.schema@1")
    ∷ ("key", text "surface-public-posture")
    ∷ ("version", text "1.0.0")
    ∷ ("targetCategory", text "surface")
    ∷ ("active", bool true)
    ∷ (
      "preconditions",
      array (
          object
            (("kind", text "http_verification_required") ∷ ("when", text "active_external") ∷ [])
          ∷ []),
    )
    ∷ (
      "actions",
      array (
          probe "dns.records" "dns_lookup" 1
          ∷ probe "tls.cert" "tls_probe" 1
          ∷ get "http.headers" "http_probe" 5 30
          ∷ get "robots.txt" "robots_fetch" 1 30
          ∷ get "sitemap.xml" "sitemap_fetch" 1 30
          ∷ get "endpoint.minimal" "endpoint_probe" 2 60
          ∷ []),
    )
    ∷ (
      "limits",
      object (
          ("maxDurationS", number 300)
          ∷ ("maxConcurrency", number 1)
          ∷ ("maxRatePerMin", number 10)
          ∷ (
            "egress",
            object
                (("allow", array (text "scope_target" ∷ [])) ∷ ("blockDefaults", bool true) ∷ []),
          )
          ∷ ("impactLevels", array (text "low" ∷ []))
          ∷ []),
    )
    ∷ (
      "stopSignals",
      array (
          texts (
            "scope_escape" ∷ "rate_exceeded" ∷ "unauthorized_endpoint" ∷ "duration_exceeded" ∷ [])),
    )
    ∷ (
      "evidence",
      object (
          ("expected", array (texts ("http_headers_snapshot" ∷ "tls_cert_metadata" ∷ [])))
          ∷ ("format", text "manifest")
          ∷ []),
    )
    ∷ ("severityPossible", array (texts ("info" ∷ "low" ∷ [])))
    ∷ [])

abbrev pub request : String → Value
request action = object (
    ("context", context_value 1 context)
    ∷ ("action", text action)
    ∷ ("targetCategory", text "surface")
    ∷ ("target", target)
    ∷ ("scope", scope_value)
    ∷ ("entitlement", entitlement)
    ∷ ("limits", limits)
    ∷ ("attestation", attestation)
    ∷ ("verification", null)
    ∷ ("playbook", playbook)
    ∷ [])
