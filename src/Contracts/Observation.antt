-- ===== src/Contracts/Observation.antt =====
-- packages/contracts/src/job.ts: one observation of a passive run, as the schema reads it from JSON.
use touchmyapi.Common.{
  ℕ, Bool, List, [], ◌∷◌, Option, none, some, Text, codes, text_eq, leb, not, if◌then◌else◌,
}
use touchmyapi.Common.Maybe.{◌>>=◌, ◌>>◌, check}
use touchmyapi.Js.{Value, Key, Descriptor, props, Snapshot, field, as_str, plain, obj}
use touchmyapi.Policy.Engine.Snapshot.{exact_snapshot}
use touchmyapi.Contracts.Redacted.{contains_secret_key}

pub data ActionId : Type 0 where
  dns_records tls_cert http_headers robots_txt sitemap_xml endpoint_minimal : ActionId

pub data ObservationKind : Type 0 where
  dns_kind certificate_kind headers_kind presence_kind : ObservationKind

pub record PassiveObservation : Type 0 where
  pub action_id : ActionId
  pub kind : ObservationKind
  pub observed_at : Text
  pub facts : Snapshot

abbrev pub action_name : ActionId → Text
action_name dns_records = codes "dns.records"
action_name tls_cert = codes "tls.cert"
action_name http_headers = codes "http.headers"
action_name robots_txt = codes "robots.txt"
action_name sitemap_xml = codes "sitemap.xml"
action_name endpoint_minimal = codes "endpoint.minimal"

abbrev pub kind_name : ObservationKind → Text
kind_name dns_kind = codes "dns_records"
kind_name certificate_kind = codes "tls_certificate"
kind_name headers_kind = codes "http_headers"
kind_name presence_kind = codes "resource_presence"

-- `z.enum`: the first alternative with that name.
unfoldable pub find_named {ℓ} : {A : Type ℓ} → (A → Text) → List A → Text → Option A
find_named title [] t = none
find_named title (a ∷ as') t = if text_eq t (title a) then some a else find_named title as' t

abbrev pub all_actions : List ActionId
all_actions =
    dns_records ∷ tls_cert ∷ http_headers ∷ robots_txt ∷ sitemap_xml ∷ endpoint_minimal ∷ []

abbrev pub all_kinds : List ObservationKind
all_kinds = dns_kind ∷ certificate_kind ∷ headers_kind ∷ presence_kind ∷ []

-- The plain entries of a record.
unfoldable pub entries : List (Key × Descriptor) → Option Snapshot
entries [] = some []
entries ((k, plain v) ∷ rest) = do more ← entries rest; some ((k, v) ∷ more)
entries (_ ∷ rest) = none

-- `is_datetime` is `z.string().datetime()`, and `json_length` the length of `JSON.stringify`.
module _ (is_datetime : Text → Bool) (json_length : Value → ℕ) where
  -- `passiveObservationDataSchema`.
  unfoldable pub parse_facts : Value → Option Snapshot
  parse_facts (obj id proto ps) = do
    facts ← entries (props ps)
    check (not (contains_secret_key (obj id proto ps)))
    check (leb (json_length (obj id proto ps)) 32_768)
    some facts
  parse_facts _ = none

  -- `passiveObservationSchema`; `none` is that `parse` throws.
  unfoldable pub parse_observation : Value → Option PassiveObservation
  parse_observation input = do
    value ← exact_snapshot input ("actionId" ∷ "kind" ∷ "observedAt" ∷ "data" ∷ [])
    action ← as_str (field value "actionId") >>= find_named action_name all_actions
    kind ← as_str (field value "kind") >>= find_named kind_name all_kinds
    at_time ← as_str (field value "observedAt")
    check (is_datetime at_time)
    facts ← parse_facts (field value "data")
    some (record { action_id = action; kind = kind; observed_at = at_time; facts = facts })
