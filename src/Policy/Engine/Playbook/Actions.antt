-- ===== src/Policy/Engine/Playbook/Actions.antt =====
-- packages/policy/src/engine.ts: the actions of a playbook against the canonical ones.
use touchmyapi.Common.{
  ℕ, Bool, true, false, List, [], ◌∷◌, ◌++◌, String, Option, none, some, Result, ok, err, ◌>>=◌,
  ◌>>◌, guard, require, Text, codes, text_eq, mem_text, ◌==◌, ◌&&◌, ◌||◌, not, if◌then◌else◌,
}
use touchmyapi.Js.{Value, Snapshot, field, own, is_str, as_str, positive_safe_integer, str}
use touchmyapi.Policy.Engine.Snapshot.{snapshot_object, exact_keys, exact_snapshot}
use touchmyapi.Policy.Engine.Facts.{
  BlockCode, AuthorizedAction, invalid_playbook, unknown_playbook_action,
  target_category_not_allowed,
}

-- `ACTION_MAP[id]`.
pub record ActionDescriptor : Type 0 where
  pub kind : Text
  pub capability : Text

abbrev descriptor : String → String → Option ActionDescriptor
descriptor kind capability = some (record { kind = codes kind; capability = codes capability })

unfoldable pub action_map : Text → Option ActionDescriptor
action_map id =
    if text_eq id (codes "dns.records")
    then descriptor "dns_lookup" "dns_resolver"
    else if text_eq id (codes "tls.cert")
    then descriptor "tls_probe" "tls_probe"
    else if text_eq id (codes "http.headers")
    then descriptor "http_probe" "http_client"
    else if text_eq id (codes "robots.txt")
    then descriptor "robots_fetch" "http_client"
    else if text_eq id (codes "sitemap.xml")
    then descriptor "sitemap_fetch" "http_client"
    else if text_eq id (codes "endpoint.minimal")
    then descriptor "endpoint_probe" "http_client"
    else none

-- One of `CANONICAL_ACTIONS`; `get` says that it has the method GET.
pub record CanonicalAction : Type 0 where
  pub id : Text
  pub kind : Text
  pub get : Bool
  pub requests : ℕ
  pub duration_s : ℕ

abbrev canonical : String → String → Bool → ℕ → ℕ → CanonicalAction
canonical id kind get requests duration_s = record {
  id = codes id;
  kind = codes kind;
  get = get;
  requests = requests;
  duration_s = duration_s;
}

abbrev pub canonical_actions : List CanonicalAction
canonical_actions =
    canonical "dns.records" "dns_lookup" false 1 30
    ∷ canonical "tls.cert" "tls_probe" false 1 30
    ∷ canonical "http.headers" "http_probe" true 5 30
    ∷ canonical "robots.txt" "robots_fetch" true 1 30
    ∷ canonical "sitemap.xml" "sitemap_fetch" true 1 30
    ∷ canonical "endpoint.minimal" "endpoint_probe" true 2 60
    ∷ []

abbrev http_action_types : List Text
http_action_types =
    codes "http_probe" ∷ codes "robots_fetch" ∷ codes "sitemap_fetch" ∷ codes "endpoint_probe" ∷ []

-- What the loop has collected.
pub record ActionState : Type 0 where
  pub actions : List AuthorizedAction
  pub ids : List Text
  pub capabilities : List Text
  pub durations : List ℕ
  pub request_counts : List ℕ

abbrev pub no_actions : ActionState
no_actions = record {
  actions = [];
  ids = [];
  capabilities = [];
  durations = [];
  request_counts = [];
}

abbrev four_keys : List String
four_keys = "id" ∷ "type" ∷ "allowedTargets" ∷ "limit" ∷ []

abbrev action_keys : List String
action_keys = "id" ∷ "type" ∷ "allowedTargets" ∷ "method" ∷ "limit" ∷ []

unfoldable pub action_snapshot : Value → Option Snapshot
action_snapshot v = elim (snapshot_object v (some action_keys)) [
  | none ↦ none
  | some s ↦ if exact_keys s four_keys || exact_keys s action_keys then some s else none
]

-- `method` is GET for the four types that use HTTP, and absent for the others.
unfoldable pub method_fits : Text → Snapshot → Bool
method_fits kind s = elim (own s "method") [
  | none ↦ not (mem_text kind http_action_types)
  | some v ↦ mem_text kind http_action_types && is_str "GET" v
]

abbrev pub is_value : Text → Value → Bool
is_value t (str u) = text_eq u t
is_value t _ = false

-- The limit is that of the canonical action.
unfoldable pub limit_fits : CanonicalAction → Value → Bool
limit_fits c v = elim (exact_snapshot v ("requests" ∷ "durationS" ∷ [])) [
  | none ↦ false
  | some s ↦ elim (positive_safe_integer (field s "requests")) [
    | none ↦ false
    | some r ↦ elim (positive_safe_integer (field s "durationS")) [
      | none ↦ false
      | some d ↦ r == c.requests && d == c.duration_s
    ]
  ]
]

unfoldable pub add_capability : Text → List Text → List Text
add_capability c cs = if mem_text c cs then cs else cs ++ c ∷ []

-- `{ ...canonical, capability }`
unfoldable pub authorized : CanonicalAction → Text → AuthorizedAction
authorized c capability = record {
  id = c.id;
  kind = c.kind;
  capability = capability;
  get = c.get;
  requests = c.requests;
  duration_s = c.duration_s;
}

abbrev pub collect : CanonicalAction → Text → ActionState → ActionState
collect c capability st = record {
  actions = st.actions ++ authorized c capability ∷ [];
  ids = st.ids ++ c.id ∷ [];
  capabilities = add_capability capability st.capabilities;
  durations = st.durations ++ c.duration_s ∷ [];
  request_counts = st.request_counts ++ c.requests ∷ [];
}

-- One round of the loop; the value's `requests` and `durationS` are the canonical ones once
-- `limit_fits` holds, and its id is the canonical one.
unfoldable pub parse_action : Value → CanonicalAction → ActionState → Result BlockCode ActionState
parse_action v c st = do
  s ← require invalid_playbook (action_snapshot v)
  id ← require invalid_playbook (as_str (field s "id"))
  d ← require unknown_playbook_action (action_map id)
  guard (text_eq id c.id) invalid_playbook
  guard (is_value d.kind (field s "type")) unknown_playbook_action
  guard (is_str "scope" (field s "allowedTargets")) target_category_not_allowed
  guard (method_fits d.kind s) invalid_playbook
  guard (limit_fits c (field s "limit")) invalid_playbook
  guard (not (mem_text c.id st.ids)) unknown_playbook_action
  ok (collect c d.capability st)

-- The loop, value by value beside the canonical actions; the caller has compared their numbers.
unfoldable pub parse_actions :
    List Value → List CanonicalAction → ActionState → Result BlockCode ActionState
parse_actions [] cs st = ok st
parse_actions (v ∷ vs) [] st = err invalid_playbook
parse_actions (v ∷ vs) (c ∷ cs) st = do st' ← parse_action v c st; parse_actions vs cs st'
