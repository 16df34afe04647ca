-- ===== src/Policy/Engine/Playbook.antt =====
-- packages/policy/src/engine.ts: the playbook of a request against the one published catalog.
pub mod Actions
pub mod Canonical
use touchmyapi.Common.{
  ℕ, Bool, true, false, List, [], ◌∷◌, ◌++◌, String, Option, none, some, Result, ok, err, ◌>>=◌,
  ◌>>◌, guard, require, Text, codes, text_eq, mem_text, all, any, length, leb, ◌==◌, ◌&&◌, ◌||◌,
  not, is_empty, if◌then◌else◌,
}
use touchmyapi.Js.{
  Value, Snapshot, field, own, is_str, is_nullish, str, bool, positive_safe_integer,
}
use touchmyapi.Policy.Patterns.{is_safe_version}
use touchmyapi.Policy.Engine.Snapshot.{exact_snapshot, snapshot_array, unique_safe_strings}
use touchmyapi.Policy.Engine.Facts.{
  BlockCode, AuthorizedAction, playbook_required, invalid_playbook, target_category_mismatch,
}
use Actions.{ActionState, parse_actions, canonical_actions, no_actions}

pub record PlaybookLimits : Type 0 where
  pub duration_s : ℕ
  pub concurrency : ℕ
  pub rate_per_min : ℕ

pub record ParsedPlaybook : Type 0 where
  pub actions : List AuthorizedAction
  pub action_ids : List Text
  pub capabilities : List Text
  pub limits : PlaybookLimits

abbrev pub playbook_keys : List String
playbook_keys =
    "schemaVersion" ∷ "key" ∷ "version" ∷ "targetCategory" ∷ "active" ∷ "preconditions" ∷ "actions"
    ∷ "limits" ∷ "stopSignals" ∷ "evidence" ∷ "severityPossible" ∷ []

abbrev pub limit_keys : List String
limit_keys = "maxDurationS" ∷ "maxConcurrency" ∷ "maxRatePerMin" ∷ "egress" ∷ "impactLevels" ∷ []

abbrev pub stop_signals : List Text
stop_signals =
    codes "scope_escape"
    ∷ codes "rate_exceeded"
    ∷ codes "unauthorized_endpoint"
    ∷ codes "duration_exceeded"
    ∷ []

abbrev pub severity_levels : List Text
severity_levels = codes "info" ∷ codes "low" ∷ codes "medium" ∷ codes "high" ∷ codes "critical" ∷ []

-- Two lists of texts, element by element.
unfoldable pub texts_eq : List Text → List Text → Bool
texts_eq [] [] = true
texts_eq (s ∷ ss) (t ∷ ts) = text_eq s t && texts_eq ss ts
texts_eq _ _ = false

-- A string that `SAFE_VERSION` accepts.
abbrev safe_text : Value → Option Text
safe_text (str t) = if is_safe_version t then some t else none
safe_text _ = none

abbrev pub is_true : Value → Bool
is_true (bool true) = true
is_true _ = false

-- One precondition: its key in the set, if it is the canonical one.
unfoldable pub precondition_key : Value → Option Text
precondition_key v = elim (exact_snapshot v ("kind" ∷ "when" ∷ [])) [
  | none ↦ none
  | some c ↦ elim (safe_text (field c "kind")) [
    | none ↦ none
    | some kind ↦ elim (safe_text (field c "when")) [
      | none ↦ none
      | some on ↦
          if text_eq kind (codes "http_verification_required")
            && text_eq on (codes "active_external")
          then some (kind ++ 0 ∷ on)
          else none
    ]
  ]
]

-- The loop over the preconditions, with the set of keys.
unfoldable pub precondition_keys : List Value → List Text → Option (List Text)
precondition_keys [] found = some found
precondition_keys (v ∷ vs) found = elim (precondition_key v) [
  | none ↦ none
  | some key ↦
      let more = precondition_keys vs (found ++ key ∷ []) in
      if mem_text key found then none else more
]

-- Every precondition that passes the loop is the canonical one, so `hasActiveHttpVerification` is
-- that the set is not empty; its size must be 1.
unfoldable pub preconditions_hold : Value → Bool
preconditions_hold v = elim (snapshot_array v) [
  | none ↦ false
  | some values ↦ elim (precondition_keys values []) [
    | none ↦ false
    | some keys ↦ not (is_empty values) && length keys == 1
  ]
]

unfoldable pub is_catalog : Snapshot → Bool
is_catalog value =
    is_str "playbook.schema@1" (field value "schemaVersion")
    && is_str "surface-public-posture" (field value "key")
    && is_str "1.0.0" (field value "version")
    && is_true (field value "active")

abbrev pub same_texts : Option (List Text) → List Text → Bool
same_texts none expected = false
same_texts (some ts) expected = texts_eq ts expected

unfoldable pub egress_holds : Value → Bool
egress_holds v = elim (exact_snapshot v ("allow" ∷ "blockDefaults" ∷ [])) [
  | none ↦ false
  | some egress ↦ elim (snapshot_array (field egress "allow")) [
    | some (target ∷ []) ↦ is_true (field egress "blockDefaults") && is_str "scope_target" target
    | _ ↦ false
  ]
]

-- The three numbers of `limits`.
unfoldable pub read_limits : Snapshot → Option PlaybookLimits
read_limits value = elim (positive_safe_integer (field value "maxDurationS")) [
  | none ↦ none
  | some d ↦ elim (positive_safe_integer (field value "maxConcurrency")) [
    | none ↦ none
    | some c ↦ elim (positive_safe_integer (field value "maxRatePerMin")) [
      | none ↦ none
      | some r ↦ some (record { duration_s = d; concurrency = c; rate_per_min = r })
    ]
  ]
]

-- The canonical numbers, and no action beyond them.
unfoldable pub limits_hold : PlaybookLimits → ActionState → Bool
limits_hold limits actions =
    limits.duration_s == 300
    && limits.concurrency == 1
    && limits.rate_per_min == 10
    && all (λ d. leb d limits.duration_s) actions.durations
    && all (λ r. leb r limits.rate_per_min) actions.request_counts

unfoldable pub evidence_holds : Value → Bool
evidence_holds v = elim (exact_snapshot v ("expected" ∷ "format" ∷ [])) [
  | none ↦ false
  | some evidence ↦
      is_str "manifest" (field evidence "format")
      && same_texts (unique_safe_strings (field evidence "expected") none)
          (codes "http_headers_snapshot" ∷ codes "tls_cert_metadata" ∷ [])
]

-- `value.targetCategory === category`
abbrev pub is_category : Text → Value → Bool
is_category category (str t) = text_eq t category
is_category category _ = false

-- The end of `parsePlaybook`, from its limits on.
unfoldable pub finish_playbook : Snapshot → ActionState → Result BlockCode ParsedPlaybook
finish_playbook value actions = do
  limit_value ← require invalid_playbook (exact_snapshot (field value "limits") limit_keys)
  limits ← require invalid_playbook (read_limits limit_value)
  guard (limits_hold limits actions) invalid_playbook
  guard (egress_holds (field limit_value "egress")) invalid_playbook
  guard
      (same_texts (unique_safe_strings (field limit_value "impactLevels") (some severity_levels))
        (codes "low" ∷ []))
      invalid_playbook
  guard
      (same_texts (unique_safe_strings (field value "stopSignals") (some stop_signals))
        stop_signals)
      invalid_playbook
  guard (evidence_holds (field value "evidence")) invalid_playbook
  guard
      (same_texts (unique_safe_strings (field value "severityPossible") (some severity_levels))
        (codes "info" ∷ codes "low" ∷ []))
      invalid_playbook
  ok (record {
    actions = actions.actions;
    action_ids = actions.ids;
    capabilities = actions.capabilities;
    limits = limits;
  })

unfoldable pub parse_playbook : Value → Text → Result BlockCode ParsedPlaybook
parse_playbook input category = do
  guard (not (is_nullish input)) playbook_required
  value ← require invalid_playbook (exact_snapshot input playbook_keys)
  guard (is_category category (field value "targetCategory")) target_category_mismatch
  guard (is_catalog value) invalid_playbook
  guard (preconditions_hold (field value "preconditions")) invalid_playbook
  action_values ← require invalid_playbook (snapshot_array (field value "actions"))
  guard (length action_values == length canonical_actions) invalid_playbook
  actions ← parse_actions action_values canonical_actions no_actions
  finish_playbook value actions
