-- ===== src/Policy/Engine/Playbook/Canonical.antt =====
-- packages/policy/src/engine.ts: a playbook that is accepted is the canonical one.
use mathlib.Core.Path.{subst}
use touchmyapi.Common.{
  ◌≡◌, refl, sym, ap, ◌∙◌, true, List, [], ◌∷◌, String, Option, none, some, ok, arith, Text, codes,
  text_eq, text_eq_iff, mem_text, guard, require, >>=-eq-ok, require-eq-ok, guard-eq-ok,
  ok-injective, length, ◌==◌, not,
}
use touchmyapi.Js.{Value, Snapshot, field, as_str, is_str, is_nullish}
use touchmyapi.Policy.Engine.Snapshot.{exact_snapshot, snapshot_array, unique_safe_strings}
use touchmyapi.Policy.Engine.Facts.{
  AuthorizedAction, invalid_playbook, unknown_playbook_action, playbook_required,
  target_category_not_allowed, target_category_mismatch,
}
use touchmyapi.Policy.Engine.Playbook.{
  PlaybookLimits, ParsedPlaybook, playbook_keys, limit_keys, is_category, is_catalog,
  preconditions_hold, read_limits, limits_hold, egress_holds, same_texts, evidence_holds,
  stop_signals, severity_levels, finish_playbook, parse_playbook,
}
use touchmyapi.Policy.Engine.Playbook.Actions.{
  ActionDescriptor, CanonicalAction, ActionState, canonical_actions, no_actions, action_map,
  action_snapshot, method_fits, limit_fits, is_value, collect, add_capability, authorized,
  parse_action, parse_actions,
}

abbrev collect_with : CanonicalAction → ActionState → Option ActionDescriptor → ActionState
collect_with c st none = st
collect_with c st (some d) = collect c d.capability st

-- What an action adds, the capability being that of its id.
collect_canonical : CanonicalAction → ActionState → ActionState
collect_canonical c st = collect_with c st (action_map c.id)

abbrev collect_all : List CanonicalAction → ActionState → ActionState
collect_all [] st = st
collect_all (c ∷ cs) st = collect_all cs (collect_canonical c st)

collect_canonical-found :
    (c : CanonicalAction) (st : ActionState) (d : ActionDescriptor)
    → action_map c.id ≡ some d
    → collect_canonical c st ≡ collect c d.capability st
unfolding collect_canonical
collect_canonical-found c st d h = ap (collect_with c st) h

parse_action-collect :
    (v : Value) (c : CanonicalAction) (st st' : ActionState)
    → parse_action v c st ≡ ok st'
    → st' ≡ collect_canonical c st
unfolding parse_action
parse_action-collect v c st st' h =
    let (s, _, h1) = >>=-eq-ok (require invalid_playbook (action_snapshot v)) _ h in
    let (id, _, h2) = >>=-eq-ok (require invalid_playbook (as_str (field s "id"))) _ h1 in
    let (d, known, h3) = >>=-eq-ok (require unknown_playbook_action (action_map id)) _ h2 in
    let (_, same, h4) = >>=-eq-ok (guard (text_eq id c.id) invalid_playbook) _ h3 in
    let (_, _, h5) =
      >>=-eq-ok (guard (is_value d.kind (field s "type")) unknown_playbook_action) _ h4 in
    let (_, _, h6) =
      >>=-eq-ok (guard (is_str "scope" (field s "allowedTargets")) target_category_not_allowed) _
        h5 in
    let (_, _, h7) = >>=-eq-ok (guard (method_fits d.kind s) invalid_playbook) _ h6 in
    let (_, _, h8) = >>=-eq-ok (guard (limit_fits c (field s "limit")) invalid_playbook) _ h7 in
    let (_, _, h9) = >>=-eq-ok (guard (not (mem_text c.id st.ids)) unknown_playbook_action) _ h8 in
    let id_is = (text_eq_iff id c.id).0 (guard-eq-ok _ _ same) in
    let found : action_map c.id ≡ some d =
      subst (λ x. action_map x ≡ some d) id_is
        (require-eq-ok unknown_playbook_action (action_map id) known) in
    sym (ok-injective h9) ∙ sym (collect_canonical-found c st d found)

parse_actions-collect :
    (vs : List Value) (cs : List CanonicalAction) (st st' : ActionState)
    → length vs ≡ length cs
    → parse_actions vs cs st ≡ ok st'
    → st' ≡ collect_all cs st
unfolding parse_actions
parse_actions-collect [] [] st st' n h = sym (ok-injective h)
parse_actions-collect [] (c ∷ cs) st st' n h = ground arith
parse_actions-collect (v ∷ vs) [] st st' n h = ground arith
parse_actions-collect (v ∷ vs) (c ∷ cs) st st' n h =
    let (st1, first, rest) = >>=-eq-ok (parse_action v c st) _ h in
    rw (← parse_action-collect v c st st1 first)
      (parse_actions-collect vs cs st1 st' (omega arith) rest)

abbrev granted : CanonicalAction → String → AuthorizedAction
granted c capability = record {
  id = c.id;
  kind = c.kind;
  capability = codes capability;
  get = c.get;
  requests = c.requests;
  duration_s = c.duration_s;
}

-- The canonical actions beside the capabilities that they need.
abbrev granted_all : List CanonicalAction → List String → List AuthorizedAction
granted_all [] ks = []
granted_all (c ∷ cs) [] = []
granted_all (c ∷ cs) (k ∷ ks) = granted c k ∷ granted_all cs ks

abbrev pub published_actions : List AuthorizedAction
published_actions = granted_all canonical_actions (
    "dns_resolver" ∷ "tls_probe" ∷ "http_client" ∷ "http_client" ∷ "http_client" ∷ "http_client"
    ∷ [])

abbrev pub published_capabilities : List Text
published_capabilities = codes "dns_resolver" ∷ codes "tls_probe" ∷ codes "http_client" ∷ []

-- The playbook that the catalog publishes.
pub record IsPublished (p : ParsedPlaybook) : Type 0 where
  pub actions : p.actions ≡ published_actions
  pub capabilities : p.capabilities ≡ published_capabilities
  pub duration : p.limits.duration_s ≡ 300
  pub concurrency : p.limits.concurrency ≡ 1
  pub rate : p.limits.rate_per_min ≡ 10

collected :
    let st = collect_all canonical_actions no_actions in
    (st.actions ≡ published_actions) × (st.capabilities ≡ published_capabilities)
unfolding collect_canonical action_map add_capability authorized mem_text text_eq
collected = (refl, refl)

limits_hold-eq :
    (limits : PlaybookLimits) (st : ActionState)
    → limits_hold limits st ≡ true
    → (limits.duration_s ≡ 300) × (limits.concurrency ≡ 1) × (limits.rate_per_min ≡ 10)
unfolding limits_hold
limits_hold-eq limits st h = ground arith

finish_playbook-parts :
    (value : Snapshot) (st : ActionState) (p : ParsedPlaybook)
    → finish_playbook value st ≡ ok p
    → (limits : PlaybookLimits) × (limits_hold limits st ≡ true)
      × (p.actions ≡ st.actions)
      × (p.capabilities ≡ st.capabilities)
      × (p.limits ≡ limits)
unfolding finish_playbook
finish_playbook-parts value st p h =
    let (lv, _, h9) =
      >>=-eq-ok (require invalid_playbook (exact_snapshot (field value "limits") limit_keys)) _ h in
    let (limits, _, h10) = >>=-eq-ok (require invalid_playbook (read_limits lv)) _ h9 in
    let (_, held, h11) = >>=-eq-ok (guard (limits_hold limits st) invalid_playbook) _ h10 in
    let (_, _, h12) = >>=-eq-ok (guard (egress_holds (field lv "egress")) invalid_playbook) _ h11 in
    let (_, _, h13) =
      >>=-eq-ok
        (guard
          (same_texts (unique_safe_strings (field lv "impactLevels") (some severity_levels))
            (codes "low" ∷ []))
          invalid_playbook)
        _ h12 in
    let (_, _, h14) =
      >>=-eq-ok
        (guard
          (same_texts (unique_safe_strings (field value "stopSignals") (some stop_signals))
            stop_signals)
          invalid_playbook)
        _ h13 in
    let (_, _, h15) =
      >>=-eq-ok (guard (evidence_holds (field value "evidence")) invalid_playbook) _ h14 in
    let (_, _, h16) =
      >>=-eq-ok
        (guard
          (same_texts (unique_safe_strings (field value "severityPossible") (some severity_levels))
            (codes "info" ∷ codes "low" ∷ []))
          invalid_playbook)
        _ h15 in
    let same = ok-injective h16 in
    (
      limits,
      guard-eq-ok _ _ held,
      sym (ap (λ q. q.actions) same),
      sym (ap (λ q. q.capabilities) same),
      sym (ap (λ q. q.limits) same),
    )

-- A playbook that is accepted, for whatever category, grants the six published actions with their
-- canonical limits, the three capabilities that these need, and 300 seconds, one connection and ten
-- requests a minute.
pub parse_playbook-IsPublished :
    (input : Value) (category : Text) (p : ParsedPlaybook)
    → parse_playbook input category ≡ ok p
    → IsPublished p
unfolding parse_playbook
parse_playbook-IsPublished input category p h =
    let (_, _, h1) = >>=-eq-ok (guard (not (is_nullish input)) playbook_required) _ h in
    let (value, _, h2) =
      >>=-eq-ok (require invalid_playbook (exact_snapshot input playbook_keys)) _ h1 in
    let (_, _, h3) =
      >>=-eq-ok
        (guard (is_category category (field value "targetCategory")) target_category_mismatch) _
        h2 in
    let (_, _, h4) = >>=-eq-ok (guard (is_catalog value) invalid_playbook) _ h3 in
    let (_, _, h5) =
      >>=-eq-ok (guard (preconditions_hold (field value "preconditions")) invalid_playbook) _ h4 in
    let (vs, _, h6) =
      >>=-eq-ok (require invalid_playbook (snapshot_array (field value "actions"))) _ h5 in
    let (_, count, h7) =
      >>=-eq-ok (guard (length vs == length canonical_actions) invalid_playbook) _ h6 in
    let (st, read, h8) = >>=-eq-ok (parse_actions vs canonical_actions no_actions) _ h7 in
    let (limits, held, actions_are, capabilities_are, limits_are) =
      finish_playbook-parts value st p h8 in
    let equal = guard-eq-ok _ _ count in
    let st_is = parse_actions-collect vs canonical_actions no_actions st (ground arith) read in
    let (d, c, r) = limits_hold-eq limits st held in
    record {
      actions = actions_are ∙ ap (λ s. s.actions) st_is ∙ collected.0;
      capabilities = capabilities_are ∙ ap (λ s. s.capabilities) st_is ∙ collected.1;
      duration = ap (λ l. l.duration_s) limits_are ∙ d;
      concurrency = ap (λ l. l.concurrency) limits_are ∙ c;
      rate = ap (λ l. l.rate_per_min) limits_are ∙ r;
    }
