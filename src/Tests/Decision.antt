-- ===== src/Tests/Decision.antt =====
-- The engine at a request that it allows and at one that it refuses.
use touchmyapi.Common.{◌≡◌, refl, true, false, none, some, ok, is_empty, codes, List, [], ◌∷◌}
use touchmyapi.Js.{Snapshot}
use touchmyapi.Policy.Engine.Snapshot.{snapshot_object}
use touchmyapi.Policy.Engine.Facts.{PolicyDecision}
use touchmyapi.Policy.Engine.Playbook.{ParsedPlaybook, parse_playbook}
use touchmyapi.Policy.Engine.Playbook.Canonical.{
  IsPublished, parse_playbook-IsPublished, published_actions, published_capabilities,
}
use touchmyapi.Policy.Engine.Authorize.Codes.{authorize}
use touchmyapi.Policy.Engine.Authorize.Authorized.{IsAuthorized}
use touchmyapi.Policy.Engine.Authorize.Sound.{authorize-IsAuthorized}
use touchmyapi.Policy.Engine.Authorize.Granted.{IsGranted, authorize-IsGranted}
use touchmyapi.Policy.Engine.Authorize.Refusal.{IsRefusal, authorize-IsRefusal}
use touchmyapi.Tests.Request.{platform, registry, request, playbook}

abbrev passive : PolicyDecision
passive = authorize platform registry (request "passive_external")

abbrev unknown : PolicyDecision
unknown = authorize platform registry (request "scan")

passive_allowed : passive.allowed ≡ true
unfolding touchmyapi.Common.cut touchmyapi.Common.cut_last touchmyapi.Common.occurrences
    touchmyapi.Common.cut_at touchmyapi.Common.split touchmyapi.Common.join
    touchmyapi.Common.is_space touchmyapi.Common.trim_start touchmyapi.Common.trim
    touchmyapi.Common.lower_code touchmyapi.Common.lower touchmyapi.Common.drop_trailing
    touchmyapi.Common.is_control touchmyapi.Common.digit_value touchmyapi.Common.read_digits
    touchmyapi.Common.digit_code touchmyapi.Common.print_digits touchmyapi.Common.print_number
    touchmyapi.Common.Table.holds_below touchmyapi.Common.text_eq touchmyapi.Common.starts_with
    touchmyapi.Common.ends_with touchmyapi.Common.has_code touchmyapi.Common.mem_text
    touchmyapi.Common.is_digit touchmyapi.Common.is_letter touchmyapi.Common.is_hex
    touchmyapi.Js.own touchmyapi.Js.field touchmyapi.Js.key_in touchmyapi.Js.is_str
    touchmyapi.Js.positive_safe_integer touchmyapi.Policy.Ceiling.positive_own
    touchmyapi.Policy.Ceiling.validate_ceiling touchmyapi.Policy.Ceiling.requested_own
    touchmyapi.Policy.Ceiling.partial_ceiling touchmyapi.Policy.Ceiling.min_all
    touchmyapi.Policy.Ceiling.min_for touchmyapi.Policy.Ceiling.min_ceiling
    touchmyapi.Policy.Engine.Authorize.action_of
    touchmyapi.Policy.Engine.Authorize.is_target_category
    touchmyapi.Policy.Engine.Authorize.limit_code touchmyapi.Policy.Engine.Authorize.cap_limits
    touchmyapi.Policy.Engine.Authorize.limits_result touchmyapi.Policy.Engine.Authorize.scope_of
    touchmyapi.Policy.Engine.Authorize.read_parts touchmyapi.Policy.Engine.Authorize.Codes.has_any
    touchmyapi.Policy.Engine.Authorize.Codes.root_codes
    touchmyapi.Policy.Engine.Authorize.Codes.action_codes
    touchmyapi.Policy.Engine.Authorize.Codes.category_codes
    touchmyapi.Policy.Engine.Authorize.Codes.target_codes
    touchmyapi.Policy.Engine.Authorize.Codes.port_codes
    touchmyapi.Policy.Engine.Authorize.Codes.fingerprint_codes
    touchmyapi.Policy.Engine.Authorize.Codes.scope_codes
    touchmyapi.Policy.Engine.Authorize.Codes.address_codes
    touchmyapi.Policy.Engine.Authorize.Codes.attestation_codes
    touchmyapi.Policy.Engine.Authorize.Codes.verification_codes
    touchmyapi.Policy.Engine.Authorize.Codes.execution_codes
    touchmyapi.Policy.Engine.Authorize.Codes.part_codes
    touchmyapi.Policy.Engine.Authorize.Codes.effective_limits
    touchmyapi.Policy.Engine.Authorize.Codes.effective_action
    touchmyapi.Policy.Engine.Authorize.Codes.grant touchmyapi.Policy.Engine.Authorize.Codes.conclude
    touchmyapi.Policy.Engine.Authorize.Codes.decide
    touchmyapi.Policy.Engine.Authorize.Codes.authorize
    touchmyapi.Policy.Engine.Context.fingerprint_scope
    touchmyapi.Policy.Engine.Context.context_facts touchmyapi.Policy.Engine.Context.read_context
    touchmyapi.Policy.Engine.Context.parse_context touchmyapi.Policy.Engine.Entitlement.source_of
    touchmyapi.Policy.Engine.Entitlement.entitlement_facts touchmyapi.Policy.Engine.Entitlement.fits
    touchmyapi.Policy.Engine.Entitlement.fits_now
    touchmyapi.Policy.Engine.Entitlement.is_own_entitlement
    touchmyapi.Policy.Engine.Entitlement.judge_entitlement
    touchmyapi.Policy.Engine.Entitlement.parse_entitlement
    touchmyapi.Policy.Engine.Evidence.all_texts touchmyapi.Policy.Engine.Evidence.parse_target
    touchmyapi.Policy.Engine.Evidence.is_scope_malformed
    touchmyapi.Policy.Engine.Evidence.target_origin touchmyapi.Policy.Engine.Evidence.status_of
    touchmyapi.Policy.Engine.Evidence.read_verification
    touchmyapi.Policy.Engine.Evidence.judge_verification
    touchmyapi.Policy.Engine.Evidence.is_dns_method touchmyapi.Policy.Engine.Evidence.judge_given
    touchmyapi.Policy.Engine.Evidence.parse_verification
    touchmyapi.Policy.Engine.Evidence.read_attestation
    touchmyapi.Policy.Engine.Evidence.judge_attestation
    touchmyapi.Policy.Engine.Evidence.judge_attested
    touchmyapi.Policy.Engine.Evidence.parse_attestation touchmyapi.Policy.Engine.Facts.code_eq
    touchmyapi.Policy.Engine.Facts.has_code_in touchmyapi.Policy.Engine.Facts.add_code
    touchmyapi.Policy.Engine.Facts.add_codes touchmyapi.Policy.Engine.Facts.denied
    touchmyapi.Policy.Engine.Facts.allowed touchmyapi.Policy.Engine.Facts.uuid_value
    touchmyapi.Policy.Engine.Facts.fingerprint_value touchmyapi.Policy.Engine.Facts.valid_utc
    touchmyapi.Policy.Engine.Playbook.texts_eq touchmyapi.Policy.Engine.Playbook.precondition_key
    touchmyapi.Policy.Engine.Playbook.precondition_keys
    touchmyapi.Policy.Engine.Playbook.preconditions_hold
    touchmyapi.Policy.Engine.Playbook.is_catalog touchmyapi.Policy.Engine.Playbook.egress_holds
    touchmyapi.Policy.Engine.Playbook.read_limits touchmyapi.Policy.Engine.Playbook.limits_hold
    touchmyapi.Policy.Engine.Playbook.evidence_holds
    touchmyapi.Policy.Engine.Playbook.finish_playbook
    touchmyapi.Policy.Engine.Playbook.parse_playbook
    touchmyapi.Policy.Engine.Playbook.Actions.action_map
    touchmyapi.Policy.Engine.Playbook.Actions.action_snapshot
    touchmyapi.Policy.Engine.Playbook.Actions.method_fits
    touchmyapi.Policy.Engine.Playbook.Actions.limit_fits
    touchmyapi.Policy.Engine.Playbook.Actions.add_capability
    touchmyapi.Policy.Engine.Playbook.Actions.authorized
    touchmyapi.Policy.Engine.Playbook.Actions.parse_action
    touchmyapi.Policy.Engine.Playbook.Actions.parse_actions
    touchmyapi.Policy.Engine.Snapshot.confirmed touchmyapi.Policy.Engine.Snapshot.snapshot_props
    touchmyapi.Policy.Engine.Snapshot.snapshot_object touchmyapi.Policy.Engine.Snapshot.find_index
    touchmyapi.Policy.Engine.Snapshot.snapshot_elems touchmyapi.Policy.Engine.Snapshot.is_digit_key
    touchmyapi.Policy.Engine.Snapshot.snapshot_array touchmyapi.Policy.Engine.Snapshot.exact_keys
    touchmyapi.Policy.Engine.Snapshot.exact_snapshot touchmyapi.Policy.Engine.Snapshot.unique_safe
    touchmyapi.Policy.Engine.Snapshot.unique_safe_strings touchmyapi.Policy.Entitlement.plan_of
    touchmyapi.Policy.Entitlement.is_plan touchmyapi.Policy.Entitlement.rights_by_plan
    touchmyapi.Policy.Host.canonical_ip touchmyapi.Policy.Host.forbidden_name
    touchmyapi.Policy.Host.drop_brackets touchmyapi.Policy.Host.is_forbidden_address
    touchmyapi.Policy.Host.is_host_code touchmyapi.Policy.Host.has_double_dot
    touchmyapi.Policy.Host.unbracket touchmyapi.Policy.Host.canonicalize_name
    touchmyapi.Policy.Host.canonicalize_host touchmyapi.Policy.Host.normalize_surface_host
    touchmyapi.Policy.Ipv4.is_octet_text touchmyapi.Policy.Ipv4.octets
    touchmyapi.Policy.Ipv4.parse_ipv4 touchmyapi.Policy.Ipv4.canonical_ipv4
    touchmyapi.Policy.Ipv4.is_forbidden_ipv4 touchmyapi.Policy.Ipv6.strip_brackets
    touchmyapi.Policy.Ipv6.expand_dotted touchmyapi.Policy.Ipv6.colon_parts
    touchmyapi.Policy.Ipv6.ipv6_parts touchmyapi.Policy.Ipv6.is_word_text
    touchmyapi.Policy.Ipv6.words touchmyapi.Policy.Ipv6.parse_ipv6 touchmyapi.Policy.Ipv6.end_run
    touchmyapi.Policy.Ipv6.scan_runs touchmyapi.Policy.Ipv6.pieces
    touchmyapi.Policy.Ipv6.double_front touchmyapi.Policy.Ipv6.canonical_ipv6
    touchmyapi.Policy.Ipv6.mapped_ipv4 touchmyapi.Policy.Ipv6.is_mapped
    touchmyapi.Policy.Ipv6.is_special_ipv6 touchmyapi.Policy.Ipv6.is_forbidden_ipv6
    touchmyapi.Policy.Limits.snapshot_entries touchmyapi.Policy.Limits.snapshot_record
    touchmyapi.Policy.Limits.validate_egress touchmyapi.Policy.Limits.validate_playbook
    touchmyapi.Policy.Limits.validate_requested touchmyapi.Policy.Limits.playbook_of
    touchmyapi.Policy.Limits.ceiling_of touchmyapi.Policy.Limits.requested_of
    touchmyapi.Policy.Limits.root_of touchmyapi.Policy.Limits.source_of
    touchmyapi.Policy.Limits.reduce_limits touchmyapi.Policy.Patterns.matches_classes
    touchmyapi.Policy.Patterns.is_uuid touchmyapi.Policy.Patterns.is_version_digit
    touchmyapi.Policy.Patterns.is_variant_digit touchmyapi.Policy.Patterns.is_strict_uuid
    touchmyapi.Policy.Patterns.is_alnum touchmyapi.Policy.Patterns.is_event_code
    touchmyapi.Policy.Patterns.is_version_code touchmyapi.Policy.Patterns.is_safe_version
    touchmyapi.Policy.Patterns.is_stripe_event touchmyapi.Policy.Patterns.is_fingerprint
    touchmyapi.Policy.Patterns.is_utc_fraction touchmyapi.Policy.Patterns.is_utc_tail
    touchmyapi.Policy.Patterns.matches_then touchmyapi.Policy.Patterns.is_utc_iso
    touchmyapi.Policy.Scope.path_matches touchmyapi.Policy.Scope.before_suffix
    touchmyapi.Policy.Scope.host_matches touchmyapi.Policy.Scope.rule_matches
    touchmyapi.Policy.Scope.target_in_scope touchmyapi.Policy.Scope.add_address
    touchmyapi.Policy.Scope.resolve_all touchmyapi.Policy.Scope.validate_name
    touchmyapi.Policy.Scope.matches_scope touchmyapi.Policy.Scope.validate_resolved_addresses
    touchmyapi.Policy.Target.has_ambiguous_path_encoding touchmyapi.Policy.Target.before_query
    touchmyapi.Policy.Target.raw_url_path touchmyapi.Policy.Target.has_empty_authority
    touchmyapi.Policy.Target.is_malformed_url touchmyapi.Policy.Target.malformed_code
    touchmyapi.Policy.Target.target_of touchmyapi.Policy.Target.normalize_parsed
    touchmyapi.Policy.Target.normalize_external_url
passive_allowed = refl

unknown_refused : unknown.allowed ≡ false
unfolding touchmyapi.Common.cut touchmyapi.Common.cut_last touchmyapi.Common.occurrences
    touchmyapi.Common.cut_at touchmyapi.Common.split touchmyapi.Common.join
    touchmyapi.Common.is_space touchmyapi.Common.trim_start touchmyapi.Common.trim
    touchmyapi.Common.lower_code touchmyapi.Common.lower touchmyapi.Common.drop_trailing
    touchmyapi.Common.is_control touchmyapi.Common.digit_value touchmyapi.Common.read_digits
    touchmyapi.Common.digit_code touchmyapi.Common.print_digits touchmyapi.Common.print_number
    touchmyapi.Common.Table.holds_below touchmyapi.Common.text_eq touchmyapi.Common.starts_with
    touchmyapi.Common.ends_with touchmyapi.Common.has_code touchmyapi.Common.mem_text
    touchmyapi.Common.is_digit touchmyapi.Common.is_letter touchmyapi.Common.is_hex
    touchmyapi.Js.own touchmyapi.Js.field touchmyapi.Js.key_in touchmyapi.Js.is_str
    touchmyapi.Js.positive_safe_integer touchmyapi.Policy.Ceiling.positive_own
    touchmyapi.Policy.Ceiling.validate_ceiling touchmyapi.Policy.Ceiling.requested_own
    touchmyapi.Policy.Ceiling.partial_ceiling touchmyapi.Policy.Ceiling.min_all
    touchmyapi.Policy.Ceiling.min_for touchmyapi.Policy.Ceiling.min_ceiling
    touchmyapi.Policy.Engine.Authorize.action_of
    touchmyapi.Policy.Engine.Authorize.is_target_category
    touchmyapi.Policy.Engine.Authorize.limit_code touchmyapi.Policy.Engine.Authorize.cap_limits
    touchmyapi.Policy.Engine.Authorize.limits_result touchmyapi.Policy.Engine.Authorize.scope_of
    touchmyapi.Policy.Engine.Authorize.read_parts touchmyapi.Policy.Engine.Authorize.Codes.has_any
    touchmyapi.Policy.Engine.Authorize.Codes.root_codes
    touchmyapi.Policy.Engine.Authorize.Codes.action_codes
    touchmyapi.Policy.Engine.Authorize.Codes.category_codes
    touchmyapi.Policy.Engine.Authorize.Codes.target_codes
    touchmyapi.Policy.Engine.Authorize.Codes.port_codes
    touchmyapi.Policy.Engine.Authorize.Codes.fingerprint_codes
    touchmyapi.Policy.Engine.Authorize.Codes.scope_codes
    touchmyapi.Policy.Engine.Authorize.Codes.address_codes
    touchmyapi.Policy.Engine.Authorize.Codes.attestation_codes
    touchmyapi.Policy.Engine.Authorize.Codes.verification_codes
    touchmyapi.Policy.Engine.Authorize.Codes.execution_codes
    touchmyapi.Policy.Engine.Authorize.Codes.part_codes
    touchmyapi.Policy.Engine.Authorize.Codes.effective_limits
    touchmyapi.Policy.Engine.Authorize.Codes.effective_action
    touchmyapi.Policy.Engine.Authorize.Codes.grant touchmyapi.Policy.Engine.Authorize.Codes.conclude
    touchmyapi.Policy.Engine.Authorize.Codes.decide
    touchmyapi.Policy.Engine.Authorize.Codes.authorize
    touchmyapi.Policy.Engine.Context.fingerprint_scope
    touchmyapi.Policy.Engine.Context.context_facts touchmyapi.Policy.Engine.Context.read_context
    touchmyapi.Policy.Engine.Context.parse_context touchmyapi.Policy.Engine.Entitlement.source_of
    touchmyapi.Policy.Engine.Entitlement.entitlement_facts touchmyapi.Policy.Engine.Entitlement.fits
    touchmyapi.Policy.Engine.Entitlement.fits_now
    touchmyapi.Policy.Engine.Entitlement.is_own_entitlement
    touchmyapi.Policy.Engine.Entitlement.judge_entitlement
    touchmyapi.Policy.Engine.Entitlement.parse_entitlement
    touchmyapi.Policy.Engine.Evidence.all_texts touchmyapi.Policy.Engine.Evidence.parse_target
    touchmyapi.Policy.Engine.Evidence.is_scope_malformed
    touchmyapi.Policy.Engine.Evidence.target_origin touchmyapi.Policy.Engine.Evidence.status_of
    touchmyapi.Policy.Engine.Evidence.read_verification
    touchmyapi.Policy.Engine.Evidence.judge_verification
    touchmyapi.Policy.Engine.Evidence.is_dns_method touchmyapi.Policy.Engine.Evidence.judge_given
    touchmyapi.Policy.Engine.Evidence.parse_verification
    touchmyapi.Policy.Engine.Evidence.read_attestation
    touchmyapi.Policy.Engine.Evidence.judge_attestation
    touchmyapi.Policy.Engine.Evidence.judge_attested
    touchmyapi.Policy.Engine.Evidence.parse_attestation touchmyapi.Policy.Engine.Facts.code_eq
    touchmyapi.Policy.Engine.Facts.has_code_in touchmyapi.Policy.Engine.Facts.add_code
    touchmyapi.Policy.Engine.Facts.add_codes touchmyapi.Policy.Engine.Facts.denied
    touchmyapi.Policy.Engine.Facts.allowed touchmyapi.Policy.Engine.Facts.uuid_value
    touchmyapi.Policy.Engine.Facts.fingerprint_value touchmyapi.Policy.Engine.Facts.valid_utc
    touchmyapi.Policy.Engine.Playbook.texts_eq touchmyapi.Policy.Engine.Playbook.precondition_key
    touchmyapi.Policy.Engine.Playbook.precondition_keys
    touchmyapi.Policy.Engine.Playbook.preconditions_hold
    touchmyapi.Policy.Engine.Playbook.is_catalog touchmyapi.Policy.Engine.Playbook.egress_holds
    touchmyapi.Policy.Engine.Playbook.read_limits touchmyapi.Policy.Engine.Playbook.limits_hold
    touchmyapi.Policy.Engine.Playbook.evidence_holds
    touchmyapi.Policy.Engine.Playbook.finish_playbook
    touchmyapi.Policy.Engine.Playbook.parse_playbook
    touchmyapi.Policy.Engine.Playbook.Actions.action_map
    touchmyapi.Policy.Engine.Playbook.Actions.action_snapshot
    touchmyapi.Policy.Engine.Playbook.Actions.method_fits
    touchmyapi.Policy.Engine.Playbook.Actions.limit_fits
    touchmyapi.Policy.Engine.Playbook.Actions.add_capability
    touchmyapi.Policy.Engine.Playbook.Actions.authorized
    touchmyapi.Policy.Engine.Playbook.Actions.parse_action
    touchmyapi.Policy.Engine.Playbook.Actions.parse_actions
    touchmyapi.Policy.Engine.Snapshot.confirmed touchmyapi.Policy.Engine.Snapshot.snapshot_props
    touchmyapi.Policy.Engine.Snapshot.snapshot_object touchmyapi.Policy.Engine.Snapshot.find_index
    touchmyapi.Policy.Engine.Snapshot.snapshot_elems touchmyapi.Policy.Engine.Snapshot.is_digit_key
    touchmyapi.Policy.Engine.Snapshot.snapshot_array touchmyapi.Policy.Engine.Snapshot.exact_keys
    touchmyapi.Policy.Engine.Snapshot.exact_snapshot touchmyapi.Policy.Engine.Snapshot.unique_safe
    touchmyapi.Policy.Engine.Snapshot.unique_safe_strings touchmyapi.Policy.Entitlement.plan_of
    touchmyapi.Policy.Entitlement.is_plan touchmyapi.Policy.Entitlement.rights_by_plan
    touchmyapi.Policy.Host.canonical_ip touchmyapi.Policy.Host.forbidden_name
    touchmyapi.Policy.Host.drop_brackets touchmyapi.Policy.Host.is_forbidden_address
    touchmyapi.Policy.Host.is_host_code touchmyapi.Policy.Host.has_double_dot
    touchmyapi.Policy.Host.unbracket touchmyapi.Policy.Host.canonicalize_name
    touchmyapi.Policy.Host.canonicalize_host touchmyapi.Policy.Host.normalize_surface_host
    touchmyapi.Policy.Ipv4.is_octet_text touchmyapi.Policy.Ipv4.octets
    touchmyapi.Policy.Ipv4.parse_ipv4 touchmyapi.Policy.Ipv4.canonical_ipv4
    touchmyapi.Policy.Ipv4.is_forbidden_ipv4 touchmyapi.Policy.Ipv6.strip_brackets
    touchmyapi.Policy.Ipv6.expand_dotted touchmyapi.Policy.Ipv6.colon_parts
    touchmyapi.Policy.Ipv6.ipv6_parts touchmyapi.Policy.Ipv6.is_word_text
    touchmyapi.Policy.Ipv6.words touchmyapi.Policy.Ipv6.parse_ipv6 touchmyapi.Policy.Ipv6.end_run
    touchmyapi.Policy.Ipv6.scan_runs touchmyapi.Policy.Ipv6.pieces
    touchmyapi.Policy.Ipv6.double_front touchmyapi.Policy.Ipv6.canonical_ipv6
    touchmyapi.Policy.Ipv6.mapped_ipv4 touchmyapi.Policy.Ipv6.is_mapped
    touchmyapi.Policy.Ipv6.is_special_ipv6 touchmyapi.Policy.Ipv6.is_forbidden_ipv6
    touchmyapi.Policy.Limits.snapshot_entries touchmyapi.Policy.Limits.snapshot_record
    touchmyapi.Policy.Limits.validate_egress touchmyapi.Policy.Limits.validate_playbook
    touchmyapi.Policy.Limits.validate_requested touchmyapi.Policy.Limits.playbook_of
    touchmyapi.Policy.Limits.ceiling_of touchmyapi.Policy.Limits.requested_of
    touchmyapi.Policy.Limits.root_of touchmyapi.Policy.Limits.source_of
    touchmyapi.Policy.Limits.reduce_limits touchmyapi.Policy.Patterns.matches_classes
    touchmyapi.Policy.Patterns.is_uuid touchmyapi.Policy.Patterns.is_version_digit
    touchmyapi.Policy.Patterns.is_variant_digit touchmyapi.Policy.Patterns.is_strict_uuid
    touchmyapi.Policy.Patterns.is_alnum touchmyapi.Policy.Patterns.is_event_code
    touchmyapi.Policy.Patterns.is_version_code touchmyapi.Policy.Patterns.is_safe_version
    touchmyapi.Policy.Patterns.is_stripe_event touchmyapi.Policy.Patterns.is_fingerprint
    touchmyapi.Policy.Patterns.is_utc_fraction touchmyapi.Policy.Patterns.is_utc_tail
    touchmyapi.Policy.Patterns.matches_then touchmyapi.Policy.Patterns.is_utc_iso
    touchmyapi.Policy.Scope.path_matches touchmyapi.Policy.Scope.before_suffix
    touchmyapi.Policy.Scope.host_matches touchmyapi.Policy.Scope.rule_matches
    touchmyapi.Policy.Scope.target_in_scope touchmyapi.Policy.Scope.add_address
    touchmyapi.Policy.Scope.resolve_all touchmyapi.Policy.Scope.validate_name
    touchmyapi.Policy.Scope.matches_scope touchmyapi.Policy.Scope.validate_resolved_addresses
    touchmyapi.Policy.Target.has_ambiguous_path_encoding touchmyapi.Policy.Target.before_query
    touchmyapi.Policy.Target.raw_url_path touchmyapi.Policy.Target.has_empty_authority
    touchmyapi.Policy.Target.is_malformed_url touchmyapi.Policy.Target.malformed_code
    touchmyapi.Policy.Target.target_of touchmyapi.Policy.Target.normalize_parsed
    touchmyapi.Policy.Target.normalize_external_url
unknown_refused = refl

abbrev published : ParsedPlaybook
published = record {
  actions = published_actions;
  action_ids =
      codes "dns.records"
      ∷ codes "tls.cert"
      ∷ codes "http.headers"
      ∷ codes "robots.txt"
      ∷ codes "sitemap.xml"
      ∷ codes "endpoint.minimal"
      ∷ [];
  capabilities = published_capabilities;
  limits = record { duration_s = 300; concurrency = 1; rate_per_min = 10 };
}

playbook_parsed : parse_playbook playbook (codes "surface") ≡ ok published
unfolding touchmyapi.Common.cut touchmyapi.Common.cut_last touchmyapi.Common.occurrences
    touchmyapi.Common.cut_at touchmyapi.Common.split touchmyapi.Common.join
    touchmyapi.Common.is_space touchmyapi.Common.trim_start touchmyapi.Common.trim
    touchmyapi.Common.lower_code touchmyapi.Common.lower touchmyapi.Common.drop_trailing
    touchmyapi.Common.is_control touchmyapi.Common.digit_value touchmyapi.Common.read_digits
    touchmyapi.Common.digit_code touchmyapi.Common.print_digits touchmyapi.Common.print_number
    touchmyapi.Common.Table.holds_below touchmyapi.Common.text_eq touchmyapi.Common.starts_with
    touchmyapi.Common.ends_with touchmyapi.Common.has_code touchmyapi.Common.mem_text
    touchmyapi.Common.is_digit touchmyapi.Common.is_letter touchmyapi.Common.is_hex
    touchmyapi.Js.own touchmyapi.Js.field touchmyapi.Js.key_in touchmyapi.Js.is_str
    touchmyapi.Js.positive_safe_integer touchmyapi.Policy.Ceiling.positive_own
    touchmyapi.Policy.Ceiling.validate_ceiling touchmyapi.Policy.Ceiling.requested_own
    touchmyapi.Policy.Ceiling.partial_ceiling touchmyapi.Policy.Ceiling.min_all
    touchmyapi.Policy.Ceiling.min_for touchmyapi.Policy.Ceiling.min_ceiling
    touchmyapi.Policy.Engine.Authorize.action_of
    touchmyapi.Policy.Engine.Authorize.is_target_category
    touchmyapi.Policy.Engine.Authorize.limit_code touchmyapi.Policy.Engine.Authorize.cap_limits
    touchmyapi.Policy.Engine.Authorize.limits_result touchmyapi.Policy.Engine.Authorize.scope_of
    touchmyapi.Policy.Engine.Authorize.read_parts touchmyapi.Policy.Engine.Authorize.Codes.has_any
    touchmyapi.Policy.Engine.Authorize.Codes.root_codes
    touchmyapi.Policy.Engine.Authorize.Codes.action_codes
    touchmyapi.Policy.Engine.Authorize.Codes.category_codes
    touchmyapi.Policy.Engine.Authorize.Codes.target_codes
    touchmyapi.Policy.Engine.Authorize.Codes.port_codes
    touchmyapi.Policy.Engine.Authorize.Codes.fingerprint_codes
    touchmyapi.Policy.Engine.Authorize.Codes.scope_codes
    touchmyapi.Policy.Engine.Authorize.Codes.address_codes
    touchmyapi.Policy.Engine.Authorize.Codes.attestation_codes
    touchmyapi.Policy.Engine.Authorize.Codes.verification_codes
    touchmyapi.Policy.Engine.Authorize.Codes.execution_codes
    touchmyapi.Policy.Engine.Authorize.Codes.part_codes
    touchmyapi.Policy.Engine.Authorize.Codes.effective_limits
    touchmyapi.Policy.Engine.Authorize.Codes.effective_action
    touchmyapi.Policy.Engine.Authorize.Codes.grant touchmyapi.Policy.Engine.Authorize.Codes.conclude
    touchmyapi.Policy.Engine.Authorize.Codes.decide
    touchmyapi.Policy.Engine.Authorize.Codes.authorize
    touchmyapi.Policy.Engine.Context.fingerprint_scope
    touchmyapi.Policy.Engine.Context.context_facts touchmyapi.Policy.Engine.Context.read_context
    touchmyapi.Policy.Engine.Context.parse_context touchmyapi.Policy.Engine.Entitlement.source_of
    touchmyapi.Policy.Engine.Entitlement.entitlement_facts touchmyapi.Policy.Engine.Entitlement.fits
    touchmyapi.Policy.Engine.Entitlement.fits_now
    touchmyapi.Policy.Engine.Entitlement.is_own_entitlement
    touchmyapi.Policy.Engine.Entitlement.judge_entitlement
    touchmyapi.Policy.Engine.Entitlement.parse_entitlement
    touchmyapi.Policy.Engine.Evidence.all_texts touchmyapi.Policy.Engine.Evidence.parse_target
    touchmyapi.Policy.Engine.Evidence.is_scope_malformed
    touchmyapi.Policy.Engine.Evidence.target_origin touchmyapi.Policy.Engine.Evidence.status_of
    touchmyapi.Policy.Engine.Evidence.read_verification
    touchmyapi.Policy.Engine.Evidence.judge_verification
    touchmyapi.Policy.Engine.Evidence.is_dns_method touchmyapi.Policy.Engine.Evidence.judge_given
    touchmyapi.Policy.Engine.Evidence.parse_verification
    touchmyapi.Policy.Engine.Evidence.read_attestation
    touchmyapi.Policy.Engine.Evidence.judge_attestation
    touchmyapi.Policy.Engine.Evidence.judge_attested
    touchmyapi.Policy.Engine.Evidence.parse_attestation touchmyapi.Policy.Engine.Facts.code_eq
    touchmyapi.Policy.Engine.Facts.has_code_in touchmyapi.Policy.Engine.Facts.add_code
    touchmyapi.Policy.Engine.Facts.add_codes touchmyapi.Policy.Engine.Facts.denied
    touchmyapi.Policy.Engine.Facts.allowed touchmyapi.Policy.Engine.Facts.uuid_value
    touchmyapi.Policy.Engine.Facts.fingerprint_value touchmyapi.Policy.Engine.Facts.valid_utc
    touchmyapi.Policy.Engine.Playbook.texts_eq touchmyapi.Policy.Engine.Playbook.precondition_key
    touchmyapi.Policy.Engine.Playbook.precondition_keys
    touchmyapi.Policy.Engine.Playbook.preconditions_hold
    touchmyapi.Policy.Engine.Playbook.is_catalog touchmyapi.Policy.Engine.Playbook.egress_holds
    touchmyapi.Policy.Engine.Playbook.read_limits touchmyapi.Policy.Engine.Playbook.limits_hold
    touchmyapi.Policy.Engine.Playbook.evidence_holds
    touchmyapi.Policy.Engine.Playbook.finish_playbook
    touchmyapi.Policy.Engine.Playbook.parse_playbook
    touchmyapi.Policy.Engine.Playbook.Actions.action_map
    touchmyapi.Policy.Engine.Playbook.Actions.action_snapshot
    touchmyapi.Policy.Engine.Playbook.Actions.method_fits
    touchmyapi.Policy.Engine.Playbook.Actions.limit_fits
    touchmyapi.Policy.Engine.Playbook.Actions.add_capability
    touchmyapi.Policy.Engine.Playbook.Actions.authorized
    touchmyapi.Policy.Engine.Playbook.Actions.parse_action
    touchmyapi.Policy.Engine.Playbook.Actions.parse_actions
    touchmyapi.Policy.Engine.Snapshot.confirmed touchmyapi.Policy.Engine.Snapshot.snapshot_props
    touchmyapi.Policy.Engine.Snapshot.snapshot_object touchmyapi.Policy.Engine.Snapshot.find_index
    touchmyapi.Policy.Engine.Snapshot.snapshot_elems touchmyapi.Policy.Engine.Snapshot.is_digit_key
    touchmyapi.Policy.Engine.Snapshot.snapshot_array touchmyapi.Policy.Engine.Snapshot.exact_keys
    touchmyapi.Policy.Engine.Snapshot.exact_snapshot touchmyapi.Policy.Engine.Snapshot.unique_safe
    touchmyapi.Policy.Engine.Snapshot.unique_safe_strings touchmyapi.Policy.Entitlement.plan_of
    touchmyapi.Policy.Entitlement.is_plan touchmyapi.Policy.Entitlement.rights_by_plan
    touchmyapi.Policy.Host.canonical_ip touchmyapi.Policy.Host.forbidden_name
    touchmyapi.Policy.Host.drop_brackets touchmyapi.Policy.Host.is_forbidden_address
    touchmyapi.Policy.Host.is_host_code touchmyapi.Policy.Host.has_double_dot
    touchmyapi.Policy.Host.unbracket touchmyapi.Policy.Host.canonicalize_name
    touchmyapi.Policy.Host.canonicalize_host touchmyapi.Policy.Host.normalize_surface_host
    touchmyapi.Policy.Ipv4.is_octet_text touchmyapi.Policy.Ipv4.octets
    touchmyapi.Policy.Ipv4.parse_ipv4 touchmyapi.Policy.Ipv4.canonical_ipv4
    touchmyapi.Policy.Ipv4.is_forbidden_ipv4 touchmyapi.Policy.Ipv6.strip_brackets
    touchmyapi.Policy.Ipv6.expand_dotted touchmyapi.Policy.Ipv6.colon_parts
    touchmyapi.Policy.Ipv6.ipv6_parts touchmyapi.Policy.Ipv6.is_word_text
    touchmyapi.Policy.Ipv6.words touchmyapi.Policy.Ipv6.parse_ipv6 touchmyapi.Policy.Ipv6.end_run
    touchmyapi.Policy.Ipv6.scan_runs touchmyapi.Policy.Ipv6.pieces
    touchmyapi.Policy.Ipv6.double_front touchmyapi.Policy.Ipv6.canonical_ipv6
    touchmyapi.Policy.Ipv6.mapped_ipv4 touchmyapi.Policy.Ipv6.is_mapped
    touchmyapi.Policy.Ipv6.is_special_ipv6 touchmyapi.Policy.Ipv6.is_forbidden_ipv6
    touchmyapi.Policy.Limits.snapshot_entries touchmyapi.Policy.Limits.snapshot_record
    touchmyapi.Policy.Limits.validate_egress touchmyapi.Policy.Limits.validate_playbook
    touchmyapi.Policy.Limits.validate_requested touchmyapi.Policy.Limits.playbook_of
    touchmyapi.Policy.Limits.ceiling_of touchmyapi.Policy.Limits.requested_of
    touchmyapi.Policy.Limits.root_of touchmyapi.Policy.Limits.source_of
    touchmyapi.Policy.Limits.reduce_limits touchmyapi.Policy.Patterns.matches_classes
    touchmyapi.Policy.Patterns.is_uuid touchmyapi.Policy.Patterns.is_version_digit
    touchmyapi.Policy.Patterns.is_variant_digit touchmyapi.Policy.Patterns.is_strict_uuid
    touchmyapi.Policy.Patterns.is_alnum touchmyapi.Policy.Patterns.is_event_code
    touchmyapi.Policy.Patterns.is_version_code touchmyapi.Policy.Patterns.is_safe_version
    touchmyapi.Policy.Patterns.is_stripe_event touchmyapi.Policy.Patterns.is_fingerprint
    touchmyapi.Policy.Patterns.is_utc_fraction touchmyapi.Policy.Patterns.is_utc_tail
    touchmyapi.Policy.Patterns.matches_then touchmyapi.Policy.Patterns.is_utc_iso
    touchmyapi.Policy.Scope.path_matches touchmyapi.Policy.Scope.before_suffix
    touchmyapi.Policy.Scope.host_matches touchmyapi.Policy.Scope.rule_matches
    touchmyapi.Policy.Scope.target_in_scope touchmyapi.Policy.Scope.add_address
    touchmyapi.Policy.Scope.resolve_all touchmyapi.Policy.Scope.validate_name
    touchmyapi.Policy.Scope.matches_scope touchmyapi.Policy.Scope.validate_resolved_addresses
    touchmyapi.Policy.Target.has_ambiguous_path_encoding touchmyapi.Policy.Target.before_query
    touchmyapi.Policy.Target.raw_url_path touchmyapi.Policy.Target.has_empty_authority
    touchmyapi.Policy.Target.is_malformed_url touchmyapi.Policy.Target.malformed_code
    touchmyapi.Policy.Target.target_of touchmyapi.Policy.Target.normalize_parsed
    touchmyapi.Policy.Target.normalize_external_url
playbook_parsed = refl

parse_playbook-IsPublished_example : IsPublished published
parse_playbook-IsPublished_example =
    parse_playbook-IsPublished playbook (codes "surface") published playbook_parsed

authorize-IsAuthorized_example :
    (root : Snapshot) × (snapshot_object (request "passive_external") none ≡ some root)
    × IsAuthorized platform registry root passive
authorize-IsAuthorized_example =
    authorize-IsAuthorized platform registry (request "passive_external") passive_allowed

authorize-IsGranted_example :
    (root : Snapshot) × (snapshot_object (request "passive_external") none ≡ some root)
    × ((a : IsAuthorized platform registry root passive) × IsGranted root a.plan passive)
authorize-IsGranted_example =
    authorize-IsGranted platform registry (request "passive_external") passive_allowed

authorize-IsRefusal_example : IsRefusal unknown × (is_empty unknown.blocked ≡ false)
authorize-IsRefusal_example = authorize-IsRefusal platform registry (request "scan") unknown_refused
