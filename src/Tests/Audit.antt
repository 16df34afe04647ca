-- ===== src/Tests/Audit.antt =====
-- An audit event with a credential in its payload.
use touchmyapi.Common.{
  ◌≡◌, refl, [], ◌∷◌, none, some, codes, trim, trim_start, is_space, text_eq, mem_text,
}
use touchmyapi.Js.{undefined, object_proto}
use touchmyapi.Audit.{AuditAppendInput, NormalizedInput, optional_uuid, normalize_input}
use touchmyapi.Audit.Normalized.{
  is_plain, IsAcceptable, IsNormalized, normalize_input-returns, normalize_input-IsNormalized,
}
use touchmyapi.Tests.Request.{text, number, fields, object}

abbrev login : AuditAppendInput
login = record {
  actor = text "api";
  action = text "authz";
  payload = object (("status", number 200) ∷ ("password", text "abc") ∷ []);
  assessment_id = undefined;
  job_id = undefined;
}

login-IsAcceptable : IsAcceptable login
unfolding trim trim_start is_space text_eq mem_text optional_uuid is_plain
login-IsAcceptable = record {
  actor = codes "api";
  actor_is = refl;
  actor_fits = refl;
  action = codes "authz";
  action_is = refl;
  known = refl;
  assessment = none;
  assessment_is = refl;
  job = none;
  job_is = refl;
  id = 0;
  proto = object_proto;
  entries = fields (("status", number 200) ∷ ("password", text "abc") ∷ []);
  payload_is = refl;
  plain_data = refl;
}

normalize_input-returns_example : (n : NormalizedInput) × (normalize_input login ≡ some n)
normalize_input-returns_example = normalize_input-returns login login-IsAcceptable

abbrev event : NormalizedInput
event = (normalize_input-returns login login-IsAcceptable).0

normalize_input-IsNormalized_example : IsNormalized login event
normalize_input-IsNormalized_example =
    normalize_input-IsNormalized login event (normalize_input-returns login login-IsAcceptable).1
