-- ===== src/Audit/Normalized.antt =====
-- packages/db/src/audit.ts: which input is accepted, and what becomes of it.
use mathlib.Core.Path.{subst}
use touchmyapi.Common.{
  ℕ, ◌≡◌, refl, arith, Bool, true, false, List, [], ◌∷◌, Option, some, Text, any, trim, is_empty,
  length, leb, mem_text, ◌==◌, ◌&&◌, ◌||◌, not, Bool-cases, inl, inr, if◌then◌else◌,
}
use touchmyapi.Common.Maybe.{◌>>=◌, ◌>>◌, check, >>=-eq-some, check-eq-some}
use touchmyapi.Js.{Value, Descriptor, Props, Key, Proto, as_str}
use touchmyapi.Reporting.Text.{is_pem}
use touchmyapi.Reporting.Sanitize.{is_finite, put, is_index}
use touchmyapi.Audit.{
  hides, has_jwt, has_symbol, is_plain_proto, redacted_value, redact_value, redact_props, add_entry,
  audit_actions, AuditAppendInput, NormalizedInput, optional_uuid, redact_payload, normalize_input,
}
use touchmyapi.Audit.Hidden.{is_hidden, is_hidden-redact_payload}

abbrev pub is_free : ℕ → List ℕ → Bool
is_free id seen = not (any (λ i. i == id) seen)

unfoldable mutual
  -- Plain JSON data: finite numbers, data properties with names, no foreign prototype, and no object
  -- within itself.
  pub is_plain : List ℕ → Value → Bool
  is_plain seen Value.null = true
  is_plain seen (Value.bool b) = true
  is_plain seen (Value.num n) = is_finite n
  is_plain seen (Value.str t) = true
  is_plain seen (Value.arr id len ps) = is_free id seen && are_plain (id ∷ seen) ps
  is_plain seen (Value.obj id proto ps) =
      (is_free id seen && is_plain_proto proto && not (has_symbol ps)) && are_plain (id ∷ seen) ps
  is_plain seen _ = false

  pub are_plain : List ℕ → Props → Bool
  are_plain seen Props.end = true
  are_plain seen (Props.prop k (Descriptor.plain v) ps) = is_plain seen v && are_plain seen ps
  are_plain seen (Props.prop k _ ps) = false

both : (a b : Bool) → (a && b) ≡ true → (a ≡ true) × (b ≡ true)
both a b h = ground arith

copied :
    (free : Bool) (r : Option Props) (make : Props → Value)
    → free ≡ true
    → (qs : Props) × (r ≡ some qs)
    → (w : Value) × ((check free >> (r >>= λ qs. some (make qs))) ≡ some w)
copied free r make f (qs, e) = (make qs, rw (f, e) refl)

added :
    (keyed : Bool) (k : Key) (clean : Option Value) (rest : Option Props)
    → (w : Value) × (clean ≡ some w)
    → (qs : Props) × (rest ≡ some qs)
    → (out : Props) × (add_entry keyed k clean rest ≡ some out)
unfolding add_entry
added true k clean rest (w, e) (qs, f) = elim (Bool-cases (hides k)) [
  | inl hidden ↦ (put k redacted_value qs, rw (hidden, f) refl)
  | inr open_key ↦ (put k w qs, rw (open_key, e, f) refl)
]
added false k clean rest (w, e) (qs, f) = elim (Bool-cases (is_index k)) [
  | inl element ↦ (put k w qs, rw (element, e, f) refl)
  | inr other ↦ (qs, rw (other, f) refl)
]

string-returns :
    (t : Text)
    → (w : Value) × ((if has_jwt t || is_pem t then some redacted_value else some (Value.str t))
        ≡ some w)
string-returns t = elim (Bool-cases (has_jwt t || is_pem t)) [
  | inl secret ↦ (redacted_value, rw secret refl)
  | inr harmless ↦ (Value.str t, rw harmless refl)
]

mutual
  unfolding redact_value redact_props is_plain are_plain

  value-returns :
      (seen : List ℕ) (v : Value)
      → is_plain seen v ≡ true
      → (w : Value) × (redact_value seen v ≡ some w)
  value-returns seen Value.null h = (Value.null, refl)
  value-returns seen (Value.bool b) h = (Value.bool b, refl)
  value-returns seen (Value.num n) h = (Value.num n, rw h refl)
  value-returns seen (Value.str t) h = string-returns t
  value-returns seen (Value.arr id len ps) h =
      let (f, d) = both (is_free id seen) (are_plain (id ∷ seen) ps) h in
      copied (is_free id seen) (redact_props false (id ∷ seen) ps) (λ qs. Value.arr 0 len qs) f
        (props-return false (id ∷ seen) ps d)
  value-returns seen (Value.obj id proto ps) h =
      let (f, d) =
        both (is_free id seen && is_plain_proto proto && not (has_symbol ps))
          (are_plain (id ∷ seen) ps) h in
      copied (is_free id seen && is_plain_proto proto && not (has_symbol ps))
        (redact_props true (id ∷ seen) ps) (λ qs. Value.obj 0 Proto.object_proto qs) f
        (props-return true (id ∷ seen) ps d)
  value-returns seen Value.undefined h = cc
  value-returns seen Value.unnamed h = cc
  value-returns seen Value.func h = cc
  value-returns seen Value.hostile h = cc

  props-return :
      (keyed : Bool) (seen : List ℕ) (ps : Props)
      → are_plain seen ps ≡ true
      → (qs : Props) × (redact_props keyed seen ps ≡ some qs)
  props-return keyed seen Props.end h = (Props.end, refl)
  props-return keyed seen (Props.prop k (Descriptor.plain v) ps) h =
      let (d, more) = both (is_plain seen v) (are_plain seen ps) h in
      added keyed k (redact_value seen v) (redact_props keyed seen ps) (value-returns seen v d)
        (props-return keyed seen ps more)
  props-return keyed seen (Props.prop k (Descriptor.lying v) ps) h = cc
  props-return keyed seen (Props.prop k Descriptor.missing ps) h = cc
  props-return keyed seen (Props.prop k Descriptor.accessor ps) h = cc

-- An input with a payload of plain data.
pub record IsAcceptable (input : AuditAppendInput) : Type 0 where
  pub actor : Text
  pub actor_is : input.actor ≡ Value.str actor
  pub actor_fits : (not (is_empty (trim actor)) && leb (length actor) 256) ≡ true
  pub action : Text
  pub action_is : input.action ≡ Value.str action
  pub known : mem_text action audit_actions ≡ true
  pub assessment : Option Text
  pub assessment_is : optional_uuid input.assessment_id ≡ some assessment
  pub job : Option Text
  pub job_is : optional_uuid input.job_id ≡ some job
  pub id : ℕ
  pub proto : Proto
  pub entries : Props
  pub payload_is : input.payload ≡ Value.obj id proto entries
  pub plain_data : is_plain [] input.payload ≡ true

-- What the event is made of.
pub record IsNormalized (input : AuditAppendInput) (n : NormalizedInput) : Type 0 where
  pub actor_is : as_str input.actor ≡ some n.actor
  pub actor_fits : (not (is_empty (trim n.actor)) && leb (length n.actor) 256) ≡ true
  pub action_is : as_str input.action ≡ some n.action
  pub known : mem_text n.action audit_actions ≡ true
  pub assessment_is : optional_uuid input.assessment_id ≡ some n.assessment_id
  pub job_is : optional_uuid input.job_id ≡ some n.job_id
  pub payload_is : redact_payload input.payload ≡ some n.payload
  pub hidden : is_hidden n.payload ≡ true

payload-returns :
    (v : Value) (id : ℕ) (proto : Proto) (ps : Props)
    → v ≡ Value.obj id proto ps
    → is_plain [] v ≡ true
    → (w : Value) × (redact_payload v ≡ some w)
unfolding redact_payload
payload-returns v id proto ps e h =
    let (w, r) = value-returns [] (Value.obj id proto ps) (rw e at h) in (w, rw e r)

-- An input with a fitting actor, a known action, no malformed UUID and a payload of plain data is
-- always accepted.
pub normalize_input-returns :
    (input : AuditAppendInput)
    → IsAcceptable input
    → (n : NormalizedInput) × (normalize_input input ≡ some n)
unfolding normalize_input
normalize_input-returns input a =
    let (w, e) = payload-returns input.payload a.id a.proto a.entries a.payload_is a.plain_data in
    (
      record {
        actor = a.actor;
        action = a.action;
        payload = w;
        assessment_id = a.assessment;
        job_id = a.job;
      },
      rw (a.actor_is, a.actor_fits, a.action_is, a.known, a.assessment_is, a.job_is, e) refl,
    )

-- Whatever the input is, what is accepted has a fitting actor, a known action and no malformed UUID,
-- keeps these, and has a payload in which, at any depth, every entry whose key names a secret, a
-- private key among these, is redacted.
pub normalize_input-IsNormalized :
    (input : AuditAppendInput) (n : NormalizedInput)
    → normalize_input input ≡ some n
    → IsNormalized input n
unfolding normalize_input
normalize_input-IsNormalized input n h =
    let (actor, e1, k1) = >>=-eq-some (as_str input.actor) _ h in
    let (u, e2, k2) =
      >>=-eq-some (check (not (is_empty (trim actor)) && leb (length actor) 256)) _ k1 in
    let (action, e3, k3) = >>=-eq-some (as_str input.action) _ k2 in
    let (u4, e4, k4) = >>=-eq-some (check (mem_text action audit_actions)) _ k3 in
    let (assessment, e5, k5) = >>=-eq-some (optional_uuid input.assessment_id) _ k4 in
    let (job, e6, k6) = >>=-eq-some (optional_uuid input.job_id) _ k5 in
    let (payload, e7, k7) = >>=-eq-some (redact_payload input.payload) _ k6 in
    let made : NormalizedInput = record {
      actor = actor;
      action = action;
      payload = payload;
      assessment_id = assessment;
      job_id = job;
    } in
    let same : made ≡ n = ground arith in
    subst (IsNormalized input) same (record {
      actor_is = e1;
      actor_fits = check-eq-some _ e2;
      action_is = e3;
      known = check-eq-some _ e4;
      assessment_is = e5;
      job_is = e6;
      payload_is = e7;
      hidden = is_hidden-redact_payload input.payload payload e7;
    })
