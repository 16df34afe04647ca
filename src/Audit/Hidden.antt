-- ===== src/Audit/Hidden.antt =====
-- packages/db/src/audit.ts: an audit event carries no value under a key that names a secret.
use mathlib.Core.Path.{subst}
use touchmyapi.Common.{
  ℕ, ◌≡◌, refl, arith, Bool, true, false, List, [], ◌∷◌, Option, none, some, Text, codes, text_eq,
  lower, ◌&&◌, ◌||◌, not, Bool-cases, inl, inr,
}
use touchmyapi.Common.Maybe.{◌>>=◌, ◌>>◌, check, >>=-eq-some}
use touchmyapi.Js.{Value, Descriptor, Props, Key, Proto, is_name}
use touchmyapi.Contracts.Redacted.{contains}
use touchmyapi.Reporting.Text.{redacted}
use touchmyapi.Reporting.Sanitize.{put, is_index}
use touchmyapi.Audit.{
  is_sensitive, hides, redacted_value, redact_value, redact_props, add_entry, redact_payload,
}

-- The names that an audit event hides, apart from the pattern of the code: the case of the letters
-- aside, what contains one of eight words, of which two are written in three ways.
abbrev pub names_secret : Text → Bool
names_secret t =
    let u = lower t in
    contains (codes "secret") u
    || contains (codes "token") u
    || contains (codes "password") u
    || contains (codes "credential") u
    || contains (codes "authorization") u
    || contains (codes "cookie") u
    || (contains (codes "apikey") u || contains (codes "api_key") u || contains (codes "api-key") u)
    || (contains (codes "privatekey") u
        || contains (codes "private_key") u
        || contains (codes "private-key") u)

abbrev pub is_secret_key : Key → Bool
is_secret_key (Key.name s) = names_secret (codes s)
is_secret_key _ = false

abbrev pub is_redacted : Value → Bool
is_redacted (Value.str t) = text_eq t redacted
is_redacted _ = false

unfoldable mutual
  -- Every entry whose key names a secret has a redacted value, at any depth.
  pub is_hidden : Value → Bool
  is_hidden (Value.obj id proto ps) = are_hidden true ps
  is_hidden (Value.arr id len ps) = are_hidden false ps
  is_hidden _ = true

  pub are_hidden : Bool → Props → Bool
  are_hidden keyed Props.end = true
  are_hidden keyed (Props.prop k (Descriptor.plain v) ps) =
      (not (keyed && is_secret_key k) || is_redacted v) && is_hidden v && are_hidden keyed ps
  are_hidden keyed (Props.prop k _ ps) = false

names_secret-hides : (t : Text) → names_secret t ≡ true → is_sensitive t ≡ true
unfolding is_sensitive
names_secret-hides t h = ground arith

is_secret_key-hides : (k : Key) → hides k ≡ false → is_secret_key k ≡ false
unfolding hides
is_secret_key-hides (Key.name s) h = ground (arith, names_secret-hides (codes s))
is_secret_key-hides (Key.index i) h = refl
is_secret_key-hides Key.symbol h = refl

or_true : (b : Bool) → (b || true) ≡ true
or_true b = ground arith

put-hidden :
    (keyed : Bool) (k : Key) (w : Value) (qs : Props)
    → (not (keyed && is_secret_key k) || is_redacted w) ≡ true
    → is_hidden w ≡ true
    → are_hidden keyed qs ≡ true
    → are_hidden keyed (put k w qs) ≡ true
unfolding are_hidden is_hidden
put-hidden keyed k w qs h c q = elim (Bool-cases (is_name "__proto__" k)) [
  | inl proto ↦ rw proto q
  | inr other ↦ rw (other, h, c, q) refl
]

kept-hidden :
    (keyed : Bool) (k : Key) (clean : Option Value) (rest : Option Props) (out : Props)
    → (keyed && is_secret_key k) ≡ false
    → ((w : Value) → clean ≡ some w → is_hidden w ≡ true)
    → ((qs : Props) → rest ≡ some qs → are_hidden keyed qs ≡ true)
    → (do w ← clean; qs ← rest; some (put k w qs)) ≡ some out
    → are_hidden keyed out ≡ true
kept-hidden keyed k clean rest out f c q h =
    let (w, e, more) = >>=-eq-some clean _ h in
    let (qs, e2, last) = >>=-eq-some rest _ more in
    let same : put k w qs ≡ out = ground arith in
    subst (λ ps. are_hidden keyed ps ≡ true) same
      (put-hidden keyed k w qs (rw f refl) (c w e) (q qs e2))

entry-hidden :
    (keyed : Bool) (k : Key) (clean : Option Value) (rest : Option Props) (out : Props)
    → ((w : Value) → clean ≡ some w → is_hidden w ≡ true)
    → ((qs : Props) → rest ≡ some qs → are_hidden keyed qs ≡ true)
    → add_entry keyed k clean rest ≡ some out
    → are_hidden keyed out ≡ true
unfolding add_entry is_hidden text_eq
entry-hidden false k clean rest out c q h = elim (Bool-cases (is_index k)) [
  | inl element ↦ kept-hidden false k clean rest out refl c q (rw element at h)
  | inr other ↦ q out (rw other at h)
]
entry-hidden true k clean rest out c q h = elim (Bool-cases (hides k)) [
  | inl hidden ↦
      let (qs, e, last) = >>=-eq-some rest _ (rw hidden at h) in
      let same : put k redacted_value qs ≡ out = ground arith in
      subst (λ ps. are_hidden true ps ≡ true) same
        (put-hidden true k redacted_value qs (or_true (not (is_secret_key k))) refl (q qs e))
  | inr open_key ↦
      kept-hidden true k clean rest out (is_secret_key-hides k open_key) c q (rw open_key at h)
]

-- A copy that is made of copied properties.
copy-hidden :
    (free : Bool) (r : Option Props) (make : Props → Value) (w : Value)
    → ((qs : Props) → r ≡ some qs → is_hidden (make qs) ≡ true)
    → (check free >> (r >>= λ qs. some (make qs))) ≡ some w
    → is_hidden w ≡ true
copy-hidden false r make w c h = cc
copy-hidden true none make w c h = cc
copy-hidden true (some qs) make w c h =
    let same : make qs ≡ w = ground arith in subst (λ v. is_hidden v ≡ true) same (c qs refl)

mutual
  unfolding redact_value redact_props is_hidden are_hidden

  value-hidden : (seen : List ℕ) (v w : Value) → redact_value seen v ≡ some w → is_hidden w ≡ true
  value-hidden seen (Value.obj id proto ps) w h =
      copy-hidden _ (redact_props true (id ∷ seen) ps) (λ qs. Value.obj 0 Proto.object_proto qs) w
        (props-hidden true (id ∷ seen) ps) h
  value-hidden seen (Value.arr id len ps) w h =
      copy-hidden _ (redact_props false (id ∷ seen) ps) (λ qs. Value.arr 0 len qs) w
        (props-hidden false (id ∷ seen) ps) h
  value-hidden seen (Value.num n) w h = ground arith
  value-hidden seen (Value.bool b) w h = ground arith
  value-hidden seen (Value.str t) w h = ground arith
  value-hidden seen Value.null w h = ground arith
  value-hidden seen Value.undefined w h = cc
  value-hidden seen Value.unnamed w h = cc
  value-hidden seen Value.func w h = cc
  value-hidden seen Value.hostile w h = cc

  props-hidden :
      (keyed : Bool) (seen : List ℕ) (ps qs : Props)
      → redact_props keyed seen ps ≡ some qs
      → are_hidden keyed qs ≡ true
  props-hidden keyed seen Props.end qs h = ground arith
  props-hidden keyed seen (Props.prop k (Descriptor.plain v) ps) qs h =
      entry-hidden keyed k (redact_value seen v) (redact_props keyed seen ps) qs
        (value-hidden seen v) (props-hidden keyed seen ps) h
  props-hidden keyed seen (Props.prop k (Descriptor.lying v) ps) qs h =
      entry-hidden keyed k (redact_value seen v) (redact_props keyed seen ps) qs
        (value-hidden seen v) (props-hidden keyed seen ps) h
  props-hidden keyed seen (Props.prop k Descriptor.missing ps) qs h =
      props-hidden keyed seen ps qs h
  props-hidden keyed seen (Props.prop k Descriptor.accessor ps) qs h =
      ground (arith, props-hidden keyed seen ps qs)

pub is_hidden-redact_payload : (v w : Value) → redact_payload v ≡ some w → is_hidden w ≡ true
unfolding redact_payload
is_hidden-redact_payload (Value.obj id proto ps) w h = value-hidden [] (Value.obj id proto ps) w h
is_hidden-redact_payload (Value.arr id len ps) w h = cc
is_hidden-redact_payload (Value.num n) w h = cc
is_hidden-redact_payload (Value.bool b) w h = cc
is_hidden-redact_payload (Value.str t) w h = cc
is_hidden-redact_payload Value.null w h = cc
is_hidden-redact_payload Value.undefined w h = cc
is_hidden-redact_payload Value.unnamed w h = cc
is_hidden-redact_payload Value.func w h = cc
is_hidden-redact_payload Value.hostile w h = cc
