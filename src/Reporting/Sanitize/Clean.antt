-- ===== src/Reporting/Sanitize/Clean.antt =====
-- packages/reporting/src/sanitize.ts: sanitized data against the contract of redacted objects.
use touchmyapi.Common.{
  ℕ, ◌≡◌, refl, arith, Bool, true, false, List, [], ◌∷◌, Option, none, some, Text, codes,
  starts_with, lower, lower_code, all, ltb, ◌==◌, ◌&&◌, Bool-cases, Option-cases, inl, inr,
  if◌then◌else◌,
}
use touchmyapi.Common.Maybe.{◌>>=◌, ◌>>◌, check}
use touchmyapi.Js.{Value, Descriptor, Props, Key, Proto, is_name}
use touchmyapi.Contracts.Redacted.{
  contains, is_secret_name, is_secret_key, contains_secret_key, holds_secret_key,
}
use touchmyapi.Reporting.Text.{fold, fold_code, is_sensitive_name, is_sensitive_key}
use touchmyapi.Reporting.Sanitize.{
  put, is_skipped, sanitize_value, sanitize_props, sanitized_object,
}

abbrev is_ascii : ℕ → Bool
is_ascii c = ltb c 128

fold_code-eq :
    (d c : ℕ) → is_ascii d ≡ true → (d == lower_code c) ≡ true → (d == fold_code c) ≡ true
unfolding fold_code lower_code
fold_code-eq d c h e = ground arith

starts_with-fold :
    (p t : Text)
    → all is_ascii p ≡ true
    → starts_with p (lower t) ≡ true
    → starts_with p (fold t) ≡ true
unfolding starts_with lower fold
starts_with-fold [] t h e = refl
starts_with-fold (d ∷ p) [] h e = e
starts_with-fold (d ∷ p) (c ∷ t) h e = ground (arith, fold_code-eq d c, starts_with-fold p t)

contains-fold :
    (p t : Text) → all is_ascii p ≡ true → contains p (lower t) ≡ true → contains p (fold t) ≡ true
unfolding contains lower fold
contains-fold p [] h e = e
contains-fold p (c ∷ t) h e = ground (arith, starts_with-fold p (c ∷ t), contains-fold p t)

is_secret_name-sensitive : (t : Text) → is_secret_name t ≡ true → is_sensitive_name t ≡ true
unfolding is_secret_name is_sensitive_name
is_secret_name-sensitive t h = ground (
  arith,
  contains-fold (codes "secret") t refl,
  contains-fold (codes "token") t refl,
  contains-fold (codes "password") t refl,
  contains-fold (codes "credential") t refl,
  contains-fold (codes "authorization") t refl,
  contains-fold (codes "apikey") t refl,
  contains-fold (codes "api_key") t refl,
  contains-fold (codes "api-key") t refl,
  contains-fold (codes "cookie") t refl,
)

kept-key :
    (keyed : Bool) (k : Key) → is_skipped keyed k ≡ false → (keyed && is_secret_key k) ≡ false
unfolding is_sensitive_key
kept-key false k h = refl
kept-key true Key.symbol h = refl
kept-key true (Key.index i) h = refl
kept-key true (Key.name s) h = ground (arith, is_secret_name-sensitive (codes s))

put-clean :
    (keyed : Bool) (k : Key) (w : Value) (qs : Props)
    → is_skipped keyed k ≡ false
    → contains_secret_key w ≡ false
    → holds_secret_key keyed qs ≡ false
    → holds_secret_key keyed (put k w qs) ≡ false
unfolding contains_secret_key holds_secret_key
put-clean keyed k w qs h c q = elim (Bool-cases (is_name "__proto__" k)) [
  | inl proto ↦ rw proto q
  | inr other ↦ rw other (ground (arith, kept-key keyed k h))
]

-- An entry that the copy keeps.
entry-clean :
    (keyed : Bool) (k : Key) (clean : Option Value) (rest : Option Props) (out : Props)
    → ((w : Value) → clean ≡ some w → contains_secret_key w ≡ false)
    → ((qs : Props) → rest ≡ some qs → holds_secret_key keyed qs ≡ false)
    → (if is_skipped keyed k then rest else (do w ← clean; qs ← rest; some (put k w qs))) ≡ some out
    → holds_secret_key keyed out ≡ false
entry-clean keyed k clean rest out c q h = elim (Bool-cases (is_skipped keyed k)) [
  | inl skipped ↦ q out (ground arith)
  | inr kept ↦ elim (Option-cases clean) [
    | inl bad ↦ ground arith
    | inr (w, e) ↦ elim (Option-cases rest) [
      | inl bad ↦ ground arith
      | inr (qs, f) ↦
          let same : put k w qs ≡ out = ground arith in
          rw (← same) (put-clean keyed k w qs kept (c w e) (q qs f))
    ]
  ]
]

-- A copy that is made of copied properties.
copy-clean :
    (free : Bool) (r : Option Props) (make : Props → Value) (w : Value)
    → ((qs : Props) → r ≡ some qs → contains_secret_key (make qs) ≡ false)
    → (check free >> (r >>= λ qs. some (make qs))) ≡ some w
    → contains_secret_key w ≡ false
copy-clean false r make w c h = cc
copy-clean true none make w c h = cc
copy-clean true (some qs) make w c h =
    let same : make qs ≡ w = ground arith in rw (← same) (c qs refl)

mutual
  unfolding sanitize_value sanitize_props contains_secret_key holds_secret_key

  value-clean :
      (seen : List ℕ) (v w : Value) → sanitize_value seen v ≡ some w → contains_secret_key w ≡ false
  value-clean seen (Value.obj id proto ps) w h =
      copy-clean _ (sanitize_props true (id ∷ seen) ps) (λ qs. Value.obj 0 Proto.object_proto qs) w
        (props-clean true (id ∷ seen) ps) h
  value-clean seen (Value.arr id len ps) w h =
      copy-clean _ (sanitize_props false (id ∷ seen) ps) (λ qs. Value.arr 0 len qs) w
        (props-clean false (id ∷ seen) ps) h
  value-clean seen (Value.num n) w h = ground arith
  value-clean seen (Value.bool b) w h = ground arith
  value-clean seen (Value.str t) w h = ground arith
  value-clean seen Value.null w h = ground arith
  value-clean seen Value.undefined w h = cc
  value-clean seen Value.unnamed w h = cc
  value-clean seen Value.func w h = cc
  value-clean seen Value.hostile w h = cc

  props-clean :
      (keyed : Bool) (seen : List ℕ) (ps qs : Props)
      → sanitize_props keyed seen ps ≡ some qs
      → holds_secret_key keyed qs ≡ false
  props-clean keyed seen Props.end qs h = ground arith
  props-clean keyed seen (Props.prop k (Descriptor.plain v) ps) qs h =
      entry-clean keyed k (sanitize_value seen v) (sanitize_props keyed seen ps) qs
        (value-clean seen v) (props-clean keyed seen ps) h
  props-clean keyed seen (Props.prop k (Descriptor.lying v) ps) qs h =
      entry-clean keyed k (sanitize_value seen v) (sanitize_props keyed seen ps) qs
        (value-clean seen v) (props-clean keyed seen ps) h
  props-clean keyed seen (Props.prop k Descriptor.missing ps) qs h = props-clean keyed seen ps qs h
  props-clean keyed seen (Props.prop k Descriptor.accessor ps) qs h =
      ground (arith, props-clean keyed seen ps qs)

-- Whatever a value is, the object that a report carries for it passes the contract's check of redacted
-- objects: no key at any depth names a secret.
pub contains_secret_key-sanitized_object :
    (v w : Value) → sanitized_object v ≡ some w → contains_secret_key w ≡ false
unfolding sanitized_object contains_secret_key holds_secret_key
contains_secret_key-sanitized_object (Value.obj id proto ps) w h =
    value-clean [] (Value.obj id proto ps) w h
contains_secret_key-sanitized_object (Value.arr id len ps) w h = ground arith
contains_secret_key-sanitized_object (Value.num n) w h = ground arith
contains_secret_key-sanitized_object (Value.bool b) w h = ground arith
contains_secret_key-sanitized_object (Value.str t) w h = ground arith
contains_secret_key-sanitized_object Value.null w h = ground arith
contains_secret_key-sanitized_object Value.undefined w h = ground arith
contains_secret_key-sanitized_object Value.unnamed w h = ground arith
contains_secret_key-sanitized_object Value.func w h = ground arith
contains_secret_key-sanitized_object Value.hostile w h = ground arith
