-- ===== src/Reporting/Sanitize/Data.antt =====
-- packages/reporting/src/sanitize.ts: data that can be sanitized, and what it becomes.
use touchmyapi.Common.{
  ℕ, ◌≡◌, refl, arith, Bool, true, false, List, [], ◌∷◌, Option, some, any, ◌==◌, ◌&&◌, not,
  Bool-cases, inl, inr, if◌then◌else◌,
}
use touchmyapi.Common.Maybe.{◌>>=◌, ◌>>◌, check}
use touchmyapi.Js.{Value, Descriptor, Props, Key, Proto}
use touchmyapi.Reporting.Sanitize.{
  put, is_finite, is_skipped, sanitize_value, sanitize_props, sanitized_object,
}

unfoldable mutual
  -- JSON data: finite numbers, data properties only, and no object within itself.
  pub is_data : List ℕ → Value → Bool
  is_data seen Value.null = true
  is_data seen (Value.bool b) = true
  is_data seen (Value.num n) = is_finite n
  is_data seen (Value.str t) = true
  is_data seen (Value.arr id len ps) = not (any (λ i. i == id) seen) && are_data (id ∷ seen) ps
  is_data seen (Value.obj id proto ps) = not (any (λ i. i == id) seen) && are_data (id ∷ seen) ps
  is_data seen _ = false

  pub are_data : List ℕ → Props → Bool
  are_data seen Props.end = true
  are_data seen (Props.prop k (Descriptor.plain v) ps) = is_data seen v && are_data seen ps
  are_data seen (Props.prop k _ ps) = false

both : (a b : Bool) → (a && b) ≡ true → (a ≡ true) × (b ≡ true)
both a b h = ground arith

copied :
    (free : Bool) (r : Option Props) (make : Props → Value)
    → free ≡ true
    → (qs : Props) × (r ≡ some qs)
    → (w : Value) × ((check free >> (r >>= λ qs. some (make qs))) ≡ some w)
copied free r make f (qs, e) = (make qs, rw (f, e) refl)

kept :
    (keyed : Bool) (k : Key) (clean : Option Value) (rest : Option Props)
    → (w : Value) × (clean ≡ some w)
    → (qs : Props) × (rest ≡ some qs)
    → (out : Props) × ((if is_skipped keyed k
          then rest
          else (do w ← clean; qs ← rest; some (put k w qs)))
        ≡ some out)
kept keyed k clean rest (w, e) (qs, f) = elim (Bool-cases (is_skipped keyed k)) [
  | inl skips ↦ (qs, rw skips f)
  | inr keeps ↦ (put k w qs, rw (keeps, e, f) refl)
]

mutual
  unfolding sanitize_value sanitize_props is_data are_data

  value-returns :
      (seen : List ℕ) (v : Value)
      → is_data seen v ≡ true
      → (w : Value) × (sanitize_value seen v ≡ some w)
  value-returns seen Value.null h = (Value.null, refl)
  value-returns seen (Value.bool b) h = (Value.bool b, refl)
  value-returns seen (Value.num n) h = (Value.num n, rw h refl)
  value-returns seen (Value.str t) h = (_, refl)
  value-returns seen (Value.arr id len ps) h =
      copied (not (any (λ i. i == id) seen)) (sanitize_props false (id ∷ seen) ps)
        (λ qs. Value.arr 0 len qs)
        (both (not (any (λ i. i == id) seen)) (are_data (id ∷ seen) ps) h).0
        (props-return false (id ∷ seen) ps
          (both (not (any (λ i. i == id) seen)) (are_data (id ∷ seen) ps) h).1)
  value-returns seen (Value.obj id proto ps) h =
      copied (not (any (λ i. i == id) seen)) (sanitize_props true (id ∷ seen) ps)
        (λ qs. Value.obj 0 Proto.object_proto qs)
        (both (not (any (λ i. i == id) seen)) (are_data (id ∷ seen) ps) h).0
        (props-return true (id ∷ seen) ps
          (both (not (any (λ i. i == id) seen)) (are_data (id ∷ seen) ps) h).1)
  value-returns seen Value.undefined h = cc
  value-returns seen Value.unnamed h = cc
  value-returns seen Value.func h = cc
  value-returns seen Value.hostile h = cc

  props-return :
      (keyed : Bool) (seen : List ℕ) (ps : Props)
      → are_data seen ps ≡ true
      → (qs : Props) × (sanitize_props keyed seen ps ≡ some qs)
  props-return keyed seen Props.end h = (Props.end, refl)
  props-return keyed seen (Props.prop k (Descriptor.plain v) ps) h =
      kept keyed k (sanitize_value seen v) (sanitize_props keyed seen ps)
        (value-returns seen v (both (is_data seen v) (are_data seen ps) h).0)
        (props-return keyed seen ps (both (is_data seen v) (are_data seen ps) h).1)
  props-return keyed seen (Props.prop k (Descriptor.lying v) ps) h = cc
  props-return keyed seen (Props.prop k Descriptor.missing ps) h = cc
  props-return keyed seen (Props.prop k Descriptor.accessor ps) h = cc

-- JSON data with finite numbers, and without an object within itself, is always sanitized.
pub sanitized_object-returns :
    (v : Value) → is_data [] v ≡ true → (w : Value) × (sanitized_object v ≡ some w)
unfolding sanitized_object is_data are_data
sanitized_object-returns (Value.obj id proto ps) h = value-returns [] (Value.obj id proto ps) h
sanitized_object-returns (Value.arr id len ps) h = (_, refl)
sanitized_object-returns (Value.num n) h = (_, refl)
sanitized_object-returns (Value.bool b) h = (_, refl)
sanitized_object-returns (Value.str t) h = (_, refl)
sanitized_object-returns Value.null h = (_, refl)
sanitized_object-returns Value.undefined h = cc
sanitized_object-returns Value.unnamed h = cc
sanitized_object-returns Value.func h = cc
sanitized_object-returns Value.hostile h = cc
