-- ===== src/Policy/Ceiling.antt =====
-- packages/policy/src/limits.ts: ceilings, their validation and their pointwise minimum.
use touchmyapi.Common.{ℕ, List, [], ◌∷◌, String, Option, none, some, min}
use touchmyapi.Common.Maybe.{◌>>=◌}
use touchmyapi.Js.{Snapshot, own, positive_safe_integer}

pub record LimitCeiling : Type 0 where
  pub duration_s : ℕ
  pub concurrency : ℕ
  pub rate_per_min : ℕ
  pub credits : ℕ

-- `Partial<LimitCeiling>`.
pub record PartialCeiling : Type 0 where
  pub duration_s : Option ℕ
  pub concurrency : Option ℕ
  pub rate_per_min : Option ℕ
  pub credits : Option ℕ

abbrev pub ceiling_keys : List String
ceiling_keys = "durationS" ∷ "concurrency" ∷ "ratePerMin" ∷ "credits" ∷ []

-- `hasOwn(value, key) && isPositiveSafeInteger(value[key])`.
unfoldable pub positive_own : Snapshot → String → Option ℕ
positive_own value key = own value key >>= positive_safe_integer

unfoldable pub validate_ceiling : Snapshot → Option LimitCeiling
unfolding positive_own
validate_ceiling value = do
  d ← positive_own value "durationS"
  c ← positive_own value "concurrency"
  r ← positive_own value "ratePerMin"
  m ← positive_own value "credits"
  some (record { duration_s = d; concurrency = c; rate_per_min = r; credits = m })

-- One round of the loop of `validateRequested`: a key that is absent is fine, one that is there
-- must hold a positive safe integer. The result is the field of the partial ceiling.
unfoldable pub requested_own : Snapshot → String → Option (Option ℕ)
requested_own value key = elim (own value key) [
  | none ↦ some none
  | some v ↦ positive_safe_integer v >>= λ n. some (some n)
]

unfoldable pub partial_ceiling : Snapshot → Option PartialCeiling
unfolding requested_own
partial_ceiling value = do
  d ← requested_own value "durationS"
  c ← requested_own value "concurrency"
  r ← requested_own value "ratePerMin"
  m ← requested_own value "credits"
  some (record { duration_s = d; concurrency = c; rate_per_min = r; credits = m })

-- `Math.min(...values)` over the authorities' values and the requested one, if any.
unfoldable pub min_all : ℕ → List ℕ → Option ℕ → ℕ
min_all m [] none = m
min_all m [] (some r) = min m r
min_all m (v ∷ vs) r = min_all (min m v) vs r

-- `requested?.[key]`.
abbrev pub requested_at : (PartialCeiling → Option ℕ) → Option PartialCeiling → Option ℕ
requested_at key none = none
requested_at key (some r) = key r

-- `minFor(key, [playbook, entitlement, account, global], requested)`, the key as a projection.
unfoldable pub min_for :
    (LimitCeiling → ℕ)
    → (PartialCeiling → Option ℕ)
    → (playbook entitlement account global : LimitCeiling) → Option PartialCeiling
    → ℕ
unfolding min_all
min_for key partial_key playbook entitlement account global requested =
    min_all (key playbook) (key entitlement ∷ key account ∷ key global ∷ [])
      (requested_at partial_key requested)

-- `minFor` at each of the four keys.
unfoldable pub min_ceiling :
    (playbook entitlement account global : LimitCeiling) → Option PartialCeiling → LimitCeiling
unfolding min_for
min_ceiling p e a g r = record {
  duration_s = min_for (λ c. c.duration_s) (λ c. c.duration_s) p e a g r;
  concurrency = min_for (λ c. c.concurrency) (λ c. c.concurrency) p e a g r;
  rate_per_min = min_for (λ c. c.rate_per_min) (λ c. c.rate_per_min) p e a g r;
  credits = min_for (λ c. c.credits) (λ c. c.credits) p e a g r;
}
