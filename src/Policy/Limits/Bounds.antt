-- ===== src/Policy/Limits/Bounds.antt =====
-- packages/policy/src/limits.ts.
-- The reduction is the greatest lower bound of what the authorities and the request allow.
use mathlib.Core.Path.{subst}
use touchmyapi.Common.{
  ℕ, ◌≤◌, ◌<◌, ◌≡◌, String, Option, none, some, Result, ok, arith, >>=-eq-ok, ok-injective,
}
use touchmyapi.Js.{Value, Snapshot, own, safe_bound}
use touchmyapi.Policy.Ceiling.{LimitCeiling, PartialCeiling, requested_at, min_for, min_ceiling}
use touchmyapi.Policy.Limits.{
  EffectiveLimits, LimitErrorCode, root_of, source_of, playbook_of, ceiling_of, requested_of,
  reduce_limits,
}

-- No field of the first ceiling passes the second's.
pub record IsWithin (a b : LimitCeiling) : Type 0 where
  pub duration_s : a.duration_s ≤ b.duration_s
  pub concurrency : a.concurrency ≤ b.concurrency
  pub rate_per_min : a.rate_per_min ≤ b.rate_per_min
  pub credits : a.credits ≤ b.credits

abbrev pub AtMost : ℕ → Option ℕ → Type 0
AtMost n none = Unit
AtMost n (some m) = n ≤ m

-- The same for what the request names, if there is one.
pub record IsRequested (a : LimitCeiling) (r : Option PartialCeiling) : Type 0 where
  pub duration_s : AtMost a.duration_s (requested_at (λ c. c.duration_s) r)
  pub concurrency : AtMost a.concurrency (requested_at (λ c. c.concurrency) r)
  pub rate_per_min : AtMost a.rate_per_min (requested_at (λ c. c.rate_per_min) r)
  pub credits : AtMost a.credits (requested_at (λ c. c.credits) r)

abbrev pub IsPositiveSafe : ℕ → Type 0
IsPositiveSafe n = (0 < n) × (n < safe_bound)

pub record IsSafeCeiling (c : LimitCeiling) : Type 0 where
  pub duration_s : IsPositiveSafe c.duration_s
  pub concurrency : IsPositiveSafe c.concurrency
  pub rate_per_min : IsPositiveSafe c.rate_per_min
  pub credits : IsPositiveSafe c.credits

-- The source is there, and reads as the ceiling.
abbrev pub Reads :
    Snapshot → String → (Value → Result LimitErrorCode LimitCeiling) → LimitCeiling → Type 0
Reads root source read c = (v : Value) × (source_of root source ≡ ok v) × (read v ≡ ok c)

-- What a successful reduction has read, and how its result stands to it.
pub record IsReduction (input : Value) (v : LimitCeiling) : Type 0 where
  pub root : Snapshot
  pub playbook : LimitCeiling
  pub entitlement : LimitCeiling
  pub account : LimitCeiling
  pub global : LimitCeiling
  pub requested : Option PartialCeiling
  pub root_read : root_of input ≡ ok root
  pub playbook_read : Reads root "playbook" playbook_of playbook
  pub entitlement_read : Reads root "entitlement" ceiling_of entitlement
  pub account_read : Reads root "account" ceiling_of account
  pub global_read : Reads root "global" ceiling_of global
  pub requested_read : requested_of (own root "requested") ≡ ok requested
  pub within_playbook : IsWithin v playbook
  pub within_entitlement : IsWithin v entitlement
  pub within_account : IsWithin v account
  pub within_global : IsWithin v global
  pub within_requested : IsRequested v requested
  pub greatest :
      (w : LimitCeiling)
      → IsWithin w playbook
      → IsWithin w entitlement
      → IsWithin w account
      → IsWithin w global
      → IsRequested w requested
      → IsWithin w v

module _ (key : LimitCeiling → ℕ) (partial_key : PartialCeiling → Option ℕ)
    (p e a g : LimitCeiling) where
  min_for_bounds :
      (r : Option PartialCeiling)
      → let m = min_for key partial_key p e a g r in
        (m ≤ key p)
        × (m ≤ key e)
        × (m ≤ key a)
        × (m ≤ key g)
        × AtMost m (requested_at partial_key r)
  unfolding min_for
  min_for_bounds r = ground arith

  min_for_greatest :
      (r : Option PartialCeiling) (n : ℕ)
      → n ≤ key p
      → n ≤ key e
      → n ≤ key a
      → n ≤ key g
      → AtMost n (requested_at partial_key r)
      → n ≤ min_for key partial_key p e a g r
  unfolding min_for
  min_for_greatest r n hp he ha hg hr = ground arith

-- Both halves at each key: the reduction is below every authority and the request, and what is
-- below all of them is below the reduction.
module _ (p e a g : LimitCeiling) (r : Option PartialCeiling) where
  open_bounds :
      (key : LimitCeiling → ℕ) (partial_key : PartialCeiling → Option ℕ)
      → AtMost (min_for key partial_key p e a g r) (requested_at partial_key r)
  open_bounds key partial_key = (min_for_bounds key partial_key p e a g r).4

  min_ceiling-IsWithin :
      let m = min_ceiling p e a g r in IsWithin m p × IsWithin m e × IsWithin m a × IsWithin m g
  unfolding min_ceiling
  min_ceiling-IsWithin =
      let d = min_for_bounds (λ c. c.duration_s) (λ c. c.duration_s) p e a g r in
      let c = min_for_bounds (λ c. c.concurrency) (λ c. c.concurrency) p e a g r in
      let t = min_for_bounds (λ c. c.rate_per_min) (λ c. c.rate_per_min) p e a g r in
      let k = min_for_bounds (λ c. c.credits) (λ c. c.credits) p e a g r in omega arith

  min_ceiling-IsRequested : IsRequested (min_ceiling p e a g r) r
  unfolding min_ceiling
  min_ceiling-IsRequested = record {
    duration_s = open_bounds (λ c. c.duration_s) (λ c. c.duration_s);
    concurrency = open_bounds (λ c. c.concurrency) (λ c. c.concurrency);
    rate_per_min = open_bounds (λ c. c.rate_per_min) (λ c. c.rate_per_min);
    credits = open_bounds (λ c. c.credits) (λ c. c.credits);
  }

  min_ceiling-greatest :
      (w : LimitCeiling)
      → IsWithin w p
      → IsWithin w e
      → IsWithin w a
      → IsWithin w g
      → IsRequested w r
      → IsWithin w (min_ceiling p e a g r)
  unfolding min_ceiling
  min_ceiling-greatest w hp he ha hg hr =
      let glb = λ (key : LimitCeiling → ℕ) (partial_key : PartialCeiling → Option ℕ).
        min_for_greatest key partial_key p e a g r (key w) in
      record {
        duration_s =
            glb (λ c. c.duration_s) (λ c. c.duration_s) hp.duration_s he.duration_s ha.duration_s
              hg.duration_s hr.duration_s;
        concurrency =
            glb (λ c. c.concurrency) (λ c. c.concurrency) hp.concurrency he.concurrency
              ha.concurrency hg.concurrency hr.concurrency;
        rate_per_min =
            glb (λ c. c.rate_per_min) (λ c. c.rate_per_min) hp.rate_per_min he.rate_per_min
              ha.rate_per_min hg.rate_per_min hr.rate_per_min;
        credits =
            glb (λ c. c.credits) (λ c. c.credits) hp.credits he.credits ha.credits hg.credits
              hr.credits;
      }

IsReduction-of_Reads :
    (input : Value) (v : LimitCeiling) (root : Snapshot) (p e a g : LimitCeiling)
    (r : Option PartialCeiling)
    → root_of input ≡ ok root
    → Reads root "playbook" playbook_of p
    → Reads root "entitlement" ceiling_of e
    → Reads root "account" ceiling_of a
    → Reads root "global" ceiling_of g
    → requested_of (own root "requested") ≡ ok r
    → min_ceiling p e a g r ≡ v
    → IsReduction input v
IsReduction-of_Reads input v root p e a g r root_read p_read e_read a_read g_read r_read same =
    let within = min_ceiling-IsWithin p e a g r in
    subst (IsReduction input) same (record {
      root = root;
      playbook = p;
      entitlement = e;
      account = a;
      global = g;
      requested = r;
      root_read = root_read;
      playbook_read = p_read;
      entitlement_read = e_read;
      account_read = a_read;
      global_read = g_read;
      requested_read = r_read;
      within_playbook = within.0;
      within_entitlement = within.1;
      within_account = within.2;
      within_global = within.3;
      within_requested = min_ceiling-IsRequested p e a g r;
      greatest = min_ceiling-greatest p e a g r;
    })

-- A successful reduction reads all four authorities, and is the greatest ceiling that passes none
-- of them nor anything that the request names.
pub reduce_limits-IsReduction :
    (input : Value) (v : EffectiveLimits) → reduce_limits input ≡ ok v → IsReduction input v
unfolding reduce_limits
reduce_limits-IsReduction input v h =
    let (root, root_read, h1) = >>=-eq-ok (root_of input) _ h in
    let (pv, pv_read, h2) = >>=-eq-ok (source_of root "playbook") _ h1 in
    let (ev, ev_read, h3) = >>=-eq-ok (source_of root "entitlement") _ h2 in
    let (av, av_read, h4) = >>=-eq-ok (source_of root "account") _ h3 in
    let (gv, gv_read, h5) = >>=-eq-ok (source_of root "global") _ h4 in
    let (p, p_read, h6) = >>=-eq-ok (playbook_of pv) _ h5 in
    let (e, e_read, h7) = >>=-eq-ok (ceiling_of ev) _ h6 in
    let (a, a_read, h8) = >>=-eq-ok (ceiling_of av) _ h7 in
    let (g, g_read, h9) = >>=-eq-ok (ceiling_of gv) _ h8 in
    let (r, r_read, h10) = >>=-eq-ok (requested_of (own root "requested")) _ h9 in
    IsReduction-of_Reads input v root p e a g r root_read (pv, pv_read, p_read)
      (ev, ev_read, e_read) (av, av_read, a_read) (gv, gv_read, g_read) r_read (ok-injective h10)
