-- ===== src/Worker/Fair.antt =====
-- apps/worker-control/src/fair-scheduler.ts: which tenant is served next.
pub mod Choice
use touchmyapi.Common.{
  ℕ, Bool, true, false, List, Option, none, some, Text, ltb, leb, ◌==◌, ◌&&◌, ◌||◌, not,
  if◌then◌else◌,
}
use touchmyapi.Common.Sort.{sort, find}

-- `lastDispatchedAt` in milliseconds from a date before all others.
pub record FairTenant : Type 0 where
  pub account_id : Text
  pub last_dispatched_at : Option ℕ
  pub running_count : ℕ
  pub concurrency_limit : ℕ
  pub queued_count : ℕ

-- A number, as `Number.isInteger` and `>=` see it; `below n` is the integer `-(n + 1)`.
pub data Count : Type 0 where
  whole below : ℕ → Count
  not_integer : Count

abbrev pub is_integer : Count → Bool
is_integer not_integer = false
is_integer _ = true

-- `a >= b` between integers.
unfoldable pub at_least : Count → Count → Bool
at_least (whole a) (whole b) = leb b a
at_least (whole a) (below b) = true
at_least (below a) (whole b) = false
at_least (below a) (below b) = leb a b
at_least _ _ = false

unfoldable pub is_eligible : FairTenant → Bool
is_eligible t = ltb 0 t.queued_count && ltb t.running_count t.concurrency_limit

-- The comparison by date, where `tie` decides between equals.
unfoldable pub dispatched_before : Option ℕ → Option ℕ → (tie : Bool) → Bool
dispatched_before none none tie = tie
dispatched_before none (some r) tie = true
dispatched_before (some l) none tie = false
dispatched_before (some l) (some r) tie = if l == r then tie else ltb l r

-- `collate s t` is `s.localeCompare(t) <= 0`.
module _ (collate : Text → Text → Bool) where
  -- The comparator's result is at most 0.
  unfoldable pub comes_before : FairTenant → FairTenant → Bool
  comes_before left right =
      dispatched_before left.last_dispatched_at right.last_dispatched_at
        (collate left.account_id right.account_id)

  unfoldable pub order_fair_tenants : List FairTenant → List FairTenant
  order_fair_tenants tenants = sort comes_before tenants

  unfoldable pub select_fair_tenant :
      List FairTenant → (global_running global_limit : Count) → Option FairTenant
  select_fair_tenant tenants global_running global_limit =
      if not (is_integer global_running)
        || not (is_integer global_limit)
        || at_least global_running global_limit
      then none
      else find is_eligible (order_fair_tenants tenants)
