-- ===== src/Worker/Fair/Choice.antt =====
-- apps/worker-control/src/fair-scheduler.ts: the tenant that is served is the first in the fair order.
use mathlib.Core.Bool.{false≢true}
use touchmyapi.Common.{
  ℕ, ◌<◌, sym, ◌∙◌, All-map, ◌⊎◌, inl, inr, Bool-cases, refl, Option, ◌≡◌, Bool, true, false, List,
  none, some, Text, arith, All, All-Elem, Elem, Elem-All, ◌||◌, not,
}
use touchmyapi.Common.Sort.{
  sort, find, IsConsistent, sort-IsSorted, find-first, find-Elem, find-none, All-sort, sort-All,
}
use touchmyapi.Worker.Fair.{
  FairTenant, Count, whole, below, not_integer, is_integer, at_least, is_eligible,
  dispatched_before, comes_before, order_fair_tenants, select_fair_tenant,
}

-- Fewer tenants run than may: both numbers are integers, and the first is below the second.
abbrev pub HasRoom : Count → Count → Type 0
HasRoom (whole a) (whole b) = a < b
HasRoom (whole a) (below b) = false ≡ true
HasRoom (below a) (whole b) = Unit
HasRoom (below a) (below b) = b < a
HasRoom _ _ = false ≡ true

-- The tenant has queued work and is below its own limit.
abbrev pub IsWaiting : FairTenant → Type 0
IsWaiting t = (0 < t.queued_count) × (t.running_count < t.concurrency_limit)

module _ (collate : Text → Text → Bool) where
  comes_before-IsConsistent : IsConsistent collate → IsConsistent (comes_before collate)
  unfolding comes_before dispatched_before
  comes_before-IsConsistent locale = record {
    total = λ x y h. ground (arith, locale.total x.account_id y.account_id);
    transitive =
        λ x y z h k. ground (arith, locale.transitive x.account_id y.account_id z.account_id);
  }

  -- `t` is not served behind `u`: it was never dispatched, or earlier than `u`, and between two that
  -- were never dispatched, or at the same time, the account decides.
  abbrev pub IsDispatchedBy : Option ℕ → Option ℕ → Text → Text → Type 0
  IsDispatchedBy none none a b = collate a b ≡ true
  IsDispatchedBy none (some r) a b = Unit
  IsDispatchedBy (some l) none a b = false ≡ true
  IsDispatchedBy (some l) (some r) a b = (l < r) ⊎ ((l ≡ r) × (collate a b ≡ true))

  abbrev pub IsBefore : FairTenant → FairTenant → Type 0
  IsBefore t u = IsDispatchedBy t.last_dispatched_at u.last_dispatched_at t.account_id u.account_id

  dispatched_before-IsDispatchedBy :
      (l r : Option ℕ) (a b : Text)
      → dispatched_before l r (collate a b) ≡ true
      → IsDispatchedBy l r a b
  unfolding dispatched_before
  dispatched_before-IsDispatchedBy none none a b h = h
  dispatched_before-IsDispatchedBy none (some r) a b h = tt
  dispatched_before-IsDispatchedBy (some l) none a b h = h
  dispatched_before-IsDispatchedBy (some l) (some r) a b h = ground arith

  comes_before-IsBefore : (t u : FairTenant) → comes_before collate t u ≡ true → IsBefore t u
  unfolding comes_before
  comes_before-IsBefore t u h =
      dispatched_before-IsDispatchedBy t.last_dispatched_at u.last_dispatched_at t.account_id
        u.account_id h

eligible-IsWaiting : (t : FairTenant) → is_eligible t ≡ true → IsWaiting t
unfolding is_eligible
eligible-IsWaiting t h = ground arith

waiting-eligible : (t : FairTenant) → IsWaiting t → is_eligible t ≡ true
unfolding is_eligible
waiting-eligible t h = ground arith

room-HasRoom :
    (running limit : Count)
    → (not (is_integer running) || not (is_integer limit) || at_least running limit) ≡ false
    → HasRoom running limit
unfolding at_least
room-HasRoom (whole a) (whole b) h = ground arith
room-HasRoom (whole a) (below b) h = ground arith
room-HasRoom (whole a) not_integer h = ground arith
room-HasRoom (below a) (whole b) h = tt
room-HasRoom (below a) (below b) h = ground arith
room-HasRoom (below a) not_integer h = ground arith
room-HasRoom not_integer b h = ground arith

full-HasRoom :
    (running limit : Count)
    → (not (is_integer running) || not (is_integer limit) || at_least running limit) ≡ true
    → ¬ HasRoom running limit
unfolding at_least
full-HasRoom (whole a) (whole b) h r = ground arith
full-HasRoom (whole a) (below b) h r = ground arith
full-HasRoom (whole a) not_integer h r = ground arith
full-HasRoom (below a) (whole b) h r = ground arith
full-HasRoom (below a) (below b) h r = ground arith
full-HasRoom (below a) not_integer h r = ground arith
full-HasRoom not_integer (whole b) h r = ground arith
full-HasRoom not_integer (below b) h r = ground arith
full-HasRoom not_integer not_integer h r = ground arith

module _ (collate : Text → Text → Bool) (locale : IsConsistent collate) where
  -- What the choice of a tenant means.
  pub record IsChosen (tenants : List FairTenant) (t : FairTenant) : Type 0 where
    pub member : Elem t tenants
    pub waiting : IsWaiting t
    pub first : (u : FairTenant) → Elem u tenants → IsWaiting u → IsBefore collate t u

  ordered-IsChosen :
      (tenants : List FairTenant) (t : FairTenant)
      → find is_eligible (order_fair_tenants collate tenants) ≡ some t
      → IsChosen tenants t
  unfolding order_fair_tenants
  ordered-IsChosen tenants t h =
      let le = comes_before collate in
      let c = comes_before-IsConsistent collate locale in
      let (m, e) = find-Elem is_eligible (sort le tenants) t h in
      let later = find-first le c is_eligible (sort le tenants) t (sort-IsSorted le c tenants) h in
      let every = sort-All le (λ u. is_eligible u ≡ true → le t u ≡ true) tenants later in
      record {
        member =
            Elem-All (λ u. Elem u tenants) (sort le tenants)
              (All-sort le (λ u. Elem u tenants) tenants (All-Elem _ tenants (λ u m. m))) m;
        waiting = eligible-IsWaiting t e;
        first = λ u m w. comes_before-IsBefore collate t u (
            Elem-All (λ u. is_eligible u ≡ true → le t u ≡ true) tenants every m
              (waiting-eligible u w));
      }

  -- What a choice says of the tenants and of the room for another.
  abbrev pub Chosen : List FairTenant → Type 0 → Option FairTenant → Type 0
  Chosen tenants Room (some t) = Room × IsChosen tenants t
  Chosen tenants Room none = (¬ Room) ⊎ All (λ t. ¬ IsWaiting t) tenants

  ordered-Chosen :
      (tenants : List FairTenant) (Room : Type 0)
      → Room
      → (o : Option FairTenant) → find is_eligible (order_fair_tenants collate tenants) ≡ o
      → Chosen tenants Room o
  unfolding order_fair_tenants
  ordered-Chosen tenants Room room (some t) h = (room, ordered-IsChosen tenants t h)
  ordered-Chosen tenants Room room none h = inr (
      All-map (λ t e w. false≢true (sym e ∙ waiting-eligible t w)) tenants
        (sort-All (comes_before collate) (λ t. is_eligible t ≡ false) tenants
          (find-none is_eligible (sort (comes_before collate) tenants) h)))

  -- With a consistent collation, a tenant is served only if fewer tenants run than may, it has queued
  -- work and is below its own limit, and every other such tenant was dispatched later or at the same
  -- time, where one that never was comes first and the account decides between equals. None is served
  -- only if there is no room or no such tenant.
  pub select_fair_tenant-Chosen :
      (tenants : List FairTenant) (running limit : Count)
      → Chosen tenants (HasRoom running limit) (select_fair_tenant collate tenants running limit)
  unfolding select_fair_tenant
  select_fair_tenant-Chosen tenants running limit =
      elim (Bool-cases
        (not (is_integer running) || not (is_integer limit) || at_least running limit)) [
          | inl full ↦ rw full (inl (full-HasRoom running limit full))
          | inr fits ↦ rw fits (
              ordered-Chosen tenants (HasRoom running limit) (room-HasRoom running limit fits)
                (find is_eligible (order_fair_tenants collate tenants)) refl)
        ]
