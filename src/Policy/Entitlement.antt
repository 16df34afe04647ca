-- ===== src/Policy/Entitlement.antt =====
-- packages/policy/src/entitlement.ts: the rights of each plan.
use touchmyapi.Common.{
  ℕ, Bool, true, false, Option, none, some, Text, codes, text_eq, if◌then◌else◌,
}
use touchmyapi.Js.{Value}

pub data Plan : Type 0 where
  free_unverified free_verified pro lifetime : Plan

pub data Visibility : Type 0 where
  aggregate masked detailed : Visibility

pub data PlaybookSlice : Type 0 where
  passive introductory full : PlaybookSlice

pub record Rights : Type 0 where
  pub visibility : Visibility
  pub playbook_slice : PlaybookSlice
  pub max_credits : ℕ
  pub reports : Bool
  pub scheduling : Bool
  pub history : Bool

abbrev pub plan_name : Plan → Text
plan_name free_unverified = codes "free_unverified"
plan_name free_verified = codes "free_verified"
plan_name pro = codes "pro"
plan_name lifetime = codes "lifetime"

unfoldable pub plan_of : Text → Option Plan
plan_of t =
    if text_eq t (plan_name free_unverified)
    then some free_unverified
    else if text_eq t (plan_name free_verified)
    then some free_verified
    else if text_eq t (plan_name pro)
    then some pro
    else if text_eq t (plan_name lifetime)
    then some lifetime
    else none

-- `isPlan`, with the plan that the value names.
unfoldable pub is_plan : Value → Option Plan
unfolding plan_of
is_plan (Value.str t) = plan_of t
is_plan _ = none

-- `RIGHTS_BY_PLAN`.
unfoldable pub rights_by_plan : Plan → Rights
rights_by_plan free_unverified = record {
  visibility = aggregate;
  playbook_slice = passive;
  max_credits = 1;
  reports = false;
  scheduling = false;
  history = false;
}
rights_by_plan free_verified = record {
  visibility = masked;
  playbook_slice = introductory;
  max_credits = 1;
  reports = false;
  scheduling = false;
  history = false;
}
rights_by_plan pro = record {
  visibility = detailed;
  playbook_slice = full;
  max_credits = 10;
  reports = true;
  scheduling = true;
  history = true;
}
rights_by_plan lifetime = record {
  visibility = detailed;
  playbook_slice = full;
  max_credits = 10;
  reports = true;
  scheduling = true;
  history = true;
}

-- `rightsForPlan`; `none` is the `TypeError` at a value that names no plan.
unfoldable pub rights_for_plan : Value → Option Rights
unfolding is_plan
rights_for_plan v = elim (is_plan v) [ none ↦ none | some p ↦ some (rights_by_plan p) ]
