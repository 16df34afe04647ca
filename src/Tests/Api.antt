-- ===== src/Tests/Api.antt =====
-- A request to the membership routes.
use touchmyapi.Common.{ℕ, suc, true, [], ◌++◌, some, ok, codes}
use touchmyapi.Js.{null}
use touchmyapi.Policy.Membership.{active}
use touchmyapi.Api.Membership.{Request, AuthSession, MembershipCalls, remove_route, handle}
use touchmyapi.Api.Membership.Access.{IsHandled}
use touchmyapi.Api.Membership.Handled.{handle-IsHandled}
use touchmyapi.Tests.Request.{uuid}

abbrev request : Request
request = record {
  cookie =
      some (codes "theme=dark; __Secure-tma-session=abcdefghijklmnopqrstuvwxyzABCDEFGHIJKLMNOPQ");
  account_param = some uuid;
  user_param = some uuid;
  body = ok null;
}

abbrev session : AuthSession
session = record {
  user_id = uuid;
  account_id = uuid;
  role = codes "owner";
  membership_status = active;
}

abbrev calls : MembershipCalls ℕ
calls = record {
  formats = record { is_uuid = λ t. true; is_email = λ t. true; is_datetime = λ t. true };
  cookie_name = codes "__Secure-tma-session";
  hash = λ t. codes "#" ++ t;
  now = λ w. w;
  read_date = λ t. some 1000;
  random_token = λ w. (codes "token", suc w);
  resolve_session = λ h w. (ok (some session), suc w);
  list_memberships = λ h a w. (ok (ok []), suc w);
  create_invitation = λ i w. (ok (ok null), suc w);
  update_membership = λ i w. (ok (ok null), suc w);
  remove_membership = λ i w. (ok (ok null), suc w);
}

handle-IsHandled_example :
    let (r, (w1, log)) = handle calls remove_route request 0 in IsHandled calls request r log
handle-IsHandled_example = handle-IsHandled calls request remove_route 0
