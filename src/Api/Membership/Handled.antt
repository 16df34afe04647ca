-- ===== src/Api/Membership/Handled.antt =====
-- apps/api/src/memberships.ts: how a request comes to its session, and how it ends.
use touchmyapi.Common.{
  ◌≡◌, refl, sym, ◌∙◌, arith, List, [], ◌∷◌, Option, none, some, Result, ok, err, Text, text_eq,
  text_eq_iff, lower, is_empty, not, ◌||◌, Bool-cases, inl, inr,
}
use touchmyapi.Common.Handler.{behind, continue, ◌>>=◌}
use touchmyapi.Policy.Patterns.{is_strict_uuid}
use touchmyapi.Policy.Membership.{MembershipStatus, active, suspended, removed}
use touchmyapi.Api.Session.{read_session_token}
use touchmyapi.Api.Membership.{
  ApiError, Thrown, api, active_account_required, Request, AuthSession, Event, MembershipCalls,
  Response, catch_thrown, assert_uuid, after_status, check_session, resolve_token,
  session_for_account, with_account, Route, callback_of, input_error, handle,
}
use touchmyapi.Api.Membership.Access.{
  has_failed, IsUuidParam, IsSession, IsServed, rejected, performed, IsHandled, refused, unresolved,
  served, Handled,
}
use touchmyapi.Api.Membership.Served.{callback_of-Ran}

module _ {World : Type 0} (calls : MembershipCalls World) (request : Request) where
  abbrev Log : Type 0
  Log = List Event

  -- From a session on.
  found-Handled :
      (route : Route) (hash account : Text) (s : AuthSession) (w : World)
      → IsSession calls request hash account s
      → Handled calls request (
          behind
            (Event.resolved hash (ok (some s)) ∷ [])
            (callback_of calls route request hash account s w))
  found-Handled route hash account s w h =
      served hash account s _ h (callback_of-Ran calls request hash account s route w)

  unfound :
      (token : Text) (o : Result Thrown (Option AuthSession)) (e : Thrown) (w : World)
      → read_session_token request.cookie calls.cookie_name ≡ some token
      → Handled calls request (err e, (w, Event.resolved (calls.hash token) o ∷ []))
  unfound token o e w h = unresolved token o h refl

  status-Handled :
      (route : Route) (token account : Text) (s : AuthSession) (w : World)
      → read_session_token request.cookie calls.cookie_name ≡ some token
      → IsUuidParam request.account_param account
      → s.account_id ≡ account
      → (m : MembershipStatus) → s.membership_status ≡ m
      → let hash = calls.hash token in
        Handled calls request (
          continue
            (behind (Event.resolved hash (ok (some s)) ∷ []) (after_status calls hash s m w))
            (λ found. callback_of calls route request found.0 account found.1))
  unfolding after_status
  status-Handled route token account s w carried u same active e =
      found-Handled route (calls.hash token) account s w (record {
        token = token;
        carried = carried;
        hashed = refl;
        account_is = u;
        same = same;
        active_is = e;
      })
  status-Handled route token account s w carried u same suspended e =
      unfound token (ok (some s)) _ w carried
  status-Handled route token account s w carried u same removed e =
      unfound token (ok (some s)) _ w carried

  session-Handled :
      (route : Route) (token account : Text)
      → read_session_token request.cookie calls.cookie_name ≡ some token
      → IsUuidParam request.account_param account
      → (o : Result Thrown (Option AuthSession) × World)
      → let hash = calls.hash token in
        Handled calls request (
          continue
            (continue (o.0, (o.1, Event.resolved hash o.0 ∷ [])) (check_session calls account hash))
            (λ found. callback_of calls route request found.0 account found.1))
  unfolding check_session
  session-Handled route token account carried u (err x, w) = unfound token (err x) x w carried
  session-Handled route token account carried u (ok none, w) = unfound token (ok none) _ w carried
  session-Handled route token account carried u (ok (some s), w) =
      elim (Bool-cases (text_eq s.account_id account)) [
        | inl same ↦ rw same (
            status-Handled route token account s w carried u
              ((text_eq_iff s.account_id account).0 same) s.membership_status refl)
        | inr foreign ↦ rw foreign (unfound token (ok (some s)) _ w carried)
      ]

  token-Handled :
      (route : Route) (account : Text) (w : World)
      → IsUuidParam request.account_param account
      → (o : Option Text) → read_session_token request.cookie calls.cookie_name ≡ o
      → Handled calls request (
          continue
            (resolve_token calls account o w)
            (λ found. callback_of calls route request found.0 account found.1))
  unfolding resolve_token
  token-Handled route account w u none h = refused refl
  token-Handled route account w u (some token) h =
      session-Handled route token account h u (calls.resolve_session (calls.hash token) w)

  account-Handled :
      (route : Route) (w : World) (o : Option Text)
      → request.account_param ≡ o
      → Handled calls request (
          continue (assert_uuid calls o active_account_required w) (λ account.
            session_for_account calls request account >>= λ found.
            callback_of calls route request found.0 account found.1))
  unfolding assert_uuid session_for_account
  account-Handled route w none e = refused refl
  account-Handled route w (some t) e = elim (Bool-cases (is_empty t || not (is_strict_uuid t))) [
    | inl bad ↦ rw bad (refused refl)
    | inr fine ↦ rw fine (
        token-Handled route (lower t) w
          (record { text = t; given = e; well_formed = ground arith; lowered = refl })
          (read_session_token request.cookie calls.cookie_name) refl)
  ]

  has_failed-catch_thrown :
      {A : Type 0} (e : ApiError) (r : Result Thrown A)
      → has_failed (catch_thrown e r) ≡ has_failed r
  unfolding catch_thrown
  has_failed-catch_thrown e (ok a) = refl
  has_failed-catch_thrown e (err (api x)) = refl
  has_failed-catch_thrown e (err Thrown.input) = refl
  has_failed-catch_thrown e (err Thrown.other) = refl

  caught-IsServed :
      (hash account : Text) (s : AuthSession) (r : Result Thrown Response) (e : ApiError)
      (log : Log)
      → IsServed calls request hash account s r log
      → IsServed calls request hash account s (catch_thrown e r) log
  caught-IsServed hash account s r e log (rejected f) = rejected (has_failed-catch_thrown e r ∙ f)
  caught-IsServed hash account s r e log (performed act p d) =
      performed act p (λ h. d (sym (has_failed-catch_thrown e r) ∙ h))

  caught-IsHandled :
      (r : Result Thrown Response) (e : ApiError) (log : Log)
      → IsHandled calls request r log
      → IsHandled calls request (catch_thrown e r) log
  caught-IsHandled r e log (refused f) = refused (has_failed-catch_thrown e r ∙ f)
  caught-IsHandled r e log (unresolved token o c f) =
      unresolved token o c (has_failed-catch_thrown e r ∙ f)
  caught-IsHandled r e log (served hash account s more h q) =
      served hash account s more h (caught-IsServed hash account s r e more q)

  -- Whatever the calls reply: without a session token, or a UUID as the account, nothing is called and
  -- the request fails. Otherwise the session of the token's hash is asked for, once. Only if it is an
  -- active one of the account in the path, the store is called, at most once, with that hash and that
  -- account; an invitation, an update or a removal only if the session's role is `owner` or `admin`,
  -- with an audit event that names the account and the session's user, and, but for an invitation, the
  -- UUID in the path as the member. The request succeeds only if the store has done what it was asked.
  pub handle-IsHandled :
      (route : Route) (w : World)
      → let (r, (w1, log)) = handle calls route request w in IsHandled calls request r log
  unfolding handle with_account
  handle-IsHandled route w =
      caught-IsHandled _ (input_error calls route) _
        (account-Handled route w request.account_param refl)
