-- ===== src/Api/Membership.antt =====
-- apps/api/src/memberships.ts: the routes that list, invite, change and remove the members of an
-- account. The store, the sessions, the clock and the random source are a record of calls.
pub mod Access
pub mod Served
pub mod Handled
use touchmyapi.Common.{
  ℕ, ◌+◌, ◌*◌, Bool, true, false, List, [], ◌∷◌, Option, none, some, Result, ok, err, Text, codes,
  text_eq, lower, is_empty, leb, ltb, not, ◌&&◌, ◌||◌, if◌then◌else◌,
}
use touchmyapi.Common.Handler.{Handler, pure, throw, throw_unless, or_throw, call, ◌>>=◌, ◌>>◌}
use touchmyapi.Js.{Value, str}
use touchmyapi.Policy.Patterns.{is_strict_uuid}
use touchmyapi.Policy.Membership.{MembershipRole, MembershipStatus, active, suspended, removed}
use touchmyapi.Contracts.Membership.{
  Formats, InvitationCreate, MembershipUpdate, parse_invitation_create, parse_membership_update,
  is_membership, is_membership_list, is_invitation, is_role_value,
}
use touchmyapi.Api.Session.{read_session_token}

pub record ApiError : Type 0 where
  pub status : ℕ
  pub code : Text
  pub message : Text

-- What a route's code throws: an `ApiError`, an error of the input (a `SyntaxError` or a `ZodError`),
-- or anything else.
pub data Thrown : Type 0 where
  api : ApiError → Thrown
  input other : Thrown

pub data FailureCode : Type 0 where
  membership_required membership_suspended active_account_required : FailureCode
  last_owner_protected invalid_invitation : FailureCode

unfoldable pub operation_error : FailureCode → ApiError
operation_error last_owner_protected = record {
  status = 409;
  code = codes "last_owner_protected";
  message = codes "The last active owner cannot be removed or demoted";
}
operation_error membership_suspended = record {
  status = 403;
  code = codes "membership_suspended";
  message = codes "Membership is suspended";
}
operation_error active_account_required = record {
  status = 403;
  code = codes "active_account_required";
  message = codes "Active account required";
}
operation_error invalid_invitation = record {
  status = 400;
  code = codes "invalid_invitation";
  message = codes "Invalid invitation";
}
operation_error membership_required = record {
  status = 403;
  code = codes "membership_required";
  message = codes "Membership required";
}

abbrev pub unauthorized : ApiError
unauthorized = record {
  status = 401;
  code = codes "unauthorized";
  message = codes "Authentication required";
}

abbrev pub unavailable : ApiError
unavailable = record {
  status = 503;
  code = codes "membership_unavailable";
  message = codes "Membership service unavailable";
}

abbrev pub invalid_expiry : ApiError
invalid_expiry = record {
  status = 400;
  code = codes "invalid_invitation";
  message = codes "Invitation expiry is invalid";
}

abbrev pub invalid_update : ApiError
invalid_update = record {
  status = 400;
  code = codes "membership_required";
  message = codes "Invalid membership update";
}

-- A request, as far as the routes look at it; `body` is how `context.req.json()` ends.
pub record Request : Type 0 where
  pub cookie : Option Text
  pub account_param : Option Text
  pub user_param : Option Text
  pub body : Result Thrown Value

pub record AuthSession : Type 0 where
  pub user_id : Text
  pub account_id : Text
  pub role : Text
  pub membership_status : MembershipStatus

pub data AuditAction : Type 0 where
  invitation_created membership_updated membership_removed : AuditAction

pub record MembershipAuditEvent : Type 0 where
  pub account_id : Text
  pub actor_user_id : Text
  pub action : AuditAction
  pub target_user_id : Option Text

pub record InvitationInput : Type 0 where
  pub session_hash : Text
  pub account_id : Text
  pub email : Text
  pub role : MembershipRole
  pub expires_at : ℕ
  pub token_hash : Text
  pub delivery_token : Text
  pub audit : MembershipAuditEvent

pub record UpdateInput : Type 0 where
  pub session_hash : Text
  pub account_id : Text
  pub user_id : Text
  pub role : Option MembershipRole
  pub status : Option MembershipStatus
  pub audit : MembershipAuditEvent

pub record RemovalInput : Type 0 where
  pub session_hash : Text
  pub account_id : Text
  pub user_id : Text
  pub audit : MembershipAuditEvent

-- How a call of the store ends; what it stores is JSON data.
abbrev pub Reply : Type 0 → Type 0
Reply A = Result Thrown (Result FailureCode A)

-- The calls with their arguments and how they ended.
pub data Event : Type 0 where
  resolved : Text → Result Thrown (Option AuthSession) → Event
  listed : Text → Text → Reply (List Value) → Event
  invited : InvitationInput → Reply Value → Event
  updated : UpdateInput → Reply Value → Event
  dismissed : RemovalInput → Reply Value → Event

-- `hash` is the digest of a token, `now` the clock in milliseconds, `read_date` the time of a text,
-- where it is one that is not before the epoch.
pub record MembershipCalls (World : Type 0) : Type 0 where
  pub formats : Formats
  pub cookie_name : Text
  pub hash : Text → Text
  pub now : World → ℕ
  pub read_date : Text → Option ℕ
  pub random_token : World → Text × World
  pub resolve_session : Text → World → Result Thrown (Option AuthSession) × World
  pub list_memberships : Text → Text → World → Reply (List Value) × World
  pub create_invitation : InvitationInput → World → Reply Value × World
  pub update_membership : UpdateInput → World → Reply Value × World
  pub remove_membership : RemovalInput → World → Reply Value × World

pub record Response : Type 0 where
  pub status : ℕ
  pub body : List Value

abbrev pub max_lifetime : ℕ
max_lifetime = 30 * 24 * 60 * 60 * 1000

abbrev pub session_cookie_name : (allow_insecure is_development : Bool) → Text
session_cookie_name allow_insecure is_development =
    if allow_insecure && is_development then codes "tma-session" else codes "__Secure-tma-session"

-- The cases of the handlers' `catch`: what an error of the input becomes.
unfoldable pub catch_thrown : {A : Type 0} → ApiError → Result Thrown A → Result ApiError A
catch_thrown for_input (ok a) = ok a
catch_thrown for_input (err (api e)) = err e
catch_thrown for_input (err input) = err for_input
catch_thrown for_input (err other) = err unavailable

-- The condition of `requireMembershipManager`.
unfoldable pub is_manager : Text → Bool
is_manager role =
    is_role_value (str role) && (text_eq role (codes "owner") || text_eq role (codes "admin"))

-- The routes of `registerMembershipRoutes`; the three paths of the update share one handler.
pub data Route : Type 0 where
  list_route invite_route update_route remove_route : Route

module _ {World : Type 0} (calls : MembershipCalls World) where
  abbrev pub Body : Type 0 → Type 0
  Body A = Handler World Event Thrown A

  unfoldable pub assert_uuid : Option Text → FailureCode → Body Text
  assert_uuid none code = throw (api (operation_error code))
  assert_uuid (some t) code =
      if is_empty t || not (is_strict_uuid t)
      then throw (api (operation_error code))
      else pure (lower t)

  unfoldable pub check_expiry : ℕ → Option ℕ → Body ℕ
  check_expiry now none = throw (api invalid_expiry)
  check_expiry now (some time) =
      if leb time now || ltb (now + max_lifetime) time
      then throw (api invalid_expiry)
      else pure time

  -- `parseInvitationExpiry`
  unfoldable pub parse_expiry : Text → Body ℕ
  parse_expiry value w = check_expiry (calls.now w) (calls.read_date value) w

  unfoldable pub assert_success : {A : Type 0} → Result FailureCode A → Body A
  assert_success (ok a) = pure a
  assert_success (err code) = throw (api (operation_error code))

  -- The session with the hash of its token.
  unfoldable pub after_status : Text → AuthSession → MembershipStatus → Body (Text × AuthSession)
  after_status hash s active = pure (hash, s)
  after_status hash s suspended = throw (api (operation_error membership_suspended))
  after_status hash s removed = throw (api (operation_error membership_required))

  unfoldable pub check_session : Text → Text → Option AuthSession → Body (Text × AuthSession)
  check_session account hash none = throw (api unauthorized)
  check_session account hash (some s) =
      if not (text_eq s.account_id account)
      then throw (api (operation_error active_account_required))
      else after_status hash s s.membership_status

  unfoldable pub resolve_token : Text → Option Text → Body (Text × AuthSession)
  resolve_token account none = throw (api unauthorized)
  resolve_token account (some token) = do
    s ← call (resolved (calls.hash token)) (calls.resolve_session (calls.hash token))
    check_session account (calls.hash token) s

  unfoldable pub session_for_account : Request → Text → Body (Text × AuthSession)
  session_for_account request account =
      resolve_token account (read_session_token request.cookie calls.cookie_name)

  unfoldable pub require_manager : Text → Body (Unit {0})
  require_manager role = throw_unless (is_manager role) (api (operation_error membership_required))

  abbrev pub Callback : Type 0
  Callback = Text → Text → AuthSession → Body Response

  unfoldable pub with_account : Request → Callback → Body Response
  with_account request callback = do
    account ← assert_uuid request.account_param active_account_required
    found ← session_for_account request account
    callback found.0 account found.1

  -- A reply that the response's schema refuses is a `ZodError` too.
  unfoldable pub respond : ℕ → (Value → Bool) → Result FailureCode Value → Body Response
  respond status schema reply = do
    value ← assert_success reply
    throw_unless (schema value) input
    pure (record { status = status; body = value ∷ [] })

  unfoldable pub list_members : Callback
  list_members hash account s = do
    reply ← call (listed hash account) (calls.list_memberships hash account)
    values ← assert_success reply
    throw_unless (is_membership_list calls.formats values) input
    pure (record { status = 200; body = values })

  abbrev pub audit_of : Text → AuthSession → AuditAction → Option Text → MembershipAuditEvent
  audit_of account s action target = record {
    account_id = account;
    actor_user_id = s.user_id;
    action = action;
    target_user_id = target;
  }

  -- A random token is drawn without a note.
  abbrev pub draw_token : Body Text
  draw_token w = let (t, w') = calls.random_token w in (ok t, (w', []))

  abbrev pub json_body : Request → Body Value
  json_body request w = (request.body, (w, []))

  unfoldable pub invite : Text → Text → AuthSession → InvitationCreate → ℕ → Text → Body Response
  invite hash account s body time token = do
    let new : InvitationInput = record {
      session_hash = hash;
      account_id = account;
      email = body.email;
      role = body.role;
      expires_at = time;
      token_hash = calls.hash token;
      delivery_token = token;
      audit = audit_of account s invitation_created none;
    }
    reply ← call (invited new) (calls.create_invitation new)
    respond 201 (is_invitation calls.formats) reply

  unfoldable pub invite_member : Request → Callback
  invite_member request hash account s = do
    require_manager s.role
    json ← json_body request
    body ← or_throw input (parse_invitation_create calls.formats json)
    time ← parse_expiry body.expires_at
    token ← draw_token
    invite hash account s body time token

  unfoldable pub update : Text → Text → AuthSession → Text → MembershipUpdate → Body Response
  update hash account s user body = do
    let change : UpdateInput = record {
      session_hash = hash;
      account_id = account;
      user_id = user;
      role = body.role;
      status = body.status;
      audit = audit_of account s membership_updated (some user);
    }
    reply ← call (Event.updated change) (calls.update_membership change)
    respond 200 (is_membership calls.formats) reply

  unfoldable pub update_member : Request → Callback
  update_member request hash account s = do
    require_manager s.role
    user ← assert_uuid request.user_param membership_required
    json ← json_body request
    body ← or_throw input (parse_membership_update json)
    update hash account s user body

  unfoldable pub remove : Text → Text → AuthSession → Text → Body Response
  remove hash account s user = do
    let removal : RemovalInput = record {
      session_hash = hash;
      account_id = account;
      user_id = user;
      audit = audit_of account s membership_removed (some user);
    }
    reply ← call (dismissed removal) (calls.remove_membership removal)
    respond 200 (is_membership calls.formats) reply

  unfoldable pub remove_member : Request → Callback
  remove_member request hash account s = do
    require_manager s.role
    user ← assert_uuid request.user_param membership_required
    remove hash account s user

  unfoldable pub callback_of : Route → Request → Callback
  callback_of list_route request = list_members
  callback_of invite_route request = invite_member request
  callback_of update_route request = update_member request
  callback_of remove_route request = remove_member request

  abbrev pub input_error : Route → ApiError
  input_error list_route = unavailable
  input_error invite_route = operation_error invalid_invitation
  input_error update_route = invalid_update
  input_error remove_route = invalid_update

  unfoldable pub handle : Route → Request → Handler World Event ApiError Response
  handle route request w =
      let (r, (w', log)) = with_account request (callback_of route request) w in
      (catch_thrown (input_error route) r, (w', log))
