-- ===== src/Api/Membership/Access.antt =====
-- apps/api/src/memberships.ts: under which session the routes call the store.
use touchmyapi.Common.{
  ◌≡◌, Bool, true, false, List, [], ◌∷◌, Option, none, some, Result, ok, err, Text, lower,
}
use touchmyapi.Policy.Patterns.{is_strict_uuid}
use touchmyapi.Policy.Membership.{active}
use touchmyapi.Api.Session.{read_session_token}
use touchmyapi.Api.Membership.{
  Thrown, Request, AuthSession, MembershipAuditEvent, AuditAction, invitation_created,
  membership_updated, membership_removed, Event, MembershipCalls, Response, is_manager,
}

abbrev pub has_failed : {E A : Type 0} → Result E A → Bool
has_failed (ok a) = false
has_failed (err e) = true

-- The store has done what it was asked.
abbrev pub is_done : Event → Bool
is_done (Event.listed hash account (ok (ok vs))) = true
is_done (Event.invited input (ok (ok v))) = true
is_done (Event.updated input (ok (ok v))) = true
is_done (Event.dismissed input (ok (ok v))) = true
is_done _ = false

-- A parameter of the path that is a UUID, in lower case.
pub record IsUuidParam (param : Option Text) (id : Text) : Type 0 where
  pub text : Text
  pub given : param ≡ some text
  pub well_formed : is_strict_uuid text ≡ true
  pub lowered : id ≡ lower text

module _ {World : Type 0} (calls : MembershipCalls World) (request : Request) where
  abbrev pub Log : Type 0
  Log = List Event

  -- The session that a request acts under: that of its token, active in the account of the path.
  pub record IsSession (hash account : Text) (s : AuthSession) : Type 0 where
    pub token : Text
    pub carried : read_session_token request.cookie calls.cookie_name ≡ some token
    pub hashed : hash ≡ calls.hash token
    pub account_is : IsUuidParam request.account_param account
    pub same : s.account_id ≡ account
    pub active_is : s.membership_status ≡ active

  pub record IsAudited (account : Text) (s : AuthSession) (audit : MembershipAuditEvent)
      (action : AuditAction) (target : Option Text) : Type 0 where
    pub same_account : audit.account_id ≡ account
    pub actor : audit.actor_user_id ≡ s.user_id
    pub named : audit.action ≡ action
    pub target_is : audit.target_user_id ≡ target

  -- A call of the store that such a session may make.
  abbrev pub IsPermitted : (hash account : Text) → AuthSession → Event → Type 0
  IsPermitted hash account s (Event.resolved h o) = false ≡ true
  IsPermitted hash account s (Event.listed h a o) = (h ≡ hash) × (a ≡ account)
  IsPermitted hash account s (Event.invited i o) =
      (is_manager s.role ≡ true)
      × (i.session_hash ≡ hash)
      × (i.account_id ≡ account)
      × (i.token_hash ≡ calls.hash i.delivery_token)
      × IsAudited account s i.audit invitation_created none
  IsPermitted hash account s (Event.updated i o) =
      (is_manager s.role ≡ true)
      × (i.session_hash ≡ hash)
      × (i.account_id ≡ account)
      × IsUuidParam request.user_param i.user_id
      × IsAudited account s i.audit membership_updated (some i.user_id)
  IsPermitted hash account s (Event.dismissed i o) =
      (is_manager s.role ≡ true)
      × (i.session_hash ≡ hash)
      × (i.account_id ≡ account)
      × IsUuidParam request.user_param i.user_id
      × IsAudited account s i.audit membership_removed (some i.user_id)

  -- What a handler does once it has the session: at most one call of the store.
  pub data IsServed (hash account : Text) (s : AuthSession) {E : Type 0} (r : Result E Response)
      : Log → Type 0 where
    rejected : has_failed r ≡ true → IsServed hash account s r []
    performed :
        (e : Event)
        → IsPermitted hash account s e
        → (has_failed r ≡ false → is_done e ≡ true)
        → IsServed hash account s r (e ∷ [])

  -- What a handler does with a request.
  pub data IsHandled {E : Type 0} (r : Result E Response) : Log → Type 0 where
    refused : has_failed r ≡ true → IsHandled r []
    unresolved :
        (token : Text) (o : Result Thrown (Option AuthSession))
        → read_session_token request.cookie calls.cookie_name ≡ some token
        → has_failed r ≡ true
        → IsHandled r (Event.resolved (calls.hash token) o ∷ [])
    served :
        (hash account : Text) (s : AuthSession) (log : Log)
        → IsSession hash account s
        → IsServed hash account s r log
        → IsHandled r (Event.resolved hash (ok (some s)) ∷ log)

  abbrev pub Ran :
      (hash account : Text) → AuthSession → Result Thrown Response × (World × Log) → Type 0
  Ran hash account s (r, (w, log)) = IsServed hash account s r log

  abbrev pub Handled : Result Thrown Response × (World × Log) → Type 0
  Handled (r, (w, log)) = IsHandled r log
