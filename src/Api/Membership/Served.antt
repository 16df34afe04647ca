-- ===== src/Api/Membership/Served.antt =====
-- apps/api/src/memberships.ts: what the handlers do once they have a session.
use touchmyapi.Common.{
  ℕ, leb, ltb, ◌+◌, ◌≡◌, refl, arith, Bool, true, List, [], ◌∷◌, Option, none, some, Result, ok,
  err, Text, lower, is_empty, not, ◌||◌, Bool-cases, inl, inr,
}
use touchmyapi.Common.Handler.{Handler, pure, throw_unless, or_throw, continue, ◌>>=◌, ◌>>◌}
use touchmyapi.Js.{Value}
use touchmyapi.Policy.Patterns.{is_strict_uuid}
use touchmyapi.Contracts.Membership.{
  InvitationCreate, MembershipUpdate, parse_invitation_create, parse_membership_update,
  is_membership_list, is_membership, is_invitation,
}
use touchmyapi.Api.Membership.{
  Thrown, api, FailureCode, membership_required, operation_error, Request, AuthSession,
  invitation_created, membership_updated, membership_removed, InvitationInput, UpdateInput,
  RemovalInput, Reply, Event, MembershipCalls, Response, assert_uuid, parse_expiry, check_expiry,
  assert_success, is_manager, require_manager, respond, list_members, audit_of, invite,
  invite_member, update, update_member, remove, remove_member, Route, list_route, invite_route,
  update_route, remove_route, callback_of, max_lifetime, json_body, draw_token,
}
use touchmyapi.Api.Membership.Access.{is_done, IsUuidParam, IsPermitted, rejected, performed, Ran}

module _ {World : Type 0} (calls : MembershipCalls World) (request : Request) where
  abbrev Log : Type 0
  Log = List Event

  module _ (hash account : Text) (s : AuthSession) where
    -- A call of the store whose reply is turned into a response.
    respond-Ran :
        (status : ℕ) (schema : Value → Bool) (e : Reply Value → Event)
        → ((o : Reply Value) → IsPermitted calls request hash account s (e o))
        → ((v : Value) → is_done (e (ok (ok v))) ≡ true)
        → (o : Reply Value × World)
        → Ran calls request hash account s
            (continue (o.0, (o.1, e o.0 ∷ [])) (respond calls status schema))
    unfolding respond assert_success
    respond-Ran status schema e p d (err x, w) =
        performed (e (err x)) (p (err x)) (λ h. ground arith)
    respond-Ran status schema e p d (ok (err x), w) =
        performed (e (ok (err x))) (p (ok (err x))) (λ h. ground arith)
    respond-Ran status schema e p d (ok (ok v), w) = elim (Bool-cases (schema v)) [
      | inl fine ↦ rw fine (performed (e (ok (ok v))) (p (ok (ok v))) (λ h. d v))
      | inr bad ↦ rw bad (performed (e (ok (ok v))) (p (ok (ok v))) (λ h. d v))
    ]

    listed-Ran :
        (o : Reply (List Value) × World)
        → Ran calls request hash account s (
            continue
              (o.0, (o.1, Event.listed hash account o.0 ∷ []))
              (λ reply. assert_success calls reply >>= λ values.
                throw_unless (is_membership_list calls.formats values) Thrown.input
                >> pure (record { status = 200; body = values })))
    unfolding assert_success
    listed-Ran (err x, w) =
        performed (Event.listed hash account (err x)) (refl, refl) (λ h. ground arith)
    listed-Ran (ok (err x), w) =
        performed (Event.listed hash account (ok (err x))) (refl, refl) (λ h. ground arith)
    listed-Ran (ok (ok vs), w) = elim (Bool-cases (is_membership_list calls.formats vs)) [
      | inl fine ↦
          rw fine (performed (Event.listed hash account (ok (ok vs))) (refl, refl) (λ h. refl))
      | inr bad ↦
          rw bad (performed (Event.listed hash account (ok (ok vs))) (refl, refl) (λ h. refl))
    ]

    list_members-Ran :
        (w : World) → Ran calls request hash account s (list_members calls hash account s w)
    unfolding list_members
    list_members-Ran w = listed-Ran (calls.list_memberships hash account w)

    -- What has thrown calls nothing.
    stopped : (e : Thrown) (w : World) → Ran calls request hash account s (err e, (w, []))
    stopped e w = rejected refl

    invite-Ran :
        (body : InvitationCreate) (time : ℕ) (token : Text) (w : World)
        → is_manager s.role ≡ true
        → Ran calls request hash account s (invite calls hash account s body time token w)
    unfolding invite
    invite-Ran body time token w m =
        let i : InvitationInput = record {
          session_hash = hash;
          account_id = account;
          email = body.email;
          role = body.role;
          expires_at = time;
          token_hash = calls.hash token;
          delivery_token = token;
          audit = audit_of calls account s invitation_created none;
        } in
        respond-Ran 201 (is_invitation calls.formats) (Event.invited i)
          (λ o. (
            m,
            refl,
            refl,
            refl,
            record { same_account = refl; actor = refl; named = refl; target_is = refl },
          ))
          (λ v. refl) (calls.create_invitation i w)

    update-Ran :
        (user : Text) (body : MembershipUpdate) (w : World)
        → is_manager s.role ≡ true
        → IsUuidParam request.user_param user
        → Ran calls request hash account s (update calls hash account s user body w)
    unfolding update
    update-Ran user body w m u =
        let i : UpdateInput = record {
          session_hash = hash;
          account_id = account;
          user_id = user;
          role = body.role;
          status = body.status;
          audit = audit_of calls account s membership_updated (some user);
        } in
        respond-Ran 200 (is_membership calls.formats) (Event.updated i)
          (λ o. (
            m,
            refl,
            refl,
            u,
            record { same_account = refl; actor = refl; named = refl; target_is = refl },
          ))
          (λ v. refl) (calls.update_membership i w)

    remove-Ran :
        (user : Text) (w : World)
        → is_manager s.role ≡ true
        → IsUuidParam request.user_param user
        → Ran calls request hash account s (remove calls hash account s user w)
    unfolding remove
    remove-Ran user w m u =
        let i : RemovalInput = record {
          session_hash = hash;
          account_id = account;
          user_id = user;
          audit = audit_of calls account s membership_removed (some user);
        } in
        respond-Ran 200 (is_membership calls.formats) (Event.dismissed i)
          (λ o. (
            m,
            refl,
            refl,
            u,
            record { same_account = refl; actor = refl; named = refl; target_is = refl },
          ))
          (λ v. refl) (calls.remove_membership i w)

    -- What follows a parameter that must be a UUID.
    uuid-Ran :
        (param : Option Text) (code : FailureCode)
        (next : Text → Handler World Event Thrown Response) (w : World)
        → ((id : Text) → IsUuidParam param id → Ran calls request hash account s (next id w))
        → Ran calls request hash account s (continue (assert_uuid calls param code w) next)
    unfolding assert_uuid
    uuid-Ran none code next w h = stopped _ w
    uuid-Ran (some t) code next w h = elim (Bool-cases (is_empty t || not (is_strict_uuid t))) [
      | inl bad ↦ rw bad (stopped (api (operation_error code)) w)
      | inr fine ↦ rw fine (
          h (lower t)
            (record { text = t; given = refl; well_formed = ground arith; lowered = refl }))
    ]

    manager-Ran :
        (next : Handler World Event Thrown Response) (w : World)
        → (is_manager s.role ≡ true → Ran calls request hash account s (next w))
        → Ran calls request hash account s (continue (require_manager calls s.role w) (λ _. next))
    unfolding require_manager
    manager-Ran next w h = elim (Bool-cases (is_manager s.role)) [
      | inl fine ↦ rw fine (h fine)
      | inr bad ↦ rw bad (stopped (api (operation_error membership_required)) w)
    ]

    -- A step that calls nothing.
    step-Ran :
        {A : Type 0} (r : Result Thrown A × (World × Log))
        (next : A → Handler World Event Thrown Response)
        → r.1.1 ≡ []
        → ((a : A) (w : World) → Ran calls request hash account s (next a w))
        → Ran calls request hash account s (continue r next)
    step-Ran (err e, (w, log)) next q h = rw q (stopped e w)
    step-Ran (ok a, (w, log)) next q h = rw q (h a w)

    or_throw-silent :
        {A : Type 0} (o : Option A) (w : World) → (or_throw {N = Event} Thrown.input o w).1.1 ≡ []
    or_throw-silent none w = refl
    or_throw-silent (some a) w = refl

    check_expiry-silent :
        (now : ℕ) (o : Option ℕ) (w : World) → (check_expiry calls now o w).1.1 ≡ []
    unfolding check_expiry
    check_expiry-silent now none w = refl
    check_expiry-silent now (some time) w =
        elim (Bool-cases (leb time now || ltb (now + max_lifetime) time)) [
          | inl late ↦ rw late refl
          | inr fine ↦ rw fine refl
        ]

    parse_expiry-silent : (t : Text) (w : World) → (parse_expiry calls t w).1.1 ≡ []
    unfolding parse_expiry
    parse_expiry-silent t w = check_expiry-silent (calls.now w) (calls.read_date t) w

    invite_member-Ran :
        (w : World)
        → Ran calls request hash account s (invite_member calls request hash account s w)
    unfolding invite_member
    invite_member-Ran w = manager-Ran _ w (λ m.
        step-Ran (json_body calls request w) _ refl (λ json w1.
          step-Ran (or_throw Thrown.input (parse_invitation_create calls.formats json) w1) _
            (or_throw-silent (parse_invitation_create calls.formats json) w1)
            (λ body w2.
              step-Ran (parse_expiry calls body.expires_at w2) _
                (parse_expiry-silent body.expires_at w2)
                (λ time w3.
                  step-Ran (draw_token calls w3) (invite calls hash account s body time) refl
                    (λ token w4. invite-Ran body time token w4 m)))))

    update_member-Ran :
        (w : World)
        → Ran calls request hash account s (update_member calls request hash account s w)
    unfolding update_member
    update_member-Ran w = manager-Ran _ w (λ m.
        uuid-Ran request.user_param membership_required _ w (λ user u.
          step-Ran (json_body calls request w) _ refl (λ json w1.
            step-Ran (or_throw Thrown.input (parse_membership_update json) w1) _
              (or_throw-silent (parse_membership_update json) w1)
              (λ body w2. update-Ran user body w2 m u))))

    remove_member-Ran :
        (w : World)
        → Ran calls request hash account s (remove_member calls request hash account s w)
    unfolding remove_member
    remove_member-Ran w =
        manager-Ran _ w (λ m.
          uuid-Ran request.user_param membership_required _ w (λ user u. remove-Ran user w m u))

    pub callback_of-Ran :
        (route : Route) (w : World)
        → Ran calls request hash account s (callback_of calls route request hash account s w)
    unfolding callback_of
    callback_of-Ran list_route w = list_members-Ran w
    callback_of-Ran invite_route w = invite_member-Ran w
    callback_of-Ran update_route w = update_member-Ran w
    callback_of-Ran remove_route w = remove_member-Ran w
