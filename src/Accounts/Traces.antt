-- ===== src/Accounts/Traces.antt =====
-- src/api/auth.rs and src/api/users.rs: any sequence of requests, whoever sends them.
use codasaurus.Accounts.{
  no_accounts, Invite, Db, owner_count, get_pending_by_token, verify_password,
}
use codasaurus.Accounts.Handlers.{
  Answer, refused, not_found, Machine, Request, State, check_auth_rate_limit, accepted_email,
  accept_as, keyed, login, logout, accept_invite, create_invite_handler, revoke_invite, update_user,
  remove_user, transfer_bootstrap_handler, change_my_password, oidc_callback, setup_admin, done,
}
use codasaurus.Accounts.Founded.{setup_admin-Keeps, setup_admin-IsSound, IsSound-owner_count}
use codasaurus.Accounts.Sound.{IsSound}
use codasaurus.Accounts.Ruled.{
  signed_in-Keeps, logout-Keeps, create_invite_handler-Keeps, revoke_invite-Keeps,
  update_user-Keeps, remove_user-Keeps, transfer_bootstrap_handler-Keeps, change_my_password-Keeps,
  admit-Keeps, oidc_callback-Keeps,
}
use codasaurus.Prelude.{
  ℕ, ◌<◌, String, Text, List, [], ◌∷◌, Option, none, some, Bool, Bool-cases, ◌≡◌, inl, inr,
}

-- The requests that reach the tables of accounts.
pub data Op : Type 0 where
  log_in : Text → Text → Op
  log_out : Op
  invite : Option Text → String → Op
  revoke_invite_of : ℕ → Op
  give_role : ℕ → String → Op
  remove : ℕ → Op
  pass_on : ℕ → Op
  new_password : Text → Text → Op
  join : Text → Option Text → Text → Op
  sign_in_oidc : Bool → Text → Op
  set_up : Text → Text → Op

-- Each request comes at its own moment and from its own sender.
abbrev pub Call : Type 0
Call = Machine × (Request × Op)

abbrev pub on_db : (Db → Answer × Db) → State → State
on_db f s = record s { db = (f s.db).1 }

unfoldable pub step : Call → State → State
step (m, (r, log_in email password)) s = (login m r email password s).1
step (m, (r, log_out)) s = on_db (logout m r) s
step (m, (r, invite email role)) s = on_db (create_invite_handler m r email role) s
step (m, (r, revoke_invite_of id)) s = on_db (revoke_invite m r id) s
step (m, (r, give_role id role)) s = on_db (update_user m r id role) s
step (m, (r, remove id)) s = on_db (remove_user m r id) s
step (m, (r, pass_on id)) s = on_db (transfer_bootstrap_handler m r id) s
step (m, (r, new_password current new)) s = on_db (change_my_password m r current new) s
step (m, (r, join raw email password)) s = (accept_invite m r raw email password s).1
step (m, (r, sign_in_oidc allow email)) s = on_db (oidc_callback m allow email) s
step (m, (r, set_up email password)) s = on_db (setup_admin m r email password) s

unfoldable pub run : List Call → State → State
run [] s = s
run (c ∷ cs) s = run cs (step c s)

login-Keeps :
    (m : Machine) (r : Request) (email password : Text) (s : State)
    → IsSound s.db
    → IsSound (login m r email password s).1.db
unfolding login
login-Keeps m r email password s h =
    elim (Bool-cases (check_auth_rate_limit m.now (keyed m r email) s.attempts).0) [
      | inl e ↦ rw e (
          signed_in-Keeps m r s.db h
            (verify_password m.matches_hash m.dummy_hash email password s.db))
      | inr e ↦ rw e h
    ]

accept_invite-Keeps :
    (m : Machine) (r : Request) (raw : Text) (email : Option Text) (password : Text) (s : State)
    → IsSound s.db
    → IsSound (accept_invite m r raw email password s).1.db
unfolding accept_invite
accept_invite-Keeps m r raw email password s h =
    each (get_pending_by_token m.sha256_hex m.now raw s.db)
  where
    limited : (i : Invite) (o : Option Text) → IsSound (accept_as m r i password o s).1.db
    limited i none = h
    limited i (some e) =
        elim (Bool-cases (check_auth_rate_limit m.now (keyed m r e) s.attempts).0) [
          | inl q ↦ rw q (admit-Keeps m r s.db h i e password)
          | inr q ↦ rw q h
        ]

    answered : Option Invite → Answer × State
    answered o = elim o [
      | none ↦ (refused not_found, s)
      | some i ↦ accept_as m r i password (accepted_email m i.email email) s
    ]

    each : (o : Option Invite) → IsSound (answered o).1.db
    each none = h
    each (some i) = limited i (accepted_email m i.email email)

step-Keeps : (c : Call) (s : State) → IsSound s.db → IsSound (step c s).db
unfolding step
step-Keeps (m, (r, log_in email password)) s h = login-Keeps m r email password s h
step-Keeps (m, (r, log_out)) s h = logout-Keeps m r s.db h
step-Keeps (m, (r, invite email role)) s h = create_invite_handler-Keeps m r s.db h email role
step-Keeps (m, (r, revoke_invite_of id)) s h = revoke_invite-Keeps m r s.db h id
step-Keeps (m, (r, give_role id role)) s h = update_user-Keeps m r s.db h id role
step-Keeps (m, (r, remove id)) s h = remove_user-Keeps m r s.db h id
step-Keeps (m, (r, pass_on id)) s h = transfer_bootstrap_handler-Keeps m r s.db h id
step-Keeps (m, (r, new_password current new)) s h = change_my_password-Keeps m r s.db h current new
step-Keeps (m, (r, join raw email password)) s h = accept_invite-Keeps m r raw email password s h
step-Keeps (m, (r, sign_in_oidc allow email)) s h = oidc_callback-Keeps m r s.db h allow email
step-Keeps (m, (r, set_up email password)) s h = setup_admin-Keeps m r email password s.db h

-- From sound tables, where ids are distinct, one account has the bootstrap flag and is an owner, and
-- every session belongs to an account, any sequence of logins, logouts, invitations, changes of a
-- role or a password, removals, hand-overs, joins and set-ups, at any moments and from any senders, leads to
-- sound tables.
pub run-IsSound : (cs : List Call) (s : State) → IsSound s.db → IsSound (run cs s).db
unfolding run
run-IsSound [] s h = h
run-IsSound (c ∷ cs) s h = run-IsSound cs (step c s) (step-Keeps c s h)

-- On day zero, once the set-up has made the first account, somebody is an owner after any sequence of
-- requests: no demotion, removal or hand-over takes the last owner away, in whatever order and from
-- whomever they come. The tables are sound all the time.
pub run-founded :
    (m : Machine) (r : Request) (email password : Text) (cs : List Call)
    → (setup_admin m r email password no_accounts).0 ≡ done
    → IsSound
        (run cs (record { db = (setup_admin m r email password no_accounts).1; attempts = [] })).db
      × (0
          < owner_count
              (run cs
                (record { db = (setup_admin m r email password no_accounts).1; attempts = [] })).db)
run-founded m r email password cs e =
    let s : State = record { db = (setup_admin m r email password no_accounts).1; attempts = [] } in
    let after = run-IsSound cs s (setup_admin-IsSound m r email password e) in
    (after, IsSound-owner_count (run cs s).db after)
