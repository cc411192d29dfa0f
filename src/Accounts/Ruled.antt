-- ===== src/Accounts/Ruled.antt =====
-- src/api/auth.rs and src/api/users.rs: any sequence of requests, whoever sends them.
use codasaurus.Rbac
use codasaurus.Rbac.{is_valid_role, role_rank, normalize_role, current_user}
use codasaurus.Accounts.{
  User, Session, Invite, Db, has_user_id, owner_count, get_user_by_email, get_user_by_id,
  update_user_role, transfer_bootstrap, delete_sessions_for_email, delete_user, set_password,
  validate_password_policy, verify_password, create_session, delete_session, create_invite, revoke,
  accept_local, accept_oidc,
}
use codasaurus.Accounts.Handlers
use codasaurus.Accounts.Handlers.{
  Answer, done, refused, State, Request, Machine, bad_request, check_auth_rate_limit, owner_of,
  as_owner, as_row, session_email, signed_in, login, logout, invite_by, invited_email, bad_address,
  is_taken, create_invite_handler, revoke_by, revoke_invite, change_role, update_by_owner,
  update_user, remove_target, remove_user, hand_over, transfer_by, transfer_bootstrap_handler,
  change_password, password_by, change_my_password, accepted_email, welcomed, admit, accept_as,
  accept_invite, open_join, joined_oidc, known_or_joined, oidc_callback, keyed, extract_token,
}
use codasaurus.Accounts.Sound.{IsSound}
use codasaurus.Accounts.Kept.{set_password-IsSound, update_user_role-IsSound, handed_over-IsSound}
use codasaurus.Accounts.Joined.{
  Lands, LandsDb, create_session-LandsDb, retain_sessions-IsSound, delete_user-IsSound,
  create_invite-Lands, revoke-IsSound, accept_local-Lands, accept_oidc-Lands,
  upsert_oidc_user-Lands,
}
use codasaurus.Prelude.{
  ℕ, String, Text, str_eq, text_eq, is_empty_text, Option, none, some, is_some, Bool, true, false,
  not, ◌&&◌, ◌||◌, leb, ◌==◌, if◌then◌else◌, Bool-cases, Option-cases, any, ◌≡◌, ◌⊎◌, inl, inr,
}

module _ (m : Machine) (r : Request) where
  module _ (db : Db) (h : IsSound db) where
    abbrev pub Keeps : Answer × Db → Type 0
    Keeps x = IsSound x.1

    pub Keeps-as_owner :
        (a : Rbac.Answer Rbac.UserView) (act : Rbac.UserView → Answer × Db)
        → ((actor : Rbac.UserView) → Keeps (act actor))
        → Keeps (as_owner m a act db)
    Keeps-as_owner (Rbac.ok actor) act k = k actor
    Keeps-as_owner (Rbac.err e) act k = h

    -- A refusal changes nothing.
    pub Keeps-if :
        (b : Bool) (x : Answer × Db) → Keeps x → Keeps (if b then (refused bad_request, db) else x)
    Keeps-if true x k = h
    Keeps-if false x k = k

    pub signed_in-Keeps : (o : Option User) → Keeps (signed_in m o db)
    signed_in-Keeps none = h
    signed_in-Keeps (some u) =
        each (create_session m.sha256_hex m.now m.random_token u.email db)
          (create_session-LandsDb db h m.sha256_hex m.now m.random_token u.email)
      where
        each :
            (o : Option Db)
            → LandsDb o
            → Keeps (elim o [ none ↦ (done, db) | some db' ↦ (done, db') ])
        each none k = h
        each (some db') k = k

    pub logout-Keeps : Keeps (logout m r db)
    unfolding logout delete_session
    logout-Keeps = each (extract_token r)
      where
        each :
            (o : Option Text)
            → Keeps (elim o [
              | none ↦ (done, db)
              | some raw ↦ (done, delete_session m.sha256_hex raw db)
            ])
        each none = h
        each (some raw) = retain_sessions-IsSound db h _

    pub create_invite_handler-Keeps :
        (email : Option Text) (role : String) → Keeps (create_invite_handler m r email role db)
    unfolding create_invite_handler
    create_invite_handler-Keeps email role =
        Keeps-as_owner (owner_of m r db) (invite_by m email role db) λ actor.
          Keeps-if (not (is_valid_role role)) _ (
            Keeps-if
              (bad_address m (invited_email m email) || is_taken m (invited_email m email) db)
              (answered (
                create_invite m.sha256_hex m.now m.random_token (invited_email m email) role
                  actor.email 7 db))
              (each
                (create_invite m.sha256_hex m.now m.random_token (invited_email m email) role
                  actor.email 7 db)
                (create_invite-Lands db h m.sha256_hex m.now m.random_token (invited_email m email)
                  role actor.email 7)))
      where
        answered : Option (Invite × Db) → Answer × Db
        answered o = elim o [ none ↦ (refused Handlers.internal, db) | some (i, db') ↦ (done, db') ]

        each : (o : Option (Invite × Db)) → Lands o → Keeps (answered o)
        each none k = h
        each (some (i, db')) k = k

    pub revoke_invite-Keeps : (id : ℕ) → Keeps (revoke_invite m r id db)
    unfolding revoke_invite
    revoke_invite-Keeps id = Keeps-as_owner (owner_of m r db) (revoke_by m id db) λ actor. each _
      where
        each :
            (b : Bool)
            → Keeps (if b then (done, (revoke id db).1) else (refused Handlers.not_found, db))
        each true = revoke-IsSound db h id
        each false = h

    pub update_user-Keeps : (id : ℕ) (role : String) → Keeps (update_user m r id role db)
    unfolding update_user
    update_user-Keeps id role =
        Keeps-as_owner (owner_of m r db) (update_by_owner m id role db) λ actor.
          Keeps-if (not (is_valid_role role)) (change_role m id role db (get_user_by_id id db))
            (each (Option-cases (get_user_by_id id db)))
      where
        guarded :
            (t : User) → get_user_by_id id db ≡ some t → Keeps (change_role m id role db (some t))
        guarded t e = elim (Bool-cases (t.is_bootstrap && not (str_eq role "owner"))) [
          | inl q ↦ rw q h
          | inr q ↦ rw q (
              Keeps-if
                ((leb (role_rank "owner") (role_rank t.role) && not (str_eq role "owner"))
                  && leb (owner_count db) 1)
                (done, update_user_role id role db) (update_user_role-IsSound db h id role t e q))
        ]

        each :
            (get_user_by_id id db ≡ none) ⊎ ((t : User) × (get_user_by_id id db ≡ some t))
            → Keeps (change_role m id role db (get_user_by_id id db))
        each (inl e) = rw e h
        each (inr (t, e)) = rw e (guarded t e)

    pub remove_user-Keeps : (id : ℕ) → Keeps (remove_user m r id db)
    unfolding remove_user delete_sessions_for_email
    remove_user-Keeps id =
        Keeps-as_owner (owner_of m r db)
          (λ actor. remove_target m id db actor (get_user_by_id id db))
          λ actor. each actor (Option-cases (get_user_by_id id db))
      where
        gone :
            (t : User)
            → get_user_by_id id db ≡ some t
            → t.is_bootstrap ≡ false
            → IsSound (delete_user id (delete_sessions_for_email t.email db))
        gone t e q =
            delete_user-IsSound (delete_sessions_for_email t.email db)
              (retain_sessions-IsSound db h (λ (x : Session). not (text_eq x.email t.email))) id t e
              q

        guarded :
            (actor : Rbac.UserView) (t : User)
            → get_user_by_id id db ≡ some t
            → Keeps (remove_target m id db actor (some t))
        guarded actor t e = elim (Bool-cases t.is_bootstrap) [
          | inl q ↦ rw q h
          | inr q ↦ rw q (
              Keeps-if (leb (role_rank "owner") (role_rank t.role) && leb (owner_count db) 1)
                (if text_eq t.email actor.email && leb (owner_count db) 1
                  then (refused bad_request, db)
                  else (done, delete_user id (delete_sessions_for_email t.email db)))
                (Keeps-if (text_eq t.email actor.email && leb (owner_count db) 1)
                  (done, delete_user id (delete_sessions_for_email t.email db)) (gone t e q)))
        ]

        each :
            (actor : Rbac.UserView)
            → (get_user_by_id id db ≡ none) ⊎ ((t : User) × (get_user_by_id id db ≡ some t))
            → Keeps (remove_target m id db actor (get_user_by_id id db))
        each actor (inl e) = rw e h
        each actor (inr (t, e)) = rw e (guarded actor t e)

    transfer_bootstrap-LandsDb :
        (id : ℕ) (t : User) → get_user_by_id id db ≡ some t → LandsDb (transfer_bootstrap id db)
    unfolding transfer_bootstrap
    transfer_bootstrap-LandsDb id t e = elim (Bool-cases (any (has_user_id id) db.users)) [
      | inl q ↦ rw q (handed_over-IsSound db h id t e)
      | inr q ↦ rw q tt
    ]

    pub transfer_bootstrap_handler-Keeps : (id : ℕ) → Keeps (transfer_bootstrap_handler m r id db)
    unfolding transfer_bootstrap_handler
    transfer_bootstrap_handler-Keeps id =
        Keeps-as_owner (owner_of m r db)
          (λ actor. transfer_by m id db (get_user_by_email actor.email db))
          λ actor. by (get_user_by_email actor.email db)
      where
        answered : Option Db → Answer × Db
        answered o = elim o [ none ↦ (refused Handlers.internal, db) | some db' ↦ (done, db') ]

        passed : Answer × Db
        passed = answered (transfer_bootstrap id db)

        kept_by : (o : Option Db) → LandsDb o → Keeps (answered o)
        kept_by none k = h
        kept_by (some db') k = k

        kept : (t : User) → get_user_by_id id db ≡ some t → Keeps passed
        kept t e = kept_by (transfer_bootstrap id db) (transfer_bootstrap-LandsDb id t e)

        handed :
            (actor : User)
            → (get_user_by_id id db ≡ none) ⊎ ((t : User) × (get_user_by_id id db ≡ some t))
            → Keeps (hand_over m id db actor (get_user_by_id id db))
        handed actor (inl e) = rw e h
        handed actor (inr (t, e)) = rw e (
            Keeps-if (t.id == actor.id)
              (if not (str_eq (normalize_role t.role) "owner")
                then (refused bad_request, db)
                else passed)
              (Keeps-if (not (str_eq (normalize_role t.role) "owner")) passed (kept t e)))

        by : (o : Option User) → Keeps (transfer_by m id db o)
        by none = h
        by (some actor) = elim (Bool-cases actor.is_bootstrap) [
          | inl e ↦ rw e (handed actor (Option-cases (get_user_by_id id db)))
          | inr e ↦ rw e h
        ]

    pub change_my_password-Keeps :
        (current new : Text) → Keeps (change_my_password m r current new db)
    unfolding change_my_password
    change_my_password-Keeps current new =
        Keeps-as_owner
          (current_user (session_email m r db) (λ e. as_row m (get_user_by_email e db)))
          (password_by m current new db)
          λ actor. allowed actor (validate_password_policy m.byte_len new actor.email)
      where
        verified :
            (actor : Rbac.UserView) (b : Bool)
            → Keeps (
                if b
                then (done, set_password actor.email (m.hash_password new) db)
                else (refused Handlers.unauthorized, db))
        verified actor true = set_password-IsSound db h actor.email (m.hash_password new)
        verified actor false = h

        found :
            (actor : Rbac.UserView) (o : Option User)
            → Keeps (change_password m current new actor db o)
        found actor none = h
        found actor (some u) =
            Keeps-if (is_empty_text u.password_hash)
              (if is_some (verify_password m.matches_hash m.dummy_hash actor.email current db)
                then (done, set_password actor.email (m.hash_password new) db)
                else (refused Handlers.unauthorized, db))
              (verified actor
                (is_some (verify_password m.matches_hash m.dummy_hash actor.email current db)))

        allowed :
            (actor : Rbac.UserView) (b : Bool)
            → Keeps (
                if b
                then change_password m current new actor db (get_user_by_email actor.email db)
                else (refused bad_request, db))
        allowed actor true = found actor (get_user_by_email actor.email db)
        allowed actor false = h

    -- A session opened in sound tables, or none.
    opened :
        (db' : Db)
        → IsSound db'
        → (email : Text)
        → Keeps (elim (create_session m.sha256_hex m.now m.random_token email db') [
          | none ↦ (refused Handlers.internal, db')
          | some db'' ↦ (done, db'')
        ])
    opened db' k email =
        each (create_session m.sha256_hex m.now m.random_token email db')
          (create_session-LandsDb db' k m.sha256_hex m.now m.random_token email)
      where
        each :
            (o : Option Db)
            → LandsDb o
            → Keeps (elim o [ none ↦ (refused Handlers.internal, db') | some db'' ↦ (done, db'') ])
        each none l = k
        each (some db'') l = l

    pub admit-Keeps : (i : Invite) (email password : Text) → Keeps (admit m i email password db)
    admit-Keeps i email password =
        Keeps-if (not (validate_password_policy m.byte_len password email))
          (if is_some (get_user_by_email email db)
            then (refused bad_request, db)
            else welcomed m (accept_local m.now i email (m.hash_password password) db) db)
          (Keeps-if (is_some (get_user_by_email email db))
            (welcomed m (accept_local m.now i email (m.hash_password password) db) db)
            (each (accept_local m.now i email (m.hash_password password) db)
              (accept_local-Lands db h m.now i email (m.hash_password password))))
      where
        each : (o : Option (User × Db)) → Lands o → Keeps (welcomed m o db)
        each none k = h
        each (some (u, db')) k = opened db' k u.email

    pub oidc_callback-Keeps : (allow : Bool) (email : Text) → Keeps (oidc_callback m allow email db)
    unfolding oidc_callback
    oidc_callback-Keeps allow email =
        last (known_or_joined m allow email db (get_user_by_email email db))
          (joins (get_user_by_email email db))
      where
        anyone : (b : Bool) → Lands (open_join m b email db)
        anyone true = upsert_oidc_user-Lands db h m.now email "viewer"
        anyone false = tt

        invited : (o : Option (User × Db)) → Lands o → Lands (joined_oidc m allow email db o)
        invited (some x) k = k
        invited none k = anyone allow

        joins : (o : Option User) → Lands (known_or_joined m allow email db o)
        joins (some u) = h
        joins none =
            invited (accept_oidc m.to_lowercase m.now email db)
              (accept_oidc-Lands db h m.to_lowercase m.now email)

        last :
            (o : Option (User × Db))
            → Lands o
            → Keeps (elim o [
              | none ↦ (refused bad_request, db)
              | some (u, db') ↦ elim (create_session m.sha256_hex m.now m.random_token email db') [
                | none ↦ (refused Handlers.internal, db')
                | some db'' ↦ (done, db'')
              ]
            ])
        last none k = h
        last (some (u, db')) k = opened db' k email
