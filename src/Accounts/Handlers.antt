-- ===== src/Accounts/Handlers.antt =====
-- src/api/auth.rs, src/api/users.rs and `setup_admin` of src/api/setup.rs: signing in and out, and the
-- management of accounts. A handler runs as one step; the HTTP layer and the flow with the identity
-- provider are arguments.
use codasaurus.Rbac
use codasaurus.Rbac.{require_owner, current_user, role_rank, is_valid_role, normalize_role}
use codasaurus.Accounts.{
  User, Invite, Db, get_user_by_email, get_user_by_id, owner_count, update_user_role,
  transfer_bootstrap, delete_sessions_for_email, delete_user, set_password,
  validate_password_policy, verify_password, create_session, get_session, delete_session,
  create_invite, get_pending_by_token, revoke, accept_local, accept_oidc, upsert_oidc_user,
  create_user, create_bootstrap_owner, owner_exists,
}
use codasaurus.Prelude.{
  ℕ, ◌+◌, ◌-◌, String, Text, codes, str_eq, text_eq, strip_prefix, has_char, trim, split_by,
  is_empty_text, List, [], ◌∷◌, ◌++◌, map, Option, none, some, is_some, Bool, true, false, not,
  ◌&&◌, ◌||◌, ltb, leb, ◌==◌, if◌then◌else◌, retain,
}

pub data Refusal : Type 0 where
  unauthorized forbidden internal bad_request not_found too_many_requests : Refusal

pub data Answer : Type 0 where
  done : Answer
  refused : Refusal → Answer

-- Failed logins and accepted invites, by address and email: the count and the start of the window.
abbrev pub Attempts : Type 0
Attempts = List (Text × (ℕ × ℕ))

pub record State : Type 0 where
  pub db : Db
  pub attempts : Attempts

pub record Request : Type 0 where
  pub cookie : Option Text
  pub client_ip : Text

-- The libraries, and the moment.
pub record Machine : Type 0 where
  pub sha256_hex : Text → Text
  pub hash_password : Text → Text
  pub matches_hash : Text → Text → Bool
  pub dummy_hash : Text
  pub byte_len : Text → ℕ
  pub to_lowercase : Text → Text
  pub now : ℕ
  pub random_token : Text

abbrev pub first_some : List (Option Text) → Option Text
first_some [] = none
first_some (none ∷ os) = first_some os
first_some (some t ∷ os) = some t

unfoldable pub extract_token : Request → Option Text
extract_token r = elim r.cookie [
  | none ↦ none
  | some c ↦ first_some (
      map (λ pair. strip_prefix (codes "codasaurus_session=") (trim pair))
        (split_by (λ ch. ch == b';') c))
]

abbrev pub login_rate_limit : ℕ
login_rate_limit = 10

abbrev pub login_rate_window : ℕ
login_rate_window = 900

abbrev pub lookup_attempts : Text → Attempts → Option (ℕ × ℕ)
lookup_attempts k [] = none
lookup_attempts k ((j, e) ∷ m) = if text_eq j k then some e else lookup_attempts k m

abbrev pub put_attempts : Text → ℕ × ℕ → Attempts → Attempts
put_attempts k e [] = (k, e) ∷ []
put_attempts k e ((j, d) ∷ m) = if text_eq j k then (k, e) ∷ m else (j, d) ∷ put_attempts k e m

abbrev pub fresh_entry : ℕ → Option (ℕ × ℕ) → ℕ × ℕ
fresh_entry now none = (0, now)
fresh_entry now (some (n, started)) =
    if leb login_rate_window (now - started) then (0, now) else (n, started)

unfoldable pub check_auth_rate_limit : ℕ → Text → Attempts → Bool × Attempts
check_auth_rate_limit now key attempts =
    let kept = retain (λ (e : Text × (ℕ × ℕ)). ltb (now - e.1.1) login_rate_window) attempts in
    let entry = fresh_entry now (lookup_attempts key kept) in
    if leb login_rate_limit entry.0
    then (false, put_attempts key entry kept)
    else (true, put_attempts key (entry.0 + 1, entry.1) kept)

module _ (m : Machine) where
  abbrev pub session_email : Request → Db → Option Text
  session_email r db = elim (extract_token r) [
    | none ↦ none
    | some raw ↦ get_session m.sha256_hex m.now raw db
  ]

  abbrev pub as_row : Option User → Rbac.Answer (Option Rbac.UserRow)
  as_row none = Rbac.ok none
  as_row (some u) =
      Rbac.ok (some (record { email = u.email; role = u.role; is_bootstrap = u.is_bootstrap }))

  unfoldable pub owner_of : Request → Db → Rbac.Answer Rbac.UserView
  unfolding extract_token
  owner_of r db = require_owner (session_email r db) (λ e. as_row (get_user_by_email e db))

  abbrev pub refusal_of : Rbac.ApiError → Refusal
  refusal_of Rbac.unauthorized = unauthorized
  refusal_of Rbac.forbidden = forbidden
  refusal_of Rbac.internal = internal

  -- What an owner may do; anybody else is refused and nothing changes.
  abbrev pub as_owner : Rbac.Answer Rbac.UserView → (Rbac.UserView → Answer × Db) → Db → Answer × Db
  as_owner (Rbac.ok actor) act db = act actor
  as_owner (Rbac.err e) act db = (refused (refusal_of e), db)

  abbrev pub keyed : Request → Text → Text
  keyed r email = r.client_ip ++ (codes "/" ++ m.to_lowercase (trim email))

  abbrev pub signed_in : Option User → Db → Answer × Db
  signed_in none db = (refused unauthorized, db)
  signed_in (some u) db = elim (create_session m.sha256_hex m.now m.random_token u.email db) [
    | none ↦ (done, db)
    | some db' ↦ (done, db')
  ]

  unfoldable pub login : Request → Text → Text → State → Answer × State
  login r email password s =
      let (allowed, attempts) = check_auth_rate_limit m.now (keyed r email) s.attempts in
      let (answer, db) =
        signed_in (verify_password m.matches_hash m.dummy_hash email password s.db) s.db in
      if allowed
      then (answer, record { db = db; attempts = attempts })
      else (refused too_many_requests, record s { attempts = attempts })

  unfoldable pub logout : Request → Db → Answer × Db
  logout r db = elim (extract_token r) [
    | none ↦ (done, db)
    | some raw ↦ (done, delete_session m.sha256_hex raw db)
  ]

  abbrev pub invited_email : Option Text → Option Text
  invited_email none = none
  invited_email (some e) =
      let t = m.to_lowercase (trim e) in if is_empty_text t then none else some t

  abbrev pub bad_address : Option Text → Bool
  bad_address none = false
  bad_address (some e) = not (has_char b'@' e)

  abbrev pub is_taken : Option Text → Db → Bool
  is_taken none db = false
  is_taken (some e) db = is_some (get_user_by_email e db)

  abbrev pub invite_by : Option Text → String → Db → Rbac.UserView → Answer × Db
  invite_by email role db actor =
      if not (is_valid_role role)
      then (refused bad_request, db)
      else if bad_address (invited_email email) || is_taken (invited_email email) db
      then (refused bad_request, db)
      else elim (create_invite m.sha256_hex m.now m.random_token (invited_email email) role
          actor.email 7 db) [ none ↦ (refused internal, db) | some (i, db') ↦ (done, db') ]

  unfoldable pub create_invite_handler : Request → Option Text → String → Db → Answer × Db
  create_invite_handler r email role db = as_owner (owner_of r db) (invite_by email role db) db

  abbrev pub revoke_by : ℕ → Db → Rbac.UserView → Answer × Db
  revoke_by id db actor =
      let (found, db') = revoke id db in if found then (done, db') else (refused not_found, db)

  unfoldable pub revoke_invite : Request → ℕ → Db → Answer × Db
  revoke_invite r id db = as_owner (owner_of r db) (revoke_by id db) db

  abbrev pub change_role : ℕ → String → Db → Option User → Answer × Db
  change_role id role db none = (refused not_found, db)
  change_role id role db (some target) =
      if target.is_bootstrap && not (str_eq role "owner")
      then (refused bad_request, db)
      else if (leb (role_rank "owner") (role_rank target.role) && not (str_eq role "owner"))
          && leb (owner_count db) 1
      then (refused bad_request, db)
      else (done, update_user_role id role db)

  abbrev pub update_by_owner : ℕ → String → Db → Rbac.UserView → Answer × Db
  update_by_owner id role db actor =
      if not (is_valid_role role)
      then (refused bad_request, db)
      else change_role id role db (get_user_by_id id db)

  unfoldable pub update_user : Request → ℕ → String → Db → Answer × Db
  update_user r id role db = as_owner (owner_of r db) (update_by_owner id role db) db

  abbrev pub remove_target : ℕ → Db → Rbac.UserView → Option User → Answer × Db
  remove_target id db actor none = (refused not_found, db)
  remove_target id db actor (some target) =
      if target.is_bootstrap
      then (refused bad_request, db)
      else if leb (role_rank "owner") (role_rank target.role) && leb (owner_count db) 1
      then (refused bad_request, db)
      else if text_eq target.email actor.email && leb (owner_count db) 1
      then (refused bad_request, db)
      else (done, delete_user id (delete_sessions_for_email target.email db))

  unfoldable pub remove_user : Request → ℕ → Db → Answer × Db
  remove_user r id db =
      as_owner (owner_of r db) (λ actor. remove_target id db actor (get_user_by_id id db)) db

  abbrev pub hand_over : ℕ → Db → User → Option User → Answer × Db
  hand_over id db actor none = (refused not_found, db)
  hand_over id db actor (some target) =
      if target.id == actor.id
      then (refused bad_request, db)
      else if not (str_eq (normalize_role target.role) "owner")
      then (refused bad_request, db)
      else elim (transfer_bootstrap id db) [
        | none ↦ (refused internal, db)
        | some db' ↦ (done, db')
      ]

  abbrev pub transfer_by : ℕ → Db → Option User → Answer × Db
  transfer_by id db none = (refused unauthorized, db)
  transfer_by id db (some actor) =
      if actor.is_bootstrap
      then hand_over id db actor (get_user_by_id id db)
      else (refused forbidden, db)

  unfoldable pub transfer_bootstrap_handler : Request → ℕ → Db → Answer × Db
  transfer_bootstrap_handler r id db =
      as_owner (owner_of r db) (λ actor. transfer_by id db (get_user_by_email actor.email db)) db

  abbrev pub change_password : Text → Text → Rbac.UserView → Db → Option User → Answer × Db
  change_password current new actor db none = (refused unauthorized, db)
  change_password current new actor db (some u) =
      if is_empty_text u.password_hash
      then (refused bad_request, db)
      else if is_some (verify_password m.matches_hash m.dummy_hash actor.email current db)
      then (done, set_password actor.email (m.hash_password new) db)
      else (refused unauthorized, db)

  abbrev pub password_by : Text → Text → Db → Rbac.UserView → Answer × Db
  password_by current new db actor =
      if validate_password_policy m.byte_len new actor.email
      then change_password current new actor db (get_user_by_email actor.email db)
      else (refused bad_request, db)

  unfoldable pub change_my_password : Request → Text → Text → Db → Answer × Db
  change_my_password r current new db =
      as_owner (current_user (session_email r db) (λ e. as_row (get_user_by_email e db)))
        (password_by current new db) db

  -- The email of an invite, or the one that the guest gives.
  abbrev pub accepted_email : Option Text → Option Text → Option Text
  accepted_email (some locked) provided = elim provided [
    | none ↦ some locked
    | some p ↦
        let e = m.to_lowercase (trim p) in
        if not (is_empty_text e) && not (text_eq e (m.to_lowercase locked))
        then none
        else some locked
  ]
  accepted_email none provided = elim (invited_email provided) [
    | none ↦ none
    | some e ↦ if has_char b'@' e then some e else none
  ]

  abbrev pub welcomed : Option (User × Db) → Db → Answer × Db
  welcomed none db = (refused bad_request, db)
  welcomed (some (u, db')) db =
      elim (create_session m.sha256_hex m.now m.random_token u.email db') [
        | none ↦ (refused internal, db')
        | some db'' ↦ (done, db'')
      ]

  abbrev pub admit : Invite → Text → Text → Db → Answer × Db
  admit invite email password db =
      if not (validate_password_policy m.byte_len password email)
      then (refused bad_request, db)
      else if is_some (get_user_by_email email db)
      then (refused bad_request, db)
      else welcomed (accept_local m.now invite email (m.hash_password password) db) db

  abbrev pub accept_as : Request → Invite → Text → Option Text → State → Answer × State
  accept_as r invite password none s = (refused bad_request, s)
  accept_as r invite password (some email) s =
      let (allowed, attempts) = check_auth_rate_limit m.now (keyed r email) s.attempts in
      let (answer, db) = admit invite email password s.db in
      if allowed
      then (answer, record { db = db; attempts = attempts })
      else (refused too_many_requests, record s { attempts = attempts })

  unfoldable pub accept_invite : Request → Text → Option Text → Text → State → Answer × State
  accept_invite r raw email password s = elim (get_pending_by_token m.sha256_hex m.now raw s.db) [
    | none ↦ (refused not_found, s)
    | some invite ↦ accept_as r invite password (accepted_email invite.email email) s
  ]

  abbrev pub open_join : Bool → Text → Db → Option (User × Db)
  open_join true email db = upsert_oidc_user m.now email "viewer" db
  open_join false email db = none

  abbrev pub joined_oidc : Bool → Text → Db → Option (User × Db) → Option (User × Db)
  joined_oidc allow email db (some joined) = some joined
  joined_oidc allow email db none = open_join allow email db

  -- The email is the one that the identity provider has verified.
  abbrev pub known_or_joined : Bool → Text → Db → Option User → Option (User × Db)
  known_or_joined allow email db (some u) = some (u, db)
  known_or_joined allow email db none =
      joined_oidc allow email db (accept_oidc m.to_lowercase m.now email db)

  unfoldable pub oidc_callback : Bool → Text → Db → Answer × Db
  oidc_callback allow email db =
      elim (known_or_joined allow email db (get_user_by_email email db)) [
        | none ↦ (refused bad_request, db)
        | some (u, db') ↦ elim (create_session m.sha256_hex m.now m.random_token email db') [
          | none ↦ (refused internal, db')
          | some db'' ↦ (done, db'')
        ]
      ]

  -- The message of the database says `unique`, not the `UNIQUE` that the code looks for.
  abbrev pub created : Db → Option (User × Db) → Answer × Db
  created db none = (refused internal, db)
  created db (some (u, db')) = (done, db')

  abbrev pub account_by : Text → Text → Db → Answer × Db
  account_by email password db =
      if not (has_char b'@' email)
      then (refused bad_request, db)
      else if not (validate_password_policy m.byte_len password email)
      then (refused bad_request, db)
      else if owner_exists db
      then created db (create_user m.hash_password m.now email password "owner" db)
      else created db (create_bootstrap_owner m.hash_password m.now email password db)

  -- src/api/setup.rs: the first owner needs no session.
  unfoldable pub setup_admin : Request → Text → Text → Db → Answer × Db
  setup_admin r email password db =
      if owner_exists db
      then as_owner (owner_of r db) (λ actor. account_by email password db) db
      else account_by email password db
