-- ===== src/Accounts.antt =====
-- src/db/users.rs, src/db/sessions.rs and src/db/invites.rs, with their tables in
-- src/db/migrations.rs: the accounts of the dashboard. Argon2, SHA-256 and the lower case of all of
-- Unicode are arguments, and so is each random token.
pub mod Handlers
pub mod Sound
pub mod Kept
pub mod Joined
pub mod Ruled
pub mod Founded
pub mod Traces
pub mod Managed
use codasaurus.Prelude.{
  ℕ, ◌+◌, ◌*◌, min, max, String, Text, text_eq, to_ascii_lowercase, is_empty_text, List, [], ◌∷◌,
  ◌++◌, Option, none, some, is_some, Bool, true, false, not, ◌&&◌, ◌||◌, ltb, leb, ◌==◌,
  if◌then◌else◌, one_of, retain, any, count_if, sort_by,
}

pub record User : Type 0 where
  pub id : ℕ
  pub email : Text
  pub password_hash : Text
  pub role : String
  pub auth_provider : String
  pub is_bootstrap : Bool
  pub created_at : ℕ

pub record Session : Type 0 where
  pub token : Text
  pub email : Text
  pub created_at : ℕ
  pub expires_at : ℕ

pub record Invite : Type 0 where
  pub id : ℕ
  pub token_hash : Text
  pub email : Option Text
  pub role : String
  pub created_by : Text
  pub expires_at : ℕ
  pub accepted_at : Option ℕ
  pub created_at : ℕ

-- The tables, with the sequences of their ids.
pub record Db : Type 0 where
  pub users : List User
  pub next_user : ℕ
  pub sessions : List Session
  pub invites : List Invite
  pub next_invite : ℕ

abbrev pub a_day : ℕ
a_day = 86_400

abbrev pub find_by {ℓ} : {A : Type ℓ} → (A → Bool) → List A → Option A
find_by p [] = none
find_by p (x ∷ xs) = if p x then some x else find_by p xs

abbrev pub update_by {ℓ} : {A : Type ℓ} → (A → Bool) → (A → A) → List A → List A
update_by p f [] = []
update_by p f (x ∷ xs) = (if p x then f x else x) ∷ update_by p f xs

abbrev pub has_email : Text → User → Bool
has_email email u = text_eq u.email email

abbrev pub has_user_id : ℕ → User → Bool
has_user_id id u = u.id == id

abbrev pub get_user_by_email : Text → Db → Option User
get_user_by_email email db = find_by (has_email email) db.users

abbrev pub get_user_by_id : ℕ → Db → Option User
get_user_by_id id db = find_by (has_user_id id) db.users

abbrev pub is_owner_role : User → Bool
is_owner_role u = one_of u.role ("owner" ∷ "admin" ∷ [])

abbrev pub owner_count : Db → ℕ
owner_count db = count_if is_owner_role db.users

-- `INSERT INTO users`; the column for the email is unique.
unfoldable pub insert_user : ℕ → Text → Text → String → String → Bool → Db → Option (User × Db)
insert_user now email password_hash role provider is_bootstrap db =
    let user : User = record {
      id = db.next_user;
      email = email;
      password_hash = password_hash;
      role = role;
      auth_provider = provider;
      is_bootstrap = is_bootstrap;
      created_at = now;
    } in
    if any (has_email email) db.users
    then none
    else some (user, record db { users = db.users ++ user ∷ []; next_user = db.next_user + 1 })

unfoldable pub create_user : (Text → Text) → ℕ → Text → Text → String → Db → Option (User × Db)
create_user hash_password now email password role db =
    insert_user now email (hash_password password) role "local" false db

unfoldable pub create_bootstrap_owner : (Text → Text) → ℕ → Text → Text → Db → Option (User × Db)
create_bootstrap_owner hash_password now email password db =
    insert_user now email (hash_password password) "owner" "local" true db

abbrev pub owner_exists : Db → Bool
owner_exists db = ltb 0 (owner_count db)

-- The tables on day zero.
abbrev pub no_accounts : Db
no_accounts = record { users = []; next_user = 1; sessions = []; invites = []; next_invite = 1 }

abbrev pub with_role : String → User → User
with_role role u = record u { role = role }

unfoldable pub update_user_role : ℕ → String → Db → Db
update_user_role id role db = record db {
  users = update_by (has_user_id id) (with_role role) db.users;
}

abbrev pub is_flagged : User → Bool
is_flagged u = u.is_bootstrap

abbrev pub unflagged : User → User
unflagged u = record u { is_bootstrap = false }

abbrev pub flagged : User → User
flagged u = record u { is_bootstrap = true; role = "owner" }

abbrev pub handed_over : ℕ → Db → Db
handed_over id db = record db {
  users = update_by (has_user_id id) flagged (update_by is_flagged unflagged db.users);
}

-- Two statements of one transaction: without the row of the second the first is undone.
unfoldable pub transfer_bootstrap : ℕ → Db → Option Db
transfer_bootstrap id db = if any (has_user_id id) db.users then some (handed_over id db) else none

unfoldable pub delete_sessions_for_email : Text → Db → Db
delete_sessions_for_email email db = record db {
  sessions = retain (λ (x : Session). not (text_eq x.email email)) db.sessions;
}

-- `ON DELETE CASCADE`: a session goes when its user goes.
abbrev pub cascaded : List User → List Session → List Session
cascaded users sessions = retain (λ (x : Session). any (has_email x.email) users) sessions

unfoldable pub delete_user : ℕ → Db → Db
delete_user id db =
    let left = retain (λ u. not (has_user_id id u)) db.users in
    record db { users = left; sessions = cascaded left db.sessions }

abbrev pub with_password : Text → User → User
with_password hash u = record u { password_hash = hash; auth_provider = "local" }

unfoldable pub set_password : Text → Text → Db → Db
set_password email password_hash db = record db {
  users = update_by (has_email email) (with_password password_hash) db.users;
}

-- `as_bytes().len()` of the password is its length in bytes.
unfoldable pub validate_password_policy : (Text → ℕ) → Text → Text → Bool
validate_password_policy byte_len password email =
    leb 10 (byte_len password)
    && not (text_eq (to_ascii_lowercase password) (to_ascii_lowercase email))

abbrev pub checked : (Text → Text → Bool) → Text → Text → Option User → Option User
checked matches_hash dummy password none = none
checked matches_hash dummy password (some u) =
    if is_empty_text u.password_hash
    then none
    else if matches_hash u.password_hash password
    then some u
    else none

-- For an unknown email a dummy hash is checked and the answer is the same.
unfoldable pub verify_password : (Text → Text → Bool) → Text → Text → Text → Db → Option User
verify_password matches_hash dummy email password db =
    checked matches_hash dummy password (get_user_by_email email db)

-- The hash of the token is the key, and the email refers to a user.
unfoldable pub create_session : (Text → Text) → ℕ → Text → Text → Db → Option Db
create_session sha256_hex now raw email db =
    if any (λ (x : Session). text_eq x.token (sha256_hex raw)) db.sessions
      || not (any (has_email email) db.users)
    then none
    else some (record db {
      sessions =
          db.sessions
          ++ record {
            token = sha256_hex raw;
            email = email;
            created_at = now;
            expires_at = now + 7 * a_day;
          }
            ∷ [];
    })

abbrev pub is_live : ℕ → Text → Session → Bool
is_live now token x = text_eq x.token token && ltb now x.expires_at

unfoldable pub get_session : (Text → Text) → ℕ → Text → Db → Option Text
get_session sha256_hex now raw db = elim (find_by (is_live now (sha256_hex raw)) db.sessions) [
  | none ↦ none
  | some x ↦ some x.email
]

unfoldable pub delete_session : (Text → Text) → Text → Db → Db
delete_session sha256_hex raw db = record db {
  sessions = retain (λ (x : Session). not (text_eq x.token (sha256_hex raw))) db.sessions;
}

abbrev pub is_pending : ℕ → Invite → Bool
is_pending now i = not (is_some i.accepted_at) && ltb now i.expires_at

-- The days are clamped to 1 and 30; the hash of the token is unique.
unfoldable pub create_invite :
    (Text → Text) → ℕ → Text → Option Text → String → Text → ℕ → Db → Option (Invite × Db)
create_invite sha256_hex now raw email role created_by days_valid db =
    let invite : Invite = record {
      id = db.next_invite;
      token_hash = sha256_hex raw;
      email = email;
      role = role;
      created_by = created_by;
      expires_at = now + min (max days_valid 1) 30 * a_day;
      accepted_at = none;
      created_at = now;
    } in
    if any (λ (i : Invite). text_eq i.token_hash (sha256_hex raw)) db.invites
    then none
    else some (
      invite,
      record db { invites = db.invites ++ invite ∷ []; next_invite = db.next_invite + 1 },
    )

unfoldable pub get_pending_by_token : (Text → Text) → ℕ → Text → Db → Option Invite
get_pending_by_token sha256_hex now raw db =
    find_by (λ i. text_eq i.token_hash (sha256_hex raw) && is_pending now i) db.invites

abbrev pub has_invite_id : ℕ → Invite → Bool
has_invite_id id i = i.id == id

unfoldable pub revoke : ℕ → Db → Bool × Db
revoke id db =
    let gone = λ (i : Invite). has_invite_id id i && not (is_some i.accepted_at) in
    (any gone db.invites, record db { invites = retain (λ i. not (gone i)) db.invites })

abbrev pub claimed : ℕ → Invite → Invite
claimed now i = record i { accepted_at = some now }

-- `UPDATE … WHERE id = … AND accepted_at IS NULL AND expires_at > NOW() RETURNING *`.
unfoldable pub claim_invite : ℕ → ℕ → Db → Option (Invite × Db)
claim_invite now id db =
    let open_ = λ (i : Invite). has_invite_id id i && is_pending now i in
    elim (find_by open_ db.invites) [
      | none ↦ none
      | some i ↦
          some (claimed now i, record db { invites = update_by open_ (claimed now) db.invites })
    ]

abbrev pub join_claimed : ℕ → Text → Text → Option (Invite × Db) → Option (User × Db)
join_claimed now email password_hash none = none
join_claimed now email password_hash (some (i, db)) =
    insert_user now email password_hash i.role "local" false db

-- One transaction: without the user the invite stays pending.
unfoldable pub accept_local : ℕ → Invite → Text → Text → Db → Option (User × Db)
accept_local now invite email password_hash db =
    join_claimed now email password_hash (claim_invite now invite.id db)

abbrev pub lower_is : (Text → Text) → Text → Option Text → Bool
lower_is to_lowercase email none = false
lower_is to_lowercase email (some e) = text_eq (to_lowercase e) (to_lowercase email)

-- `ORDER BY created_at DESC LIMIT 1`.
abbrev pub latest_invite : (Text → Text) → ℕ → Text → Db → Option Invite
latest_invite to_lowercase now email db =
    find_by (λ (i : Invite). true)
      (sort_by (λ (a b : Invite). leb b.created_at a.created_at)
        (retain (λ (i : Invite). lower_is to_lowercase email i.email && is_pending now i)
          db.invites))

abbrev pub join_oidc : ℕ → Text → Invite → Db → Option User → Option (User × Db)
join_oidc now email i db (some u) = some (u, db)
join_oidc now email i db none = insert_user now email [] i.role "oidc" false db

-- Without an invite nothing changes.
unfoldable pub accept_oidc : (Text → Text) → ℕ → Text → Db → Option (User × Db)
accept_oidc to_lowercase now email db = elim (latest_invite to_lowercase now email db) [
  | none ↦ none
  | some i ↦
      let db' = record db { invites = update_by (has_invite_id i.id) (claimed now) db.invites } in
      join_oidc now email i db' (get_user_by_email email db')
]

unfoldable pub upsert_oidc_user : ℕ → Text → String → Db → Option (User × Db)
upsert_oidc_user now email role db = elim (get_user_by_email email db) [
  | some u ↦ some (u, db)
  | none ↦ insert_user now email [] role "oidc" false db
]
