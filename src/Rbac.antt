-- ===== src/Rbac.antt =====
-- src/api/rbac.rs: roles and the access they give. The session, the database and the HTTP layer are
-- parameters: what they return is an argument.
pub mod Access
use codasaurus.Prelude.{
  ℕ, min, String, Text, str_eq, [], ◌∷◌, Option, none, some, Bool, ltb, if◌then◌else◌, one_of,
}

pub data MinRole : Type 0 where
  viewer maintainer owner : MinRole

unfoldable pub rank : MinRole → ℕ
rank viewer = 1
rank maintainer = 2
rank owner = 3

unfoldable pub role_rank : String → ℕ
role_rank role =
    if one_of role ("owner" ∷ "admin" ∷ [])
    then 3
    else if str_eq role "maintainer"
    then 2
    else if str_eq role "viewer"
    then 1
    else 0

unfoldable pub is_valid_role : String → Bool
is_valid_role role = one_of role ("owner" ∷ "maintainer" ∷ "viewer" ∷ [])

unfoldable pub normalize_role : String → String
unfolding is_valid_role
normalize_role role =
    if str_eq role "admin" then "owner" else if is_valid_role role then role else "viewer"

pub data ApiError : Type 0 where
  unauthorized forbidden internal : ApiError

pub data Answer {ℓ} (A : Type ℓ) : Type ℓ where
  ok : A → Answer A
  err : ApiError → Answer A

infixl 5 ◌>>=◌
abbrev pub ◌>>=◌ {ℓ κ} : {A : Type ℓ} {B : Type κ} → Answer A → (A → Answer B) → Answer B
ok a >>= k = k a
err e >>= k = err e

-- The columns of `users` that access depends on.
pub record UserRow : Type 0 where
  pub email : Text
  pub role : String
  pub is_bootstrap : Bool

pub record UserView : Type 0 where
  pub email : Text
  pub role : String
  pub is_bootstrap : Bool

-- `session` is the email of the session cookie, `get_user_by_email` the query: an error, or a row
-- that may be missing.
module _ (session : Option Text) (get_user_by_email : Text → Answer (Option UserRow)) where
  require_session : Option Text → Answer Text
  require_session none = err unauthorized
  require_session (some email) = ok email

  -- `map_err(internal)`: whatever failed in the query.
  abbrev pub as_internal : Answer (Option UserRow) → Answer (Option UserRow)
  as_internal (ok r) = ok r
  as_internal (err e) = err internal

  present : Option UserRow → Answer UserRow
  present none = err unauthorized
  present (some u) = ok u

  unfoldable pub current_user : Answer UserView
  unfolding require_session present
  current_user = do
    email ← require_session session
    found ← as_internal (get_user_by_email email)
    user ← present found
    ok (record {
      email = user.email;
      role = normalize_role user.role;
      is_bootstrap = user.is_bootstrap;
    })

  unfoldable pub require_role : MinRole → Answer UserView
  unfolding current_user
  require_role min = do
    user ← current_user
    if ltb (role_rank user.role) (rank min) then err forbidden else ok user

  unfoldable pub require_owner : Answer UserView
  unfolding require_role
  require_owner = require_role owner

  unfoldable pub require_maintainer : Answer UserView
  unfolding require_role
  require_maintainer = require_role maintainer
