-- ===== src/Rbac/Access.antt =====
-- src/api/rbac.rs: who gets in.
use codasaurus.Rbac.{
  MinRole, rank, role_rank, is_valid_role, normalize_role, forbidden, Answer, ok, err, UserRow,
  UserView, require_role,
}
use codasaurus.Prelude.{
  ◌≤◌, max, String, Text, str_eq, str_eq_iff, Option, none, some, true, false, ltb, if◌then◌else◌,
  ◌≡◌, refl, ◌↔◌, ◌⊎◌, inl, inr, arith,
}

role_cases :
    (r : String)
    → (r ≡ "admin")
      ⊎ (r ≡ "owner")
      ⊎ (r ≡ "maintainer")
      ⊎ (r ≡ "viewer")
      ⊎ ((str_eq r "admin" ≡ false)
          × (str_eq r "owner" ≡ false)
          × (str_eq r "maintainer" ≡ false)
          × (str_eq r "viewer" ≡ false))
role_cases r = ground (
  arith,
  str_eq_iff r "admin",
  str_eq_iff r "owner",
  str_eq_iff r "maintainer",
  str_eq_iff r "viewer",
)

-- A normalised role is valid, and normalising again changes nothing.
pub normalize_role-valid :
    (r : String)
    → (is_valid_role (normalize_role r) ≡ true)
      × (normalize_role (normalize_role r) ≡ normalize_role r)
unfolding normalize_role
normalize_role-valid r = elim (role_cases r) [
  | inl e ↦ rw e (refl, refl)
  | inr (inl e) ↦ rw e (refl, refl)
  | inr (inr (inl e)) ↦ rw e (refl, refl)
  | inr (inr (inr (inl e))) ↦ rw e (refl, refl)
  | inr (inr (inr (inr (a, o, m, v)))) ↦ rw (a, o, m, v) (refl, refl)
]

-- The rank of a normalised role is the rank of the role, or that of a viewer if the role is unknown.
pub role_rank-normalize_role : (r : String) → role_rank (normalize_role r) ≡ max 1 (role_rank r)
unfolding normalize_role role_rank
role_rank-normalize_role r = elim (role_cases r) [
  | inl e ↦ rw e refl
  | inr (inl e) ↦ rw e refl
  | inr (inr (inl e)) ↦ rw e refl
  | inr (inr (inr (inl e))) ↦ rw e refl
  | inr (inr (inr (inr (a, o, m, v)))) ↦ rw (a, o, m, v) refl
]

-- What the API shows of a row.
unfoldable pub view : UserRow → UserView
view row = record {
  email = row.email;
  role = normalize_role row.role;
  is_bootstrap = row.is_bootstrap;
}

module _ (get_user : Text → Answer (Option UserRow)) (m : MinRole) (u : UserView) where
  -- The session names a user whose query succeeds and finds a row, the answer shows that row, and
  -- the rank of the row's role, an unknown role counting as a viewer, reaches the minimum.
  pub record GetsIn (session : Option Text) : Type 0 where
    pub email : Text
    pub row : UserRow
    pub named : session ≡ some email
    pub found : get_user email ≡ ok (some row)
    pub shown : u ≡ view row
    pub enough : rank m ≤ max 1 (role_rank row.role)

  ranked :
      (row : UserRow)
      → (if ltb (role_rank (normalize_role row.role)) (rank m)
          then err forbidden
          else ok (view row))
        ≡ ok u
      → (u ≡ view row) × (rank m ≤ max 1 (role_rank row.role))
  ranked row e = ground (arith, role_rank-normalize_role row.role)

  admitted :
      (email : Text) (a : Answer (Option UserRow))
      → get_user email ≡ a
      → require_role (some email) get_user m ≡ ok u
      → GetsIn (some email)
  unfolding require_role view
  admitted email (err x) g e = absurd (cc (rw g at e))
  admitted email (ok none) g e = absurd (cc (rw g at e))
  admitted email (ok (some row)) g e =
      let (shown, enough) = ranked row (rw g at e) in
      record { email = email; row = row; named = refl; found = g; shown = shown; enough = enough }

  gets_in : (session : Option Text) → require_role session get_user m ≡ ok u → GetsIn session
  unfolding require_role
  gets_in none e = cc
  gets_in (some email) e = admitted email (get_user email) refl e

  let_in : {session : Option Text} → GetsIn session → require_role session get_user m ≡ ok u
  unfolding require_role view
  let_in g =
      rw (g.named, g.found, g.shown) (ground (arith, role_rank-normalize_role g.row.role, g.enough))

  -- A request is answered with a user exactly when its session names a user whose row is found, the
  -- answer shows that row, and the rank of the row's role reaches the minimum, where an unknown role
  -- counts as a viewer.
  pub require_role-ok :
      (session : Option Text) → (require_role session get_user m ≡ ok u) ↔ GetsIn session
  require_role-ok session = (gets_in session, let_in)
