-- ===== src/Accounts/Managed.antt =====
-- src/api/users.rs and src/api/rbac.rs: who may manage accounts.
use codasaurus.Rbac
use codasaurus.Rbac.{owner, require_owner, role_rank, UserRow, UserView}
use codasaurus.Rbac.Access.{require_role-ok}
use codasaurus.Accounts.{User, Session, Invite, Db, is_owner_role, get_user_by_email}
use codasaurus.Accounts.Handlers.{
  Answer, Machine, Request, State, session_email, as_row, as_owner, owner_of, invite_by,
  create_invite_handler, revoke_by, revoke_invite, update_by_owner, update_user, remove_target,
  remove_user, transfer_by, transfer_bootstrap_handler,
}
use codasaurus.Accounts.Traces.{
  Op, log_in, log_out, invite, revoke_invite_of, give_role, remove, pass_on, new_password, join,
  sign_in_oidc, set_up, on_db, step,
}
use codasaurus.Accounts
use codasaurus.Prelude.{
  ◌≤◌, max, String, Text, [], ◌∷◌, Option, none, some, Bool, true, false, one_of, ◌≡◌, refl, sym,
  ap, subst, ◌⊎◌, inl, inr, arith,
}

-- The routes of src/api/users.rs except the one for one's own password.
abbrev pub is_management : Op → Bool
is_management (invite email role) = true
is_management (revoke_invite_of id) = true
is_management (give_role id role) = true
is_management (remove id) = true
is_management (pass_on id) = true
is_management (log_in email password) = false
is_management log_out = false
is_management (new_password current new) = false
is_management (join raw email password) = false
is_management (sign_in_oidc allow email) = false
is_management (set_up email password) = false

module _ (m : Machine) (r : Request) where
  -- The cookie names a session that has not ended, of an account that exists and is an owner.
  pub record FromOwner (db : Db) : Type 0 where
    pub email : Text
    pub account : User
    pub named : session_email m r db ≡ some email
    pub found : get_user_by_email email db ≡ some account
    pub rank : is_owner_role account ≡ true

  top_rank :
      (role : String) → 3 ≤ max 1 (role_rank role) → one_of role ("owner" ∷ "admin" ∷ []) ≡ true
  unfolding role_rank
  top_rank role k = ground arith

  role_in : Rbac.Answer (Option UserRow) → String
  role_in (Rbac.ok (some row)) = row.role
  role_in a = ""

  row_of :
      (o : Option User) (row : UserRow)
      → as_row m o ≡ Rbac.ok (some row)
      → (u : User) × (o ≡ some u) × (u.role ≡ row.role)
  unfolding role_in
  row_of none row e = absurd (cc)
  row_of (some u) row e = (u, refl, ap role_in e)

  from_owner : (db : Db) (actor : UserView) → owner_of m r db ≡ Rbac.ok actor → FromOwner db
  unfolding owner_of Rbac.require_role require_owner Rbac.rank
  from_owner db actor e =
      let g =
        (require_role-ok (λ e. as_row m (get_user_by_email e db)) owner actor
            (session_email m r db)).0
          e in
      let (u, found, role) = row_of (get_user_by_email g.email db) g.row g.found in
      record {
        email = g.email;
        account = u;
        named = g.named;
        found = found;
        rank = top_rank u.role (subst (λ x. 3 ≤ max 1 (role_rank x)) (sym role) g.enough);
      }

  guarded :
      (act : UserView → Answer × Db) (s : State)
      → (on_db (as_owner m (owner_of m r s.db) act) s ≡ s) ⊎ FromOwner s.db
  guarded act s = each (owner_of m r s.db) refl
    where
      each :
          (a : Rbac.Answer UserView)
          → owner_of m r s.db ≡ a
          → (on_db (as_owner m a act) s ≡ s) ⊎ FromOwner s.db
      each (Rbac.ok actor) e = inr (from_owner s.db actor e)
      each (Rbac.err x) e = inl refl

  -- A request to invite somebody, to revoke an invite, to change a role, to remove an account or to
  -- pass the bootstrap flag on changes nothing, unless its cookie names a session that has not ended
  -- of an account that exists and is an owner.
  pub step-FromOwner :
      (op : Op) (s : State) → is_management op ≡ true → (step (m, (r, op)) s ≡ s) ⊎ FromOwner s.db
  unfolding step create_invite_handler revoke_invite update_user remove_user
      transfer_bootstrap_handler
  step-FromOwner (invite email role) s k = guarded (invite_by m email role s.db) s
  step-FromOwner (revoke_invite_of id) s k = guarded (revoke_by m id s.db) s
  step-FromOwner (give_role id role) s k = guarded (update_by_owner m id role s.db) s
  step-FromOwner (remove id) s k =
      guarded (λ actor. remove_target m id s.db actor (Accounts.get_user_by_id id s.db)) s
  step-FromOwner (pass_on id) s k =
      guarded (λ actor. transfer_by m id s.db (get_user_by_email actor.email s.db)) s
  step-FromOwner (log_in email password) s k = absurd (cc)
  step-FromOwner log_out s k = absurd (cc)
  step-FromOwner (new_password current new) s k = absurd (cc)
  step-FromOwner (join raw email password) s k = absurd (cc)
  step-FromOwner (sign_in_oidc allow email) s k = absurd (cc)
  step-FromOwner (set_up email password) s k = absurd (cc)
