-- ===== src/Accounts/Kept.antt =====
-- src/db/users.rs and src/db/sessions.rs: each statement keeps the tables sound.
use codasaurus.Accounts.{
  User, Session, Db, update_by, has_email, has_user_id, is_flagged, unflagged, flagged, with_role,
  with_password, get_user_by_id, update_user_role, handed_over, set_password,
}
use codasaurus.Accounts.Sound.{
  IsSound, id_of, flag_safe, map-update_by, count_if-update_by, any-update_by, All-update_by,
  only_one,
}
use codasaurus.Prelude.{
  ℕ, ◌<◌, String, Text, str_eq, text_eq, List, [], ◌∷◌, map, some, Bool, true, false, not, ◌&&◌,
  Bool-cases, any, count_if, All, All_mono, Distinct, ◌≡◌, refl, sym, ap, ◌∙◌, subst, inl, inr,
  arith,
}

module _ (db : Db) (h : IsSound db) where
  open h use {ids, fresh, flag, superuser, signed}

  abbrev Signed : List User → List Session → Type 0
  Signed us xs = All (λ (x : Session). any (has_email x.email) us ≡ true) xs

  -- A change of users that keeps the emails keeps the sessions.
  resigned :
      (p : User → Bool) (f : User → User)
      → ((u : User) → (f u).email ≡ u.email)
      → Signed (update_by p f db.users) db.sessions
  resigned p f same =
      All_mono
        (λ x e.
          any-update_by p f (has_email x.email) (λ u. ap (λ t. text_eq t x.email) (same u)) db.users
          ∙ e)
        db.sessions signed

  pub set_password-IsSound : (email hash : Text) → IsSound (set_password email hash db)
  unfolding set_password
  set_password-IsSound email hash = record {
    ids =
        subst Distinct
          (sym (map-update_by (has_email email) (with_password hash) id_of (λ u. refl) db.users))
          ids;
    fresh =
        All-update_by (has_email email) (with_password hash) {P = λ u. u.id < db.next_user}
          {Q = λ u. u.id < db.next_user} (λ u e k. k) (λ u e k. k) db.users fresh;
    flag =
        count_if-update_by (has_email email) (with_password hash) is_flagged (λ u. refl) db.users
        ∙ flag;
    superuser =
        All-update_by (has_email email) (with_password hash) {P = λ u. flag_safe u ≡ true}
          {Q = λ u. flag_safe u ≡ true} (λ u e k. k) (λ u e k. k) db.users superuser;
    signed = resigned (has_email email) (with_password hash) (λ u. refl);
  }

  -- The account with the flag stays an owner.
  pub update_user_role-IsSound :
      (id : ℕ) (role : String) (t : User)
      → get_user_by_id id db ≡ some t
      → (t.is_bootstrap && not (str_eq role "owner")) ≡ false
      → IsSound (update_user_role id role db)
  unfolding update_user_role
  update_user_role-IsSound id role t found guarded = record {
    ids =
        subst Distinct
          (sym (map-update_by (has_user_id id) (with_role role) id_of (λ u. refl) db.users)) ids;
    fresh =
        All-update_by (has_user_id id) (with_role role) {P = λ u. u.id < db.next_user}
          {Q = λ u. u.id < db.next_user} (λ u e k. k) (λ u e k. k) db.users fresh;
    flag =
        count_if-update_by (has_user_id id) (with_role role) is_flagged (λ u. refl) db.users ∙ flag;
    superuser =
        All-update_by (has_user_id id) (with_role role)
          {P = λ u. (has_user_id id u ≡ true → u ≡ t) × (flag_safe u ≡ true)}
          {Q = λ u. flag_safe u ≡ true} (λ u e k. safe u (k.0 e)) (λ u e k. k.1) db.users
          (both db.users (only_one id db.users t ids found).0 superuser);
    signed = resigned (has_user_id id) (with_role role) (λ u. refl);
  }
    where
      safe : (u : User) → u ≡ t → flag_safe (with_role role u) ≡ true
      safe u e =
          let same : u.is_bootstrap ≡ t.is_bootstrap = ap is_flagged e in rw same (ground arith)

      both :
          (us : List User)
          → All (λ u. has_user_id id u ≡ true → u ≡ t) us
          → All (λ u. flag_safe u ≡ true) us
          → All (λ u. (has_user_id id u ≡ true → u ≡ t) × (flag_safe u ≡ true)) us
      both [] a b = tt
      both (u ∷ us) a b = ((a.0, b.0), both us a.1 b.1)

  -- After the hand-over exactly the new holder has the flag.
  pub handed_over-IsSound :
      (id : ℕ) (t : User) → get_user_by_id id db ≡ some t → IsSound (handed_over id db)
  handed_over-IsSound id t found = record {
    ids = subst Distinct (sym (same_ids)) ids;
    fresh =
        All-update_by (has_user_id id) flagged {P = λ u. u.id < db.next_user}
          {Q = λ u. u.id < db.next_user} (λ u e k. k) (λ u e k. k) cleared
          (All-update_by is_flagged unflagged {P = λ u. u.id < db.next_user}
            {Q = λ u. u.id < db.next_user} (λ u e k. k) (λ u e k. k) db.users fresh);
    flag =
        flags cleared none_flagged
        ∙ count_if-update_by is_flagged unflagged (has_user_id id) (λ u. refl) db.users
        ∙ (only_one id db.users t ids found).1;
    superuser =
        All-update_by (has_user_id id) flagged {P = λ u. u.is_bootstrap ≡ false}
          {Q = λ u. flag_safe u ≡ true} (λ u e k. refl) (λ u e k. rw k) cleared none_flagged;
    signed =
        All_mono
          (λ x e.
            any-update_by (has_user_id id) flagged (has_email x.email) (λ u. refl) cleared
            ∙ any-update_by is_flagged unflagged (has_email x.email) (λ u. refl) db.users
            ∙ e)
          db.sessions signed;
  }
    where
      cleared : List User
      cleared = update_by is_flagged unflagged db.users

      same_ids : map id_of (update_by (has_user_id id) flagged cleared) ≡ map id_of db.users
      same_ids =
          map-update_by (has_user_id id) flagged id_of (λ u. refl) cleared
          ∙ map-update_by is_flagged unflagged id_of (λ u. refl) db.users

      none_flagged : All (λ u. u.is_bootstrap ≡ false) cleared
      none_flagged =
          All-update_by is_flagged unflagged {P = λ u. Unit {0}} {Q = λ u. u.is_bootstrap ≡ false}
            (λ u e k. refl) (λ u e k. e) db.users (trivial db.users)
        where
          trivial : (us : List User) → All (λ u. Unit {0}) us
          trivial [] = tt
          trivial (u ∷ us) = (tt, trivial us)

      flags :
          (us : List User)
          → All (λ u. u.is_bootstrap ≡ false) us
          → count_if is_flagged (update_by (has_user_id id) flagged us)
            ≡ count_if (has_user_id id) us
      flags [] k = refl
      flags (u ∷ us) k = elim (Bool-cases (has_user_id id u)) [
        | inl e ↦ rw e (omega (arith, flags us k.1))
        | inr e ↦ rw (e, k.0) (omega (arith, flags us k.1))
      ]
