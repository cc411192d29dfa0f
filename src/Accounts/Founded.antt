-- ===== src/Accounts/Founded.antt =====
-- src/api/setup.rs: the first owner, and owners added by the wizard later.
use codasaurus.Accounts.{
  User, Db, is_owner_role, is_flagged, owner_count, owner_exists, no_accounts,
  validate_password_policy, create_user, create_bootstrap_owner, insert_user,
}
use codasaurus.Accounts.Handlers.{
  Answer, done, refused, bad_request, Machine, Request, owner_of, created, setup_admin,
}
use codasaurus.Accounts.Sound.{IsSound, flag_safe}
use codasaurus.Accounts.Joined.{Lands, insert_user-Lands}
use codasaurus.Accounts.Ruled.{Keeps-as_owner, Keeps-if}
use codasaurus.Prelude.{
  ◌≤◌, ◌<◌, Text, has_char, List, [], ◌∷◌, Option, none, some, true, false, not, if◌then◌else◌,
  lt→ltb, Bool-cases, count_if, All, ◌≡◌, refl, inl, inr, arith,
}

flagged_owner : (u : User) → u.is_bootstrap ≡ true → flag_safe u ≡ true → is_owner_role u ≡ true
flagged_owner u e k = ground (arith, rw e at k)

-- The account with the flag counts among the owners.
pub owned :
    (us : List User)
    → All (λ u. flag_safe u ≡ true) us
    → count_if is_flagged us ≤ count_if is_owner_role us
owned [] k = omega arith
owned (u ∷ us) k = elim (Bool-cases u.is_bootstrap) [
  | inl e ↦ rw (e, flagged_owner u e k.0) (omega (arith, owned us k.1))
  | inr e ↦ rw e (omega (arith, owned us k.1))
]

pub IsSound-owner_count : (db : Db) → IsSound db → 0 < owner_count db
IsSound-owner_count db h = omega (arith, owned db.users h.superuser, h.flag)

module _ (m : Machine) (r : Request) (email password : Text) where
  pub setup_admin-Keeps : (db : Db) (h : IsSound db) → IsSound (setup_admin m r email password db).1
  unfolding setup_admin create_user
  setup_admin-Keeps db h =
      let some_owner : owner_exists db ≡ true =
        lt→ltb 0 (owner_count db) (IsSound-owner_count db h) in
      rw some_owner (
        Keeps-as_owner m r db h (owner_of m r db) (λ actor. first)
          λ actor. Keeps-if m r db h (not (has_char b'@' email)) later (
            Keeps-if m r db h (not (validate_password_policy m.byte_len password email)) last kept))
    where
      last : Answer × Db
      last =
          created m db (insert_user m.now email (m.hash_password password) "owner" "local" false db)

      later : Answer × Db
      later =
          if not (validate_password_policy m.byte_len password email)
          then (refused bad_request, db)
          else last

      first : Answer × Db
      first = if not (has_char b'@' email) then (refused bad_request, db) else later

      each : (o : Option (User × Db)) → Lands o → IsSound (created m db o).1
      each none k = h
      each (some (u, db')) k = k

      kept : IsSound last.1
      kept =
          each (insert_user m.now email (m.hash_password password) "owner" "local" false db)
            (insert_user-Lands db h m.now email (m.hash_password password) "owner" "local")

  -- On day zero.
  pub setup_admin-IsSound :
      (setup_admin m r email password no_accounts).0 ≡ done
      → IsSound (setup_admin m r email password no_accounts).1
  unfolding setup_admin create_bootstrap_owner insert_user
  setup_admin-IsSound e = elim (Bool-cases (has_char b'@' email)) [
    | inr a ↦ absurd (cc (rw a at e))
    | inl a ↦ elim (Bool-cases (validate_password_policy m.byte_len password email)) [
      | inr b ↦ absurd (cc (rw (a, b) at e))
      | inl b ↦
          rw (a, b)
            (record {
              ids = (tt, tt);
              fresh = (omega arith, tt);
              flag = refl;
              superuser = (refl, tt);
              signed = tt;
            })
    ]
  ]
