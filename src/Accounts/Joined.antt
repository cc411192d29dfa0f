-- ===== src/Accounts/Joined.antt =====
-- src/db/users.rs, src/db/sessions.rs and src/db/invites.rs: accounts and sessions that come and go.
use codasaurus.Accounts.{
  User, Session, Invite, Db, find_by, update_by, has_email, has_user_id, is_flagged, get_user_by_id,
  get_user_by_email, insert_user, cascaded, delete_user, create_session, create_invite, revoke,
  claimed, claim_invite, is_pending, has_invite_id, join_claimed, accept_local, latest_invite,
  join_oidc, accept_oidc, upsert_oidc_user,
}
use codasaurus.Accounts.Sound.{IsSound, id_of, flag_safe, only_one}
use codasaurus.Prelude.{
  ℕ, ◌+◌, ◌<◌, String, Text, text_eq, List, [], ◌∷◌, map, Option, none, some, Bool, true, false,
  not, ◌&&◌, ◌||◌, Bool-cases, retain, any, count_if, All, count_if-append, All-append, All_mono,
  Distinct, Distinct-snoc, map-snoc, All-retain, any-append, ◌≡◌, refl, sym, ap, ◌∙◌, subst, ◌≢◌,
  inl, inr, arith,
}

-- If there is a result, its tables are sound.
abbrev pub Lands {ℓ} : {A : Type ℓ} → Option (A × Db) → Type 0
Lands none = Unit
Lands (some (a, db)) = IsSound db

abbrev pub LandsDb : Option Db → Type 0
LandsDb none = Unit
LandsDb (some db) = IsSound db

-- The tables of users and of sessions are all that matters.
pub same_accounts :
    (db db' : Db)
    → db'.users ≡ db.users
    → db'.next_user ≡ db.next_user
    → db'.sessions ≡ db.sessions
    → IsSound db
    → IsSound db'
same_accounts db db' a b c h = record {
  ids = subst (λ us. Distinct (map id_of us)) (sym a) h.ids;
  fresh =
      subst (λ n. All (λ u. u.id < n) db'.users) (sym b)
        (subst (λ us. All (λ u. u.id < db.next_user) us) (sym a) h.fresh);
  flag = ap (count_if is_flagged) a ∙ h.flag;
  superuser = subst (λ us. All (λ u. flag_safe u ≡ true) us) (sym a) h.superuser;
  signed =
      subst (λ xs. All (λ (x : Session). any (has_email x.email) db'.users ≡ true) xs) (sym c)
        (subst (λ us. All (λ (x : Session). any (has_email x.email) us ≡ true) db.sessions) (sym a)
          h.signed);
}

module _ (db : Db) (h : IsSound db) where
  open h use {ids, fresh, flag, superuser, signed}

  pub insert_user-Lands :
      (now : ℕ) (email hash : Text) (role provider : String)
      → Lands (insert_user now email hash role provider false db)
  unfolding insert_user
  insert_user-Lands now email hash role provider =
      elim (Bool-cases (any (has_email email) db.users)) [
        | inl e ↦ rw e tt
        | inr e ↦ rw e (record {
          ids =
              subst Distinct (sym (map-snoc id_of db.users user))
                (Distinct-snoc (map id_of db.users) db.next_user ids (apart db.users fresh));
          fresh =
              All-append (λ u. u.id < db.next_user + 1) db.users (user ∷ [])
                (All_mono (λ u k. omega arith) db.users fresh) (omega arith, tt);
          flag = omega (arith, count_if-append is_flagged db.users (user ∷ []), flag);
          superuser =
              All-append (λ u. flag_safe u ≡ true) db.users (user ∷ []) superuser (refl, tt);
          signed =
              All_mono (λ x k. rw (any-append (has_email x.email) db.users (user ∷ []), k))
                db.sessions signed;
        })
      ]
    where
      user : User
      user = record {
        id = db.next_user;
        email = email;
        password_hash = hash;
        role = role;
        auth_provider = provider;
        is_bootstrap = false;
        created_at = now;
      }

      apart :
          (us : List User)
          → All (λ u. u.id < db.next_user) us
          → All (λ i. i ≢ db.next_user) (map id_of us)
      apart [] k = tt
      apart (u ∷ us) k = (λ e. absurd (omega arith), apart us k.1)

  pub create_session-LandsDb :
      (sha256_hex : Text → Text) (now : ℕ) (raw email : Text)
      → LandsDb (create_session sha256_hex now raw email db)
  unfolding create_session
  create_session-LandsDb sha256_hex now raw email =
      elim (Bool-cases (
        any (λ (x : Session). text_eq x.token (sha256_hex raw)) db.sessions
        || not (any (has_email email) db.users))) [
          | inl e ↦ rw e tt
          | inr e ↦ rw e (record {
            ids = ids;
            fresh = fresh;
            flag = flag;
            superuser = superuser;
            signed =
                All-append (λ (x : Session). any (has_email x.email) db.users ≡ true) db.sessions _
                  signed (ground arith, tt);
          })
        ]

  pub retain_sessions-IsSound :
      (p : Session → Bool) → IsSound (record db { sessions = retain p db.sessions })
  retain_sessions-IsSound p = record {
    ids = ids;
    fresh = fresh;
    flag = flag;
    superuser = superuser;
    signed =
        All-retain (λ (x : Session). any (has_email x.email) db.users ≡ true) p db.sessions signed;
  }

  -- An account without the flag can go.
  pub delete_user-IsSound :
      (id : ℕ) (t : User)
      → get_user_by_id id db ≡ some t
      → t.is_bootstrap ≡ false
      → IsSound (delete_user id db)
  unfolding delete_user
  delete_user-IsSound id t found plain = record {
    ids = distinct_left db.users ids;
    fresh = All-retain (λ u. u.id < db.next_user) stays db.users fresh;
    flag = counted db.users (only_one id db.users t ids found).0 ∙ flag;
    superuser = All-retain (λ u. flag_safe u ≡ true) stays db.users superuser;
    signed = kept db.sessions;
  }
    where
      stays : User → Bool
      stays u = not (has_user_id id u)

      left : List User
      left = retain stays db.users

      kept :
          (xs : List Session)
          → All (λ (x : Session). any (has_email x.email) left ≡ true) (cascaded left xs)
      kept [] = tt
      kept (x ∷ xs) = elim (Bool-cases (any (has_email x.email) left)) [
        | inl e ↦ rw e (e, kept xs)
        | inr e ↦ rw e (kept xs)
      ]

      counted :
          (us : List User)
          → All (λ u. has_user_id id u ≡ true → u ≡ t) us
          → count_if is_flagged (retain stays us) ≡ count_if is_flagged us
      counted [] k = refl
      counted (u ∷ us) k = elim (Bool-cases (has_user_id id u)) [
        | inl e ↦
            let none_here : u.is_bootstrap ≡ false = ap is_flagged (k.0 e) ∙ plain in
            rw (e, none_here) (omega (arith, counted us k.1))
        | inr e ↦ rw e (omega (arith, counted us k.1))
      ]

      without :
          (i : ℕ) (us : List User)
          → All (λ j. i ≢ j) (map id_of us)
          → All (λ j. i ≢ j) (map id_of (retain stays us))
      without i [] k = tt
      without i (u ∷ us) k = elim (Bool-cases (has_user_id id u)) [
        | inl e ↦ rw e (without i us k.1)
        | inr e ↦ rw e (k.0, without i us k.1)
      ]

      distinct_left :
          (us : List User) → Distinct (map id_of us) → Distinct (map id_of (retain stays us))
      distinct_left [] d = tt
      distinct_left (u ∷ us) d = elim (Bool-cases (has_user_id id u)) [
        | inl e ↦ rw e (distinct_left us d.1)
        | inr e ↦ rw e (without u.id us d.0, distinct_left us d.1)
      ]

-- Invites touch neither table.
module _ (db : Db) (h : IsSound db) where
  pub create_invite-Lands :
      (sha256_hex : Text → Text) (now : ℕ) (raw : Text) (email : Option Text) (role : String)
      (by : Text) (days : ℕ)
      → Lands (create_invite sha256_hex now raw email role by days db)
  unfolding create_invite
  create_invite-Lands sha256_hex now raw email role by days =
      elim (Bool-cases (any (λ (i : Invite). text_eq i.token_hash (sha256_hex raw)) db.invites)) [
        | inl e ↦ rw e tt
        | inr e ↦ rw e (same_accounts db _ refl refl refl h)
      ]

  pub revoke-IsSound : (id : ℕ) → IsSound (revoke id db).1
  unfolding revoke
  revoke-IsSound id = same_accounts db _ refl refl refl h

  pub accept_local-Lands :
      (now : ℕ) (i : Invite) (email hash : Text) → Lands (accept_local now i email hash db)
  unfolding accept_local claim_invite
  accept_local-Lands now i email hash = each (find_by _ db.invites)
    where
      each :
          (o : Option Invite)
          → Lands (
              join_claimed now email hash (elim o [
                | none ↦ none
                | some j ↦ some (
                  claimed now j,
                  record db {
                    invites =
                        update_by
                          (λ (k : Invite). has_invite_id i.id k && is_pending now k)
                          (claimed now)
                          db.invites;
                  },
                )
              ]))
      each none = tt
      each (some j) =
          insert_user-Lands _ (same_accounts db _ refl refl refl h) now email hash
            (claimed now j).role "local"

  pub accept_oidc-Lands :
      (to_lowercase : Text → Text) (now : ℕ) (email : Text)
      → Lands (accept_oidc to_lowercase now email db)
  unfolding accept_oidc
  accept_oidc-Lands to_lowercase now email = each (latest_invite to_lowercase now email db)
    where
      inner :
          (i : Invite) (db' : Db)
          → IsSound db'
          → (o : Option User) → Lands (join_oidc now email i db' o)
      inner i db' k (some u) = k
      inner i db' k none = insert_user-Lands db' k now email [] i.role "oidc"

      each :
          (o : Option Invite)
          → Lands (elim o [
            | none ↦ none
            | some i ↦
                join_oidc now email i
                  (record db { invites = update_by (has_invite_id i.id) (claimed now) db.invites })
                  (get_user_by_email email (record db {
                    invites = update_by (has_invite_id i.id) (claimed now) db.invites;
                  }))
          ])
      each none = tt
      each (some i) = inner i _ (same_accounts db _ refl refl refl h) _

  pub upsert_oidc_user-Lands :
      (now : ℕ) (email : Text) (role : String) → Lands (upsert_oidc_user now email role db)
  unfolding upsert_oidc_user
  upsert_oidc_user-Lands now email role = each (get_user_by_email email db)
    where
      each :
          (o : Option User)
          → Lands (elim o [
            | some u ↦ some (u, db)
            | none ↦ insert_user now email [] role "oidc" false db
          ])
      each (some u) = h
      each none = insert_user-Lands db h now email [] role "oidc"
