-- ===== src/Accounts/Sound.antt =====
-- src/db/users.rs: what holds of the tables of accounts, and that each statement keeps it.

use codasaurus.Accounts.{User, Session, Db, find_by, update_by, has_email, has_user_id, is_flagged}
use codasaurus.Prelude.{
  ℕ, ◌<◌, str_eq, List, [], ◌∷◌, map, some, Bool, true, false, not, ◌||◌, ==_iff, Bool-cases, any,
  all, count_if, All, All_mono, Distinct, ◌≡◌, refl, sym, ◌∙◌, ◌≢◌, inl, inr, arith,
}

abbrev pub id_of : User → ℕ
id_of u = u.id

-- The one with the bootstrap flag is an owner.
abbrev pub flag_safe : User → Bool
flag_safe u = not u.is_bootstrap || str_eq u.role "owner"

-- Ids are distinct, exactly one account has the bootstrap flag, it is an owner, and every session
-- belongs to an account.
pub record IsSound (db : Db) : Type 0 where
  pub ids : Distinct (map id_of db.users)
  pub fresh : All (λ u. u.id < db.next_user) db.users
  pub flag : count_if is_flagged db.users ≡ 1
  pub superuser : All (λ u. flag_safe u ≡ true) db.users
  pub signed : All (λ (x : Session). any (has_email x.email) db.users ≡ true) db.sessions

module _ {ℓ} {A : Type ℓ} (p : A → Bool) (f : A → A) where
  pub map-update_by {κ} :
      {B : Type κ} (g : A → B)
      → ((x : A) → g (f x) ≡ g x)
      → (xs : List A) → map g (update_by p f xs) ≡ map g xs
  map-update_by g h [] = refl
  map-update_by g h (x ∷ xs) = elim (Bool-cases (p x)) [
    | inl e ↦ rw (e, h x, map-update_by g h xs)
    | inr e ↦ rw (e, map-update_by g h xs)
  ]

  pub count_if-update_by :
      (q : A → Bool)
      → ((x : A) → q (f x) ≡ q x)
      → (xs : List A) → count_if q (update_by p f xs) ≡ count_if q xs
  count_if-update_by q h [] = refl
  count_if-update_by q h (x ∷ xs) = elim (Bool-cases (p x)) [
    | inl e ↦ rw (e, h x, count_if-update_by q h xs)
    | inr e ↦ rw (e, count_if-update_by q h xs)
  ]

  pub any-update_by :
      (q : A → Bool)
      → ((x : A) → q (f x) ≡ q x)
      → (xs : List A) → any q (update_by p f xs) ≡ any q xs
  any-update_by q h [] = refl
  any-update_by q h (x ∷ xs) = elim (Bool-cases (p x)) [
    | inl e ↦ rw (e, h x, any-update_by q h xs)
    | inr e ↦ rw (e, any-update_by q h xs)
  ]

  pub All-update_by {κ} :
      {P Q : A → Type κ}
      → ((x : A) → p x ≡ true → P x → Q (f x))
      → ((x : A) → p x ≡ false → P x → Q x)
      → (xs : List A) → All P xs
      → All Q (update_by p f xs)
  All-update_by h k [] a = tt
  All-update_by h k (x ∷ xs) a = elim (Bool-cases (p x)) [
    | inl e ↦ rw e (h x e a.0, All-update_by h k xs a.1)
    | inr e ↦ rw e (k x e a.0, All-update_by h k xs a.1)
  ]

-- The row that is found by its id is the only one with it.
pub only_one :
    (id : ℕ) (us : List User) (t : User)
    → Distinct (map id_of us)
    → find_by (has_user_id id) us ≡ some t
    → All (λ u. has_user_id id u ≡ true → u ≡ t) us × (count_if (has_user_id id) us ≡ 1)
only_one id [] t d e = absurd (cc e)
only_one id (u ∷ us) t d e = elim (Bool-cases (has_user_id id u)) [
  | inl q ↦
      let this : u ≡ t = cc (rw q at e) in
      let none_left = others us (lower q d.0) in
      (
        (λ k. this, All_mono (λ v n k. absurd (clash n k)) us none_left),
        rw q (omega (arith, counted us none_left)),
      )
  | inr q ↦
      let (all, one) = only_one id us t d.1 (rw q at e) in
      ((λ k. absurd (clash q k), all), rw q (omega (arith, one)))
]
  where
    clash : {b : Bool} → b ≡ false → b ≡ true → ⊥
    clash e q = cc (sym e ∙ q)

    lower :
        has_user_id id u ≡ true
        → All (λ y. u.id ≢ y) (map id_of us)
        → All (λ y. id ≢ y) (map id_of us)
    lower q h = All_mono (λ y n k. n ((==_iff u.id id).0 q ∙ k)) (map id_of us) h

    others :
        (vs : List User) → All (λ y. id ≢ y) (map id_of vs) → All (λ v. has_user_id id v ≡ false) vs
    others [] h = tt
    others (v ∷ vs) h = (ground arith, others vs h.1)

    counted :
        (vs : List User) → All (λ v. has_user_id id v ≡ false) vs → count_if (has_user_id id) vs ≡ 0
    counted [] h = refl
    counted (v ∷ vs) h = rw h.0 (omega (arith, counted vs h.1))
