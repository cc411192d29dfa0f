-- ===== src/Prelude/Sort.antt =====
-- `slice::sort_by`: a stable sort, here by insertion, over a Boolean "at most".
use Prim.Native.Nat.{◌+◌}
use mathlib.Core.Path.{◌≡◌, refl, sym, ap, ◌∙◌}
use mathlib.Core.Bool.{Bool, true, false, ◌||◌}
use mathlib.Core.Logic.{◌≢◌, inl, inr}
use mathlib.Core.List.{List, [], ◌∷◌, map, Perm}
use mathlib.Core.List.Perm
use native.Mathlib.Omega.{arith}
use codasaurus.Prelude.Tests.{if◌then◌else◌, Bool-cases}
use codasaurus.Prelude.Lists.{All, Distinct, length, retain, any}

module _ {ℓ} {A : Type ℓ} (le : A → A → Bool) where
  -- `x` goes before the first element that it is at most, so equal elements keep their order.
  abbrev pub insert_sorted : A → List A → List A
  insert_sorted x [] = x ∷ []
  insert_sorted x (y ∷ ys) =
      let rest = insert_sorted x ys in if le x y then x ∷ y ∷ ys else y ∷ rest

  unfoldable pub sort_by : List A → List A
  sort_by [] = []
  sort_by (x ∷ xs) = insert_sorted x (sort_by xs)

  abbrev pub IsSorted : List A → Type ℓ
  IsSorted [] = Unit
  IsSorted (x ∷ xs) = All (λ y. le x y ≡ true) xs × IsSorted xs

module _ {ℓ} {A : Type ℓ} (le : A → A → Bool) where
  insert_sorted-perm : (x : A) (ys : List A) → Perm (insert_sorted le x ys) (x ∷ ys)
  insert_sorted-perm x [] = Perm.rfl
  insert_sorted-perm x (y ∷ ys) = elim (Bool-cases (le x y)) [
    | inl e ↦ rw e Perm.rfl
    | inr e ↦ rw e (Perm.trans (Perm.cons y (insert_sorted-perm x ys)) (Perm.swap x y ys))
  ]

  -- Sorting rearranges the list.
  pub sort_by-perm : (xs : List A) → Perm (sort_by le xs) xs
  unfolding sort_by
  sort_by-perm [] = Perm.rfl
  sort_by-perm (x ∷ xs) =
      Perm.trans (insert_sorted-perm x (sort_by le xs)) (Perm.cons x (sort_by-perm xs))

  pub insert_sorted-All {κ} :
      (P : A → Type κ) (x : A) (ys : List A) → P x → All P ys → All P (insert_sorted le x ys)
  insert_sorted-All P x [] p h = (p, tt)
  insert_sorted-All P x (y ∷ ys) p h = elim (Bool-cases (le x y)) [
    | inl e ↦ rw e (p, h)
    | inr e ↦ rw e (h.0, insert_sorted-All P x ys p h.1)
  ]

  pub sort_by-All {κ} : (P : A → Type κ) (xs : List A) → All P xs → All P (sort_by le xs)
  unfolding sort_by
  sort_by-All P [] h = tt
  sort_by-All P (x ∷ xs) h = insert_sorted-All P x (sort_by le xs) h.0 (sort_by-All P xs h.1)

  insert_sorted-length : (x : A) (ys : List A) → length (insert_sorted le x ys) ≡ length ys + 1
  insert_sorted-length x [] = refl
  insert_sorted-length x (y ∷ ys) = elim (Bool-cases (le x y)) [
    | inl e ↦ rw e (omega arith)
    | inr e ↦ rw e (omega (arith, insert_sorted-length x ys))
  ]

  pub length-sort_by : (xs : List A) → length (sort_by le xs) ≡ length xs
  unfolding sort_by
  length-sort_by [] = refl
  length-sort_by (x ∷ xs) = omega (arith, insert_sorted-length x (sort_by le xs), length-sort_by xs)

  -- What is distinct of the elements stays distinct.
  module _ {κ} {B : Type κ} (g : A → B) where
    All_of : (P : B → Type κ) (xs : List A) → All P (map g xs) → All (λ x. P (g x)) xs
    All_of P [] h = tt
    All_of P (x ∷ xs) h = (h.0, All_of P xs h.1)

    of_All : (P : B → Type κ) (xs : List A) → All (λ x. P (g x)) xs → All P (map g xs)
    of_All P [] h = tt
    of_All P (x ∷ xs) h = (h.0, of_All P xs h.1)

    insert_sorted-Distinct :
        (x : A) (ys : List A)
        → All (λ b. g x ≢ b) (map g ys)
        → Distinct (map g ys)
        → Distinct (map g (insert_sorted le x ys))
    insert_sorted-Distinct x [] h d = (tt, tt)
    insert_sorted-Distinct x (y ∷ ys) h d = elim (Bool-cases (le x y)) [
      | inl e ↦ rw e (h, d)
      | inr e ↦ rw e (
        of_All (λ b. g y ≢ b) (insert_sorted le x ys)
            (insert_sorted-All (λ z. g y ≢ g z) x ys (λ q. h.0 (sym q))
              (All_of (λ b. g y ≢ b) ys d.0)),
        insert_sorted-Distinct x ys h.1 d.1,
      )
    ]

    pub sort_by-Distinct : (xs : List A) → Distinct (map g xs) → Distinct (map g (sort_by le xs))
    unfolding sort_by
    sort_by-Distinct [] d = tt
    sort_by-Distinct (x ∷ xs) d =
        insert_sorted-Distinct x (sort_by le xs)
          (of_All (λ b. g x ≢ b) (sort_by le xs)
            (sort_by-All (λ z. g x ≢ g z) xs (All_of (λ b. g x ≢ b) xs d.0)))
          (sort_by-Distinct xs d.1)

  module _ (total : (x y : A) → le x y ≡ false → le y x ≡ true)
      (trans : (x y z : A) → le x y ≡ true → le y z ≡ true → le x z ≡ true) where
    below_trans :
        (x y : A) (zs : List A)
        → le x y ≡ true
        → All (λ z. le y z ≡ true) zs
        → All (λ z. le x z ≡ true) zs
    below_trans x y [] e h = tt
    below_trans x y (z ∷ zs) e h = (trans x y z e h.0, below_trans x y zs e h.1)

    insert_sorted-IsSorted :
        (x : A) (ys : List A) → IsSorted le ys → IsSorted le (insert_sorted le x ys)
    insert_sorted-IsSorted x [] h = (tt, tt)
    insert_sorted-IsSorted x (y ∷ ys) h = elim (Bool-cases (le x y)) [
      | inl e ↦ rw e ((e, below_trans x y ys e h.0), h)
      | inr e ↦ rw e (
        insert_sorted-All (λ z. le y z ≡ true) x ys (total x y e) h.0,
        insert_sorted-IsSorted x ys h.1,
      )
    ]

    -- Sorting by a total and transitive order gives a sorted list.
    pub sort_by-IsSorted : (xs : List A) → IsSorted le (sort_by le xs)
    unfolding sort_by
    sort_by-IsSorted [] = tt
    sort_by-IsSorted (x ∷ xs) = insert_sorted-IsSorted x (sort_by le xs) (sort_by-IsSorted xs)

  -- Elements that the order does not tell apart keep their order.
  module _ (p : A → Bool) (tied : (x y : A) → p x ≡ true → p y ≡ true → le x y ≡ true) where
    retain-insert_sorted :
        (x : A) (ys : List A)
        → retain p (insert_sorted le x ys) ≡ (if p x then x ∷ retain p ys else retain p ys)
    retain-insert_sorted x [] = refl
    retain-insert_sorted x (y ∷ ys) = ground (arith, tied x y, retain-insert_sorted x ys)

    pub retain-sort_by : (xs : List A) → retain p (sort_by le xs) ≡ retain p xs
    unfolding sort_by
    retain-sort_by [] = refl
    retain-sort_by (x ∷ xs) = rw (retain-insert_sorted x (sort_by le xs), retain-sort_by xs)

module _ {ℓ} {A : Type ℓ} (le : A → A → Bool) (p : A → Bool) where
  any-insert_sorted : (x : A) (ys : List A) → any p (insert_sorted le x ys) ≡ (p x || any p ys)
  any-insert_sorted x [] = refl
  any-insert_sorted x (y ∷ ys) = elim (Bool-cases (le x y)) [
    | inl e ↦ rw e
    | inr e ↦ rw (e, any-insert_sorted x ys) (ground arith)
  ]

  pub any-sort_by : (xs : List A) → any p (sort_by le xs) ≡ any p xs
  unfolding sort_by
  any-sort_by [] = refl
  any-sort_by (x ∷ xs) = any-insert_sorted x (sort_by le xs) ∙ ap (λ b. p x || b) (any-sort_by xs)
