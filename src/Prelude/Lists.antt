-- ===== src/Prelude/Lists.antt =====
-- Lists measured by native numbers, under the library's names, and Boolean filters.
use Prim.Native.Nat.{ℕ, zero, suc, ◌+◌, ◌-◌, ◌≤◌, ◌<◌, min}
use mathlib.Core.Path.{◌≡◌, refl, ap}
use mathlib.Core.Bool.{Bool, true, false, not, ◌&&◌, ◌||◌}
use mathlib.Core.List.{map, List, [], ◌∷◌, ◌++◌, Memᴰ}
use mathlib.Core.Option.{Option, none, some}
use native.Mathlib.Omega.{arith}
use codasaurus.Prelude.Tests.{if◌then◌else◌, Bool-cases, leb, leb→le}
use mathlib.Core.Logic.{◌↔◌, ◌≢◌, inl, inr}

module _ {ℓ} {A : Type ℓ} where
  abbrev pub length : List A → ℕ
  length [] = 0
  length (x ∷ xs) = suc (length xs)

  abbrev pub take : ℕ → List A → List A
  take zero xs = []
  take (suc n) [] = []
  take (suc n) (x ∷ xs) = x ∷ take n xs

  abbrev pub get_elem? : List A → ℕ → Option A
  get_elem? [] i = none
  get_elem? (x ∷ xs) zero = some x
  get_elem? (x ∷ xs) (suc i) = get_elem? xs i

  abbrev pub is_nil : List A → Bool
  is_nil [] = true
  is_nil (x ∷ xs) = false

  -- `Vec::retain` and `Iterator::filter` with a pure test.
  abbrev pub retain : (A → Bool) → List A → List A
  retain p [] = []
  retain p (x ∷ xs) = let rest = retain p xs in if p x then x ∷ rest else rest

  abbrev pub any : (A → Bool) → List A → Bool
  any p [] = false
  any p (x ∷ xs) = p x || any p xs

  abbrev pub all : (A → Bool) → List A → Bool
  all p [] = true
  all p (x ∷ xs) = p x && all p xs

  -- `iter().filter(p).count()`.
  abbrev pub count_if : (A → Bool) → List A → ℕ
  count_if p [] = 0
  count_if p (x ∷ xs) = (if p x then 1 else 0) + count_if p xs

  abbrev pub All {κ} : (A → Type κ) → List A → Type κ
  All P [] = Unit
  All P (x ∷ xs) = P x × All P xs

module _ {ℓ} {A : Type ℓ} where
  pub length-append : (xs ys : List A) → length (xs ++ ys) ≡ length xs + length ys
  length-append [] ys = omega arith
  length-append (x ∷ xs) ys = omega (arith, length-append xs ys)

  pub length-take : (n : ℕ) (xs : List A) → length (take n xs) ≡ min n (length xs)
  length-take zero xs = omega arith
  length-take (suc n) [] = omega arith
  length-take (suc n) (x ∷ xs) = omega (arith, length-take n xs)

  pub count_if-append :
      (p : A → Bool) (xs ys : List A) → count_if p (xs ++ ys) ≡ count_if p xs + count_if p ys
  count_if-append p [] ys = omega arith
  count_if-append p (x ∷ xs) ys = omega (arith, count_if-append p xs ys)

  pub count_if-le-length : (p : A → Bool) (xs : List A) → count_if p xs ≤ length xs
  count_if-le-length p [] = omega arith
  count_if-le-length p (x ∷ xs) = ground (arith, count_if-le-length p xs)

  pub All-append {κ} : (P : A → Type κ) (xs ys : List A) → All P xs → All P ys → All P (xs ++ ys)
  All-append P [] ys hx hy = hy
  All-append P (x ∷ xs) ys hx hy = (hx.0, All-append P xs ys hx.1 hy)

  pub All_mono {κ μ} :
      {P : A → Type κ} {Q : A → Type μ}
      → ((x : A) → P x → Q x)
      → (xs : List A) → All P xs
      → All Q xs
  All_mono f [] h = tt
  All_mono f (x ∷ xs) h = (f x h.0, All_mono f xs h.1)

  pub All-mem {κ} : (P : A → Type κ) {x : A} (xs : List A) → All P xs → Memᴰ x xs → P x
  All-mem P [] h m = elim m [ ]
  All-mem P (y ∷ ys) h (Memᴰ.head e) = rw e h.0
  All-mem P (y ∷ ys) h (Memᴰ.tail m) = All-mem P ys h.1 m

  pub All-retain {κ} :
      (P : A → Type κ) (p : A → Bool) (xs : List A) → All P xs → All P (retain p xs)
  All-retain P p [] h = tt
  All-retain P p (x ∷ xs) h = elim (Bool-cases (p x)) [
    | inl e ↦ rw e (h.0, All-retain P p xs h.1)
    | inr e ↦ rw e (All-retain P p xs h.1)
  ]

  -- What a filter keeps is what the list holds and the test accepts.
  pub mem-retain :
      (p : A → Bool) {x : A} (xs : List A) → Memᴰ x (retain p xs) → Memᴰ x xs × (p x ≡ true)
  mem-retain p [] m = elim m [ ]
  mem-retain p {x} (y ∷ ys) m = elim (Bool-cases (p y)) [
    | inl e ↦ split e (mem-retain p ys) (rw e at m)
    | inr e ↦ let (h, q) = mem-retain p ys (rw e at m) in (Memᴰ.tail h, q)
  ]
    where
      split :
          p y ≡ true
          → (Memᴰ x (retain p ys) → Memᴰ x ys × (p x ≡ true))
          → Memᴰ x (y ∷ retain p ys)
          → Memᴰ x (y ∷ ys) × (p x ≡ true)
      split e ih (Memᴰ.head same) = (Memᴰ.head same, rw same e)
      split e ih (Memᴰ.tail k) = (Memᴰ.tail (ih k).0, (ih k).1)

  pub mem-retain_of :
      (p : A → Bool) {x : A} (xs : List A) → Memᴰ x xs → p x ≡ true → Memᴰ x (retain p xs)
  mem-retain_of p [] m h = elim m [ ]
  mem-retain_of p (y ∷ ys) (Memᴰ.head same) h = rw (← same, h) (Memᴰ.head refl)
  mem-retain_of p (y ∷ ys) (Memᴰ.tail m) h = elim (Bool-cases (p y)) [
    | inl e ↦ rw e (Memᴰ.tail (mem-retain_of p ys m h))
    | inr e ↦ rw e (mem-retain_of p ys m h)
  ]

  pub take-nil : (n : ℕ) → take {A = A} n [] ≡ []
  take-nil zero = refl
  take-nil (suc n) = refl

  -- A cap with a counter: what is left of the cap after one more element.
  pub take-sub :
      (m n : ℕ) (x : A) (xs : List A)
      → take (m - n) (x ∷ xs)
        ≡ (if leb (n + 1) m then x ∷ take (m - (n + 1)) xs else take (m - (n + 1)) xs)
  take-sub m n x xs = elim (Bool-cases (leb (n + 1) m)) [
    | inl e ↦
        let more : m - n ≡ suc (m - (n + 1)) = omega (arith, leb→le (n + 1) m e) in rw (more, e)
    | inr e ↦
        let full : m - n ≡ 0 = ground arith in
        let full' : m - (n + 1) ≡ 0 = ground arith in rw (full, full', e)
  ]

  pub any-append : (p : A → Bool) (xs ys : List A) → any p (xs ++ ys) ≡ (any p xs || any p ys)
  any-append p [] ys = refl
  any-append p (x ∷ xs) ys = ground (arith, any-append p xs ys)

  pub any_iff_count : (p : A → Bool) (xs : List A) → (any p xs ≡ true) ↔ (0 < count_if p xs)
  any_iff_count p [] = ground arith
  any_iff_count p (x ∷ xs) = ground (arith, any_iff_count p xs)

module _ {ℓ} {A : Type ℓ} where
  -- No element stands twice.
  abbrev pub Distinct : List A → Type ℓ
  Distinct [] = Unit
  Distinct (x ∷ xs) = All (λ y. x ≢ y) xs × Distinct xs

module _ {ℓ} {A : Type ℓ} where
  pub Distinct-snoc :
      (xs : List A) (y : A) → Distinct xs → All (λ x. x ≢ y) xs → Distinct (xs ++ y ∷ [])
  Distinct-snoc [] y d h = (tt, tt)
  Distinct-snoc (x ∷ xs) y d h =
      (All-append (λ z. x ≢ z) xs (y ∷ []) d.0 (h.0, tt), Distinct-snoc xs y d.1 h.1)

  pub any-retain_split :
      (p q : A → Bool) (xs : List A)
      → any p xs ≡ (any p (retain q xs) || any p (retain (λ x. not (q x)) xs))
  any-retain_split p q [] = refl
  any-retain_split p q (x ∷ xs) = elim (Bool-cases (q x)) [
    | inl e ↦ rw (e, any-retain_split p q xs) (ground arith)
    | inr e ↦ rw (e, any-retain_split p q xs) (ground arith)
  ]

pub map-snoc {ℓ κ} :
    {A : Type ℓ} {B : Type κ} (g : A → B) (xs : List A) (y : A)
    → map g (xs ++ y ∷ []) ≡ map g xs ++ g y ∷ []
map-snoc g [] y = refl
map-snoc g (x ∷ xs) y = ap (◌∷◌ (g x)) (map-snoc g xs y)
