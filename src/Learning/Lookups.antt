-- ===== src/Learning/Lookups.antt =====
-- src/learning/store.rs: the look-ups of fingerprints and of their prefixes, without the buckets.
use codasaurus.Learning.Store.{Dismissed, in_scopes, first_of}
use codasaurus.Learning.Filter.{
  bucket, buckets, prefix_stored, fingerprints_in, dismissed_set, prefixes, min_prefix_len,
  max_prefix_len,
}
use codasaurus.Prelude.{
  ℕ, Text, text_eq, text_eq_iff, starts_with, List, [], ◌∷◌, map, is_some, Bool, true, ◌&&◌, ◌||◌,
  leb, ◌==◌, ==_iff, Bool-cases, length, take, retain, any, ◌≡◌, refl, sym, ap, ◌∙◌, inl, inr,
  arith,
}

pub any-map {ℓ κ} :
    {A : Type ℓ} {B : Type κ} (p : B → Bool) (g : A → B) (xs : List A)
    → any p (map g xs) ≡ any (λ x. p (g x)) xs
any-map p g [] = refl
any-map p g (x ∷ xs) = ap (λ b. p (g x) || b) (any-map p g xs)

module _ {ℓ} {A : Type ℓ} where
  pub any-retain : (p q : A → Bool) (xs : List A) → any p (retain q xs) ≡ any (λ x. q x && p x) xs
  any-retain p q [] = refl
  any-retain p q (x ∷ xs) = elim (Bool-cases (q x)) [
    | inl e ↦ rw e (ap (λ b. p x || b) (any-retain p q xs))
    | inr e ↦ rw e (any-retain p q xs)
  ]

  pub any_or : (p q : A → Bool) (xs : List A) → any (λ x. p x || q x) xs ≡ (any p xs || any q xs)
  any_or p q [] = refl
  any_or p q (x ∷ xs) = rw (any_or p q xs) (shuffle (p x) (q x) (any p xs) (any q xs))
    where
      shuffle : (a b c d : Bool) → ((a || b) || (c || d)) ≡ ((a || c) || (b || d))
      shuffle a b c d = ground arith

  pub any_same : (p q : A → Bool) (xs : List A) → ((x : A) → p x ≡ q x) → any p xs ≡ any q xs
  any_same p q [] h = refl
  any_same p q (x ∷ xs) h = rw (h x, any_same p q xs h)

  pub first_of-any : (p : A → Bool) (xs : List A) → is_some (first_of p xs) ≡ any p xs
  first_of-any p [] = refl
  first_of-any p (x ∷ xs) = elim (Bool-cases (p x)) [
    | inl e ↦ rw e
    | inr e ↦ rw e (first_of-any p xs)
  ]

-- A prefix of a text, by its length.
starts_with-take :
    (p s : Text) → starts_with p s ≡ (leb (length p) (length s) && text_eq (take (length p) s) p)
starts_with-take [] s = ground arith
starts_with-take (c ∷ p) [] = ground arith
starts_with-take (c ∷ p) (d ∷ s) = elim (Bool-cases (c == d)) [
  | inl e ↦ ground (arith, starts_with-take p s)
  | inr e ↦ ground arith
]

bucket-any :
    (fp p : Text) (m : List (ℕ × List Text))
    → any (prefix_stored fp) (bucket p m) ≡ (starts_with p fp || any (prefix_stored fp) m)
bucket-any fp p [] = rw (starts_with-take p fp) (ground arith)
bucket-any fp p ((n, set) ∷ m) = elim (Bool-cases (n == length p)) [
  | inl e ↦
      let same : n ≡ length p = (==_iff n (length p)).0 e in
      let at : starts_with p fp ≡ (leb n (length fp) && text_eq (take n fp) p) =
        rw same (starts_with-take p fp) in
      rw (e, at)
        (split (leb n (length fp)) (text_eq (take n fp) p) (any (text_eq (take n fp)) set)
          (any (prefix_stored fp) m))
  | inr e ↦
      rw (e, bucket-any fp p m)
        (swap (prefix_stored fp (n, set)) (starts_with p fp) (any (prefix_stored fp) m))
]
  where
    split : (l a b c : Bool) → ((l && (a || b)) || c) ≡ ((l && a) || ((l && b) || c))
    split l a b c = ground arith

    swap : (a b c : Bool) → (a || (b || c)) ≡ (b || (a || c))
    swap a b c = ground arith

-- The buckets answer as the stored prefixes do.
buckets-any :
    (fp : Text) (ps : List Text)
    → any (prefix_stored fp) (buckets ps) ≡ any (λ p. starts_with p fp) ps
unfolding buckets
buckets-any fp [] = refl
buckets-any fp (p ∷ ps) =
    bucket-any fp p (buckets ps) ∙ ap (λ b. starts_with p fp || b) (buckets-any fp ps)

-- `HashSet` look-ups of a fingerprint that was asked for.
dismissed_set-any :
    (fp : Text) (fps scopes : List Text) (rows : List Dismissed)
    → any (text_eq fp) fps ≡ true
    → any (text_eq fp) (dismissed_set fps scopes rows)
      ≡ any (text_eq fp) (fingerprints_in scopes rows)
unfolding dismissed_set
dismissed_set-any fp fps scopes rows asked =
    any-retain (text_eq fp) (λ g. any (text_eq g) fps) (fingerprints_in scopes rows)
    ∙ any_same _ (text_eq fp) (fingerprints_in scopes rows) known
  where
    known : (g : Text) → (any (text_eq g) fps && text_eq fp g) ≡ text_eq fp g
    known g = elim (Bool-cases (text_eq fp g)) [
      | inl e ↦
          let same : any (text_eq g) fps ≡ true = rw (← (text_eq_iff fp g).0 e) asked in
          rw (e, same)
      | inr e ↦ rw e (ground arith)
    ]

-- The row suppresses the fingerprint: it holds the whole of it, or a prefix of 12 to 63 digits.
abbrev pub names_fingerprint : Text → Text → Bool
names_fingerprint fp stored =
    text_eq fp stored
    || ((leb min_prefix_len (length stored) && leb (length stored) max_prefix_len)
        && starts_with stored fp)

abbrev pub dismissed_in : List Text → Text → List Dismissed → Bool
dismissed_in scopes fp rows =
    any (λ d. in_scopes scopes d.repo_full_name && names_fingerprint fp d.fingerprint) rows

pub lookups :
    (fp : Text) (fps scopes : List Text) (rows : List Dismissed)
    → any (text_eq fp) fps ≡ true
    → (any (text_eq fp) (dismissed_set fps scopes rows)
        || any (prefix_stored fp) (buckets (prefixes scopes rows)))
      ≡ dismissed_in scopes fp rows
unfolding prefixes
lookups fp fps scopes rows asked =
    rw (dismissed_set-any fp fps scopes rows asked, buckets-any fp (prefixes scopes rows))
      (ap (λ b. any (text_eq fp) (fingerprints_in scopes rows) || b)
          (any-retain (λ p. starts_with p fp)
            (λ p. leb min_prefix_len (length p) && leb (length p) max_prefix_len)
            (fingerprints_in scopes rows))
        ∙ sym (
            any_or (text_eq fp)
              (λ p.
                (leb min_prefix_len (length p) && leb (length p) max_prefix_len)
                && starts_with p fp)
              (fingerprints_in scopes rows))
        ∙ any-map (names_fingerprint fp) (λ (d : Dismissed). d.fingerprint)
            (retain (λ d. in_scopes scopes d.repo_full_name) rows)
        ∙ any-retain (λ d. names_fingerprint fp d.fingerprint)
            (λ d. in_scopes scopes d.repo_full_name) rows)
