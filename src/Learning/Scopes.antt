-- ===== src/Learning/Scopes.antt =====
-- src/learning/store.rs: which scopes two repositories share.
use codasaurus.Learning.{scope_chain, slash}
use codasaurus.Prelude.{
  ℕ, Text, text_eq, text_eq_iff, has_char, is_empty_text, before_char, List, [], ◌∷◌, ◌++◌, some,
  false, ◌==◌, Bool-cases, retain, any, All, ◌≡◌, refl, sym, ap, ◌∙◌, ◌≢◌, inl, inr, arith,
}

before_slash :
    (owner name : Text)
    → has_char b'/' owner ≡ false
    → before_char b'/' (owner ++ (b'/' ∷ name)) ≡ some (owner, name)
before_slash [] name h = refl
before_slash (c ∷ cs) name h =
    let rest = before_slash cs name (ground (arith, h)) in
    let here : (b'/' == c) ≡ false = ground (arith, h) in rw (here, rest)

-- A scope names an owner.
abbrev pub Names : Text → Text → Type 0
Names owner s = (name : Text) × (before_char b'/' s ≡ some (owner, name))

filled : (s : Text) (c : ℕ) (t : Text) → is_empty_text (s ++ (c ∷ t)) ≡ false
filled [] c t = refl
filled (d ∷ s) c t = refl

-- After the scope of the instance come scopes that name the owner.
pub scope_chain-Names :
    (owner name : Text)
    → has_char b'/' owner ≡ false
    → (tail : List Text) × (scope_chain (some (owner ++ (b'/' ∷ name))) ≡ [] ∷ tail)
      × All (Names owner) tail
unfolding scope_chain
scope_chain-Names owner name h =
    let whole = before_slash owner name h in
    elim (Bool-cases (is_empty_text owner)) [
      | inl e ↦ (
        (owner ++ (b'/' ∷ name)) ∷ [],
        rw (filled owner b'/' name, whole, e),
        ((name, whole), tt),
      )
      | inr e ↦ (
        (owner ++ slash) ∷ (owner ++ (b'/' ∷ name)) ∷ [],
        rw (filled owner b'/' name, whole, e),
        (([], before_slash owner [] h), ((name, whole), tt)),
      )
    ]

module _ (owner other : Text) (differ : owner ≢ other) where
  -- A scope that names an owner is not among those that name another.
  pub foreign :
      (s a : Text) (xs : List Text)
      → before_char b'/' s ≡ some (owner, a)
      → All (Names other) xs
      → any (text_eq s) xs ≡ false
  foreign s a [] e h = refl
  foreign s a (x ∷ xs) e h = elim (Bool-cases (text_eq s x)) [
    | inl q ↦ absurd (clash ((text_eq_iff s x).0 q) h.0)
    | inr q ↦ rw (q, foreign s a xs e h.1)
  ]
    where
      clash : s ≡ x → Names other x → ⊥
      clash q (b, f) =
          let both : some (owner, a) ≡ some (other, b) = sym e ∙ ap (before_char b'/') q ∙ f in
          differ (cc both)

  pub is_blank : (s a : Text) → before_char b'/' s ≡ some (owner, a) → text_eq s [] ≡ false
  is_blank [] a e = absurd (cc e)
  is_blank (c ∷ s) a e = refl

  dropped :
      (xs ys : List Text)
      → All (Names owner) xs
      → All (Names other) ys
      → retain (λ s. any (text_eq s) ([] ∷ ys)) xs ≡ []
  dropped [] ys h k = refl
  dropped (x ∷ xs) ys ((a, e), h) k = rw (is_blank x a e, foreign x a ys e k) (dropped xs ys h k)

-- Two repositories of different owners, whose names have no slash, share exactly the scope of the
-- instance: what is learned for an owner or for a repository is never applied to a repository of
-- another owner.
pub scope_chain-isolated :
    (owner other name second : Text)
    → has_char b'/' owner ≡ false
    → has_char b'/' other ≡ false
    → owner ≢ other
    → retain
        (λ s. any (text_eq s) (scope_chain (some (other ++ (b'/' ∷ second)))))
        (scope_chain (some (owner ++ (b'/' ∷ name))))
      ≡ [] ∷ []
scope_chain-isolated owner other name second h k differ =
    let (mine, e, own) = scope_chain-Names owner name h in
    let (theirs, f, others) = scope_chain-Names other second k in
    ap (λ ys. retain (λ s. any (text_eq s) ys) (scope_chain (some (owner ++ (b'/' ∷ name))))) f
    ∙ ap (retain (λ s. any (text_eq s) ([] ∷ theirs))) e
    ∙ ap (◌∷◌ []) (dropped owner other differ mine theirs own others)
