-- ===== src/Learning/Isolated.antt =====
-- src/learning/store.rs: what other owners of repositories have dismissed and learned.
use codasaurus.Finding.{Finding, fingerprint}
use codasaurus.Learning.{scope_chain}
use codasaurus.Learning.Scopes.{scope_chain-Names, foreign, is_blank}
use codasaurus.Learning.Store.{Dismissed, Rule, Store, in_scopes, rule_scope, precedes, first_of}
use codasaurus.Learning.Filter.{adjusted, applies, candidates, filter_findings_async}
use codasaurus.Learning.Lookups.{dismissed_in, names_fingerprint}
use codasaurus.Learning.Suppressed.{
  is_suppressed, ignored_by, adjusted_by, rules_for, filter_findings_async-kept,
}
use codasaurus.Prelude.{
  ℕ, Text, text_eq, text_eq_iff, has_char, before_char, List, [], ◌∷◌, ◌++◌, map, Option, none,
  some, Bool, true, false, not, ◌&&◌, ◌||◌, Bool-cases, Option-cases, retain, any, sort_by, ◌≡◌,
  refl, sym, ap, ◌∙◌, ◌≢◌, inl, inr, arith,
}

-- The scope of another owner, or of a repository of another owner.
abbrev names_other : Text → Option (Text × Text) → Bool
names_other owner none = false
names_other owner (some (o, name)) = not (text_eq o owner)

abbrev pub is_foreign : Text → Text → Bool
is_foreign owner scope = names_other owner (before_char b'/' scope)

-- The store without the rows of other owners.
abbrev pub at_home : Text → Store → Store
at_home owner s = record {
  dismissed_findings =
      retain (λ (d : Dismissed). not (is_foreign owner d.repo_full_name)) s.dismissed_findings;
  learned_rules = retain (λ (r : Rule). not (is_foreign owner (rule_scope r))) s.learned_rules;
}

module _ {ℓ} {A : Type ℓ} (p q : A → Bool) (within : (x : A) → q x ≡ false → p x ≡ false) where
  retain_within : (xs : List A) → retain p (retain q xs) ≡ retain p xs
  retain_within [] = refl
  retain_within (x ∷ xs) = elim (Bool-cases (q x)) [
    | inl e ↦ rw (e, retain_within xs)
    | inr e ↦ rw (e, within x e, retain_within xs)
  ]

  any_within : (xs : List A) → any p (retain q xs) ≡ any p xs
  any_within [] = refl
  any_within (x ∷ xs) = elim (Bool-cases (q x)) [
    | inl e ↦ rw (e, any_within xs)
    | inr e ↦ rw (e, within x e, any_within xs)
  ]

retain_same {ℓ} :
    {A : Type ℓ} (p q : A → Bool) (xs : List A) → ((x : A) → p x ≡ q x) → retain p xs ≡ retain q xs
retain_same p q [] h = refl
retain_same p q (x ∷ xs) h = rw (h x, retain_same p q xs h)

map_same {ℓ κ} :
    {A : Type ℓ} {B : Type κ} (f g : A → B) (xs : List A)
    → ((x : A) → f x ≡ g x)
    → map f xs ≡ map g xs
map_same f g [] h = refl
map_same f g (x ∷ xs) h = rw (h x, map_same f g xs h)

-- The chain of a repository holds no scope of another owner.
foreign-out :
    (owner name scope : Text)
    → has_char b'/' owner ≡ false
    → is_foreign owner scope ≡ true
    → in_scopes (scope_chain (some (owner ++ (b'/' ∷ name)))) scope ≡ false
foreign-out owner name scope h away = elim (Option-cases (before_char b'/' scope)) [
  | inl e ↦ absurd (impossible (rw e at away))
  | inr ((o, rest), e) ↦
      let (tail, chain, named) = scope_chain-Names owner name h in
      let differ = apart o (rw e at away) in
      rw (
        chain,
        is_blank o owner differ scope rest e,
        foreign o owner differ scope rest tail e named,
      )
]
  where
    impossible : ◌≡◌ {A = Bool} false true → ⊥
    impossible q = cc

    apart : (o : Text) → not (text_eq o owner) ≡ true → o ≢ owner
    apart o k q = let same = (text_eq_iff o owner).1 q in impossible (sym (ap not same) ∙ k)

module _ (id_le : Text → Text → Bool) (to_lowercase : Text → Text) (sha256_hex : List ℕ → Text)
    (owner name : Text) (h : has_char b'/' owner ≡ false) (s : Store) where
  abbrev repo : Option Text
  repo = some (owner ++ (b'/' ∷ name))

  abbrev home : Store
  home = at_home owner s

  stays :
      (scope : Text)
      → not (is_foreign owner scope) ≡ false
      → in_scopes (scope_chain repo) scope ≡ false
  stays scope e = foreign-out owner name scope h (ground arith)

  rules_for-home :
      (f : Finding)
      → rules_for id_le to_lowercase sha256_hex repo home f
        ≡ rules_for id_le to_lowercase sha256_hex repo s f
  rules_for-home f =
      ap (λ rs. candidates id_le to_lowercase sha256_hex f (sort_by (precedes id_le) rs))
        (retain_within (applies (scope_chain repo)) (λ r. not (is_foreign owner (rule_scope r)))
          (λ r e. rw (stays (rule_scope r) e) (ground arith)) s.learned_rules)

  is_suppressed-home :
      (f : Finding)
      → is_suppressed id_le to_lowercase sha256_hex repo home f
        ≡ is_suppressed id_le to_lowercase sha256_hex repo s f
  is_suppressed-home f =
      let fp = fingerprint sha256_hex f in
      let rows =
        any_within
          (λ (d : Dismissed).
            in_scopes (scope_chain repo) d.repo_full_name && names_fingerprint fp d.fingerprint)
          (λ d. not (is_foreign owner d.repo_full_name)) (λ d e. rw (stays d.repo_full_name e))
          s.dismissed_findings in
      let rules =
        any_within (ignored_by id_le to_lowercase sha256_hex (scope_chain repo) f)
          (λ r. not (is_foreign owner (rule_scope r)))
          (λ r e. rw (stays (rule_scope r) e) (ground arith)) s.learned_rules in
      ap
        (λ b.
          b
          || any (ignored_by id_le to_lowercase sha256_hex (scope_chain repo) f) home.learned_rules)
        rows
      ∙ ap (λ b. dismissed_in (scope_chain repo) fp s.dismissed_findings || b) rules

  -- What a review of a repository keeps does not depend on the dismissals and the rules of other
  -- owners, whatever they are.
  pub filter_findings_async-isolated :
      (now : ℕ) (findings : List Finding)
      → (filter_findings_async id_le to_lowercase sha256_hex now findings repo s).0
        ≡ (filter_findings_async id_le to_lowercase sha256_hex now findings repo home).0
  filter_findings_async-isolated now findings =
      filter_findings_async-kept id_le to_lowercase sha256_hex now findings repo s
      ∙ sym (
          filter_findings_async-kept id_le to_lowercase sha256_hex now findings repo home
          ∙ ap (map (adjusted_by id_le to_lowercase sha256_hex repo home))
              (retain_same _ _ findings (λ f. ap not (is_suppressed-home f)))
          ∙ map_same _ _ _
              (λ f. ap (λ rs. adjusted (first_of (λ (r : Rule). true) rs) f) (rules_for-home f)))
