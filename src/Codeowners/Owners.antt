-- ===== src/Codeowners/Owners.antt =====
-- src/bot/codeowners.rs: who is asked about the changed paths.
use codasaurus.Codeowners.{
  CodeOwnerRule, path_matches, last_match, insert_owner, insert_all, or_none, collect_owners,
  owners_for_paths,
}
use codasaurus.Prelude.{
  Text, text_eq, text_eq_iff, text_le, List, [], ◌∷◌, Option, none, some, Bool, true, false, ◌||◌,
  if◌then◌else◌, Bool-cases, any, if_true, if_false, ◌≡◌, refl, sym, ◌∙◌, inl, inr, arith,
}

-- The owners that the last rule that matches a path gives it.
abbrev pub owners_of : Text → List CodeOwnerRule → List Text
owners_of path [] = []
owners_of path (rule ∷ rules) =
    let rest = owners_of path rules in
    if any (λ r. path_matches r.pattern path) rules
    then rest
    else if path_matches rule.pattern path
    then rule.owners
    else []

last_match-owners :
    (path : Text) (rules : List CodeOwnerRule) (m : Option (List Text))
    → or_none (last_match path rules m)
      ≡ (if any (λ r. path_matches r.pattern path) rules then owners_of path rules else or_none m)
unfolding last_match
last_match-owners path [] m = refl
last_match-owners path (rule ∷ rules) m = elim (Bool-cases (path_matches rule.pattern path)) [
  | inl e ↦ rw (e, last_match-owners path rules (some rule.owners))
  | inr e ↦
      rw (e, last_match-owners path rules m) (same (any (λ r. path_matches r.pattern path) rules))
]
  where
    same :
        (b : Bool)
        → (if b then owners_of path rules else or_none m)
          ≡ (if b then (if b then owners_of path rules else []) else or_none m)
    same true = refl
    same false = refl

unmatched :
    (path : Text) (rules : List CodeOwnerRule)
    → any (λ r. path_matches r.pattern path) rules ≡ false
    → owners_of path rules ≡ []
unmatched path [] e = refl
unmatched path (rule ∷ rules) e =
    let here : path_matches rule.pattern path ≡ false = ground (arith, e) in
    let there : any (λ r. path_matches r.pattern path) rules ≡ false = ground (arith, e) in
    rw (here, there)

found :
    (path : Text) (rules : List CodeOwnerRule)
    → or_none (last_match path rules none) ≡ owners_of path rules
found path rules =
    last_match-owners path rules none
    ∙ (elim (Bool-cases (any (λ r. path_matches r.pattern path) rules)) [
      | inl e ↦ if_true _ _ _ e
      | inr e ↦ if_false _ _ _ e ∙ sym (unmatched path rules e)
    ])

module _ (o : Text) where
  any-insert_owner :
      (p : Text) (set : List Text)
      → any (text_eq o) (insert_owner p set) ≡ (text_eq o p || any (text_eq o) set)
  any-insert_owner p [] = refl
  any-insert_owner p (q ∷ qs) = elim (Bool-cases (text_eq p q)) [
    | inl e ↦ let same = (text_eq_iff p q).0 e in rw (e, same) (ground arith)
    | inr e ↦ elim (Bool-cases (text_le p q)) [
      | inl l ↦ rw (e, l)
      | inr l ↦ rw (e, l, any-insert_owner p qs) (ground arith)
    ]
  ]

  any-insert_all :
      (ps set : List Text)
      → any (text_eq o) (insert_all ps set) ≡ (any (text_eq o) ps || any (text_eq o) set)
  any-insert_all [] set = refl
  any-insert_all (p ∷ ps) set =
      rw (any-insert_all ps (insert_owner p set), any-insert_owner p set) (ground arith)

  any-collect_owners :
      (rules : List CodeOwnerRule) (paths set : List Text)
      → any (text_eq o) (collect_owners rules paths set)
        ≡ (any (λ path. any (text_eq o) (owners_of path rules)) paths || any (text_eq o) set)
  unfolding collect_owners
  any-collect_owners rules [] set = refl
  any-collect_owners rules (path ∷ paths) set =
      any-collect_owners rules paths (insert_all (or_none (last_match path rules none)) set)
      ∙ rw (any-insert_all, found path rules) (ground arith)

-- Somebody is among the owners of the changed paths exactly when, for one of the paths, the last rule
-- that matches it names them.
pub owners_for_paths-last :
    (o : Text) (rules : List CodeOwnerRule) (paths : List Text)
    → any (text_eq o) (owners_for_paths rules paths)
      ≡ any (λ path. any (text_eq o) (owners_of path rules)) paths
unfolding owners_for_paths
owners_for_paths-last o rules paths = any-collect_owners o rules paths [] ∙ ground arith
