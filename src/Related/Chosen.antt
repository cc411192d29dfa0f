-- ===== src/Related/Chosen.antt =====
-- src/bot/related_prs.rs: which paths are chosen.
use codasaurus.Related.{
  path_signal_score, top_level_root, meta_score, Scored, scored_of, goes_first, dedup_after,
  dedup_by_path, is_in, first_pass, second_pass, select_paths_for_related,
}
use codasaurus.Prelude.{
  ℕ, ◌≤◌, ◌<◌, max, Text, text_eq, text_eq_iff, text_eq_refl, is_empty_text, List, [], ◌∷◌, ◌++◌,
  Bool, true, false, not, ◌||◌, ltb, leb, ◌==◌, lt→ltb, ==_iff, Bool-cases, length, any, All,
  length-append, All-append, All_mono, Distinct, Distinct-snoc, any-sort_by, any-append, sort_by,
  sort_by-All, ◌≡◌, refl, sym, ap, ◌∙◌, subst, ◌≢◌, ◌⊎◌, inl, inr, arith,
}

abbrev is_path : Text → Scored → Bool
is_path p e = text_eq e.1 p

or_left : (a b : Bool) → a ≡ true → (a || b) ≡ true
or_left a b e = rw e refl

or_right : (a b : Bool) → b ≡ true → (a || b) ≡ true
or_right true b e = refl
or_right false b e = e

has_name : (p : Text) → 0 < path_signal_score p → is_empty_text p ≡ false
unfolding path_signal_score
has_name [] s = absurd (omega arith)
has_name (c ∷ p) s = refl

module _ (max : ℕ) (changed_paths : List Text) where
  -- A changed path that is worth a look.
  abbrev pub IsWorth : Text → Type 0
  IsWorth p = (is_in changed_paths p ≡ true) × (0 < path_signal_score p)

  -- At most `max` changed paths of a positive score, none twice, and if a slot is left then all.
  pub record IsSelection (selected : List Text) : Type 0 where
    pub few : length selected ≤ max
    pub apart : Distinct selected
    pub worth : All IsWorth selected
    pub complete :
        length selected < max
        → All (λ p. 0 < path_signal_score p → is_in selected p ≡ true) changed_paths

  record IsGood (selected : List Text) : Type 0 where
    few : length selected ≤ max
    apart : Distinct selected
    worth : All IsWorth selected

  not_in : (p : Text) (ts : List Text) → is_in ts p ≡ false → All (λ t. t ≢ p) ts
  not_in p [] e = tt
  not_in p (t ∷ ts) e = elim (Bool-cases (text_eq t p)) [
    | inl q ↦ absurd (cc (rw q at e))
    | inr q ↦ ((λ same. clash same q), not_in p ts (rw q at e))
  ]
    where
      clash : t ≡ p → text_eq t p ≡ false → ⊥
      clash same q = cc (sym ((text_eq_iff t p).1 same) ∙ q)

  -- One more path, with a slot for it.
  pushed :
      (p : Text) (sel : List Text)
      → IsGood sel
      → IsWorth p
      → leb max (length sel) ≡ false
      → All (λ t. t ≢ p) sel
      → IsGood (sel ++ p ∷ [])
  pushed p sel g w room new = record {
    few = ground (arith, length-append sel (p ∷ []), room);
    apart = Distinct-snoc sel p g.apart new;
    worth = All-append IsWorth sel (p ∷ []) g.worth (w, tt);
  }

  first_pass-IsGood :
      (es : List Scored)
      → All (λ e. IsWorth e.1) es
      → (used sel : List Text) → IsGood sel
      → All (λ t. is_in used (top_level_root t) ≡ true) sel
      → IsGood (first_pass max es used sel)
  first_pass-IsGood [] w used sel g m = g
  first_pass-IsGood ((score, path) ∷ es) w used sel g m =
      elim (Bool-cases
        (leb max (length sel) || (leb score meta_score || is_in used (top_level_root path)))) [
          | inl e ↦ rw e (first_pass-IsGood es w.1 used sel g m)
          | inr e ↦
              let fresh : is_in used (top_level_root path) ≡ false = ground arith in
              let room : leb max (length sel) ≡ false = ground arith in
              rw e (
                first_pass-IsGood es w.1 (top_level_root path ∷ used) (sel ++ path ∷ [])
                  (pushed path sel g w.0 room (apart fresh sel m))
                  (All-append (λ t. is_in (top_level_root path ∷ used) (top_level_root t) ≡ true)
                    sel (path ∷ [])
                    (All_mono
                      (λ t k.
                        or_right (text_eq (top_level_root path) (top_level_root t))
                          (is_in used (top_level_root t)) k)
                      sel m)
                    (
                      or_left (text_eq (top_level_root path) (top_level_root path))
                          (is_in used (top_level_root path)) (text_eq_refl (top_level_root path)),
                      tt,
                    )))
        ]
    where
      apart :
          is_in used (top_level_root path) ≡ false
          → (ts : List Text) → All (λ t. is_in used (top_level_root t) ≡ true) ts
          → All (λ t. t ≢ path) ts
      apart fresh [] m = tt
      apart fresh (t ∷ ts) m = (
        (λ same. cc (sym m.0 ∙ ap (λ x. is_in used (top_level_root x)) same ∙ fresh)),
        apart fresh ts m.1,
      )

  second_pass-IsGood :
      (es : List Scored)
      → All (λ e. IsWorth e.1) es
      → (sel : List Text) → IsGood sel
      → IsGood (second_pass max es sel)
  second_pass-IsGood [] w sel g = g
  second_pass-IsGood ((score, path) ∷ es) w sel g =
      elim (Bool-cases (leb max (length sel) || is_in sel path)) [
        | inl e ↦ rw e (second_pass-IsGood es w.1 sel g)
        | inr e ↦ rw e (
            second_pass-IsGood es w.1 (sel ++ path ∷ [])
              (pushed path sel g w.0 (ground arith) (not_in path sel (ground arith))))
      ]

  second_pass-keeps :
      (es : List Scored) (sel : List Text) (p : Text)
      → is_in sel p ≡ true
      → is_in (second_pass max es sel) p ≡ true
  second_pass-keeps [] sel p h = h
  second_pass-keeps ((score, path) ∷ es) sel p h =
      elim (Bool-cases (leb max (length sel) || is_in sel path)) [
        | inl e ↦ rw e (second_pass-keeps es sel p h)
        | inr e ↦ rw e (
            second_pass-keeps es (sel ++ path ∷ []) p
              (any-append (λ s. text_eq s p) sel (path ∷ []) ∙ or_left _ _ h))
      ]

  second_pass-length :
      (es : List Scored) (sel : List Text) → length sel ≤ length (second_pass max es sel)
  second_pass-length [] sel = omega arith
  second_pass-length ((score, path) ∷ es) sel =
      elim (Bool-cases (leb max (length sel) || is_in sel path)) [
        | inl e ↦ rw e (second_pass-length es sel)
        | inr e ↦
            rw e (
              omega
                (arith, second_pass-length es (sel ++ path ∷ []), length-append sel (path ∷ [])))
      ]

  second_pass-all :
      (es : List Scored) (sel : List Text) (p : Text)
      → length (second_pass max es sel) < max
      → any (is_path p) es ≡ true
      → is_in (second_pass max es sel) p ≡ true
  second_pass-all [] sel p room h = absurd (cc h)
  second_pass-all ((score, path) ∷ es) sel p room h =
      elim (Bool-cases (leb max (length sel) || is_in sel path)) [
        | inl e ↦
            let less : length (second_pass max es sel) < max = rw e at room in
            let there : is_in sel path ≡ true =
              ground (arith, second_pass-length es sel, less, e) in
            rw e (either sel (second_pass-all es sel p less) (second_pass-keeps es sel p) there)
        | inr e ↦
            let less : length (second_pass max es (sel ++ path ∷ [])) < max = rw e at room in
            rw e (
              either (sel ++ path ∷ []) (second_pass-all es (sel ++ path ∷ []) p less)
                (second_pass-keeps es (sel ++ path ∷ []) p)
                (any-append (λ s. text_eq s path) sel (path ∷ [])
                  ∙ or_right _ _ (or_left _ _ (text_eq_refl path))))
      ]
    where
      either :
          (ts : List Text)
          → (any (is_path p) es ≡ true → is_in (second_pass max es ts) p ≡ true)
          → (is_in ts p ≡ true → is_in (second_pass max es ts) p ≡ true)
          → is_in ts path ≡ true
          → is_in (second_pass max es ts) p ≡ true
      either ts rest keep there = elim (Bool-cases (text_eq path p)) [
        | inl q ↦ keep (subst (λ x. is_in ts x ≡ true) ((text_eq_iff path p).0 q) there)
        | inr q ↦ rest (rw q at h)
      ]

  scored_of-IsWorth :
      (ps : List Text)
      → ((p : Text) → is_in ps p ≡ true → is_in changed_paths p ≡ true)
      → All (λ e. IsWorth e.1) (scored_of ps)
  scored_of-IsWorth [] f = tt
  scored_of-IsWorth (p ∷ ps) f =
      elim (Bool-cases (is_empty_text p || not (ltb 0 (path_signal_score p)))) [
        | inl e ↦ rw e (scored_of-IsWorth ps below)
        | inr e ↦
            rw e ((f p (or_left _ _ (text_eq_refl p)), ground arith), scored_of-IsWorth ps below)
      ]
    where
      below : (q : Text) → is_in ps q ≡ true → is_in changed_paths q ≡ true
      below q k = f q (or_right (text_eq p q) (is_in ps q) k)

  -- Only paths without a score are left out.
  scored_of-any :
      (ps : List Text) (p : Text)
      → 0 < path_signal_score p
      → is_in ps p ≡ true
      → any (is_path p) (scored_of ps) ≡ true
  scored_of-any [] p s h = absurd (cc h)
  scored_of-any (q ∷ ps) p s h = elim (Bool-cases (text_eq q p)) [
    | inl e ↦ own (subst (λ x. 0 < path_signal_score x) (sym ((text_eq_iff q p).0 e)) s) e
    | inr e ↦
        later (scored_of-any ps p s (rw e at h))
          (Bool-cases (is_empty_text q || not (ltb 0 (path_signal_score q))))
  ]
    where
      own :
          0 < path_signal_score q → text_eq q p ≡ true → any (is_path p) (scored_of (q ∷ ps)) ≡ true
      own k e =
          let kept : (is_empty_text q || not (ltb 0 (path_signal_score q))) ≡ false =
            rw (has_name q k, lt→ltb 0 (path_signal_score q) k) refl in
          rw (kept, e) refl

      later :
          any (is_path p) (scored_of ps) ≡ true
          → ((is_empty_text q || not (ltb 0 (path_signal_score q))) ≡ true)
            ⊎ ((is_empty_text q || not (ltb 0 (path_signal_score q))) ≡ false)
          → any (is_path p) (scored_of (q ∷ ps)) ≡ true
      later k (inl c) = rw c k
      later k (inr c) = rw c (or_right (text_eq q p) (any (is_path p) (scored_of ps)) k)

dedup_after-All :
    (P : Scored → Type 0) (last : Text) (es : List Scored) → All P es → All P (dedup_after last es)
dedup_after-All P last [] h = tt
dedup_after-All P last (e ∷ es) h = elim (Bool-cases (text_eq e.1 last)) [
  | inl q ↦ rw q (dedup_after-All P e.1 es h.1)
  | inr q ↦ rw q (h.0, dedup_after-All P e.1 es h.1)
]

dedup_by_path-All : (P : Scored → Type 0) (es : List Scored) → All P es → All P (dedup_by_path es)
dedup_by_path-All P [] h = tt
dedup_by_path-All P (e ∷ es) h = (h.0, dedup_after-All P e.1 es h.1)

-- A path is dropped only next to itself.
dedup_after-any :
    (p last : Text) (es : List Scored)
    → any (is_path p) es ≡ true
    → (text_eq last p || any (is_path p) (dedup_after last es)) ≡ true
dedup_after-any p last [] h = absurd (cc h)
dedup_after-any p last (e ∷ es) h = elim (Bool-cases (text_eq e.1 last)) [
  | inl q ↦ rw q (
      subst (λ x. (text_eq x p || any (is_path p) (dedup_after e.1 es)) ≡ true)
        ((text_eq_iff e.1 last).0 q) (here (Bool-cases (text_eq e.1 p)) (dedup_after-any p e.1 es)))
  | inr q ↦
      rw q
        (or_right (text_eq last p) _ (here (Bool-cases (text_eq e.1 p)) (dedup_after-any p e.1 es)))
]
  where
    here :
        (text_eq e.1 p ≡ true) ⊎ (text_eq e.1 p ≡ false)
        → (any (is_path p) es ≡ true
            → (text_eq e.1 p || any (is_path p) (dedup_after e.1 es)) ≡ true)
        → (text_eq e.1 p || any (is_path p) (dedup_after e.1 es)) ≡ true
    here (inl a) f = or_left (text_eq e.1 p) _ a
    here (inr a) f = f (rw a at h)

dedup_by_path-any :
    (p : Text) (es : List Scored)
    → any (is_path p) es ≡ true
    → any (is_path p) (dedup_by_path es) ≡ true
dedup_by_path-any p [] h = h
dedup_by_path-any p (e ∷ es) h = elim (Bool-cases (text_eq e.1 p)) [
  | inl a ↦ or_left (text_eq e.1 p) _ a
  | inr a ↦ dedup_after-any p e.1 es (rw a at h)
]

each_of : (P : Text → Type 0) (ps : List Text) → ((p : Text) → is_in ps p ≡ true → P p) → All P ps
each_of P [] f = tt
each_of P (p ∷ ps) f = (
  f p (or_left _ _ (text_eq_refl p)),
  each_of P ps (λ q k. f q (or_right (text_eq p q) (is_in ps q) k)),
)

-- At most `max` paths are chosen, none twice, each a changed path with a positive score, and if fewer
-- than `max` are chosen then every changed path with a positive score is.
pub select_paths_for_related-IsSelection :
    (changed_paths : List Text) (max : ℕ)
    → IsSelection max changed_paths (select_paths_for_related changed_paths max)
unfolding select_paths_for_related
select_paths_for_related-IsSelection changed_paths max = elim (Bool-cases (max == 0)) [
  | inl e ↦
      let zero_slots : max ≡ 0 = (==_iff max 0).0 e in
      rw e (record {
        few = omega arith;
        apart = tt;
        worth = tt;
        complete = λ room. absurd (omega (arith, zero_slots, room));
      })
  | inr e ↦ rw e (record {
    few = good.few;
    apart = good.apart;
    worth = good.worth;
    complete = λ room.
        each_of (λ p. 0 < path_signal_score p → is_in (second_pass max scored first) p ≡ true)
          changed_paths
          λ p k s. second_pass-all max changed_paths scored first p room (
            dedup_by_path-any p (sort_by goes_first (scored_of changed_paths)) (
              any-sort_by goes_first (is_path p) (scored_of changed_paths)
              ∙ scored_of-any max changed_paths changed_paths p s k));
  })
]
  where
    scored : List Scored
    scored = dedup_by_path (sort_by goes_first (scored_of changed_paths))

    first : List Text
    first = first_pass max scored [] []

    scored-IsWorth : All (λ e. IsWorth max changed_paths e.1) scored
    scored-IsWorth =
        dedup_by_path-All (λ e. IsWorth max changed_paths e.1)
          (sort_by goes_first (scored_of changed_paths))
          (sort_by-All goes_first (λ e. IsWorth max changed_paths e.1) (scored_of changed_paths)
            (scored_of-IsWorth max changed_paths changed_paths (λ p k. k)))

    good : IsGood max changed_paths (second_pass max scored first)
    good = second_pass-IsGood max changed_paths scored scored-IsWorth first (
        first_pass-IsGood max changed_paths scored scored-IsWorth [] []
          (record { few = omega arith; apart = tt; worth = tt }) tt)
