-- ===== src/Graph/Spread.antt =====
-- src/graph/mod.rs: what holds of a search while it looks at the neighbors of a node.
use codasaurus.Graph.{Bfs, mark, set_depth, visit, visit_all}
use codasaurus.Graph.Walks.{Walk, step, unseen, unseen-mark}
use mathlib.Core.Logic.{⊎_elim}
use mathlib.Core.List.{append_assoc}
use mathlib.Core.List.Memᴰ
use codasaurus.Prelude.{
  ℕ, suc, ◌+◌, ◌≤◌, ◌<◌, List, [], ◌∷◌, ◌++◌, Memᴰ, none, some, is_some, true, false, ◌==◌, ==_iff,
  Bool-cases, Option-cases, length, All, length-append, All-append, All_mono, Distinct,
  Distinct-snoc, ◌≡◌, refl, sym, ap, ◌∙◌, subst, ◌≢◌, ◌⊎◌, inl, inr, arith,
}

abbrev pub Depth : Bfs → ℕ → ℕ → Type 0
Depth s v e = s.depths v ≡ some e

-- No depth is forgotten or changed.
abbrev pub Grows : Bfs → Bfs → Type 0
Grows s t = (w e : ℕ) → Depth s w e → Depth t w e

module _ (neighbors : ℕ → List ℕ) (max_hops cap start n : ℕ) where
  -- The queue holds nodes of depth `d`, then nodes one deeper; all that was seen is on the list of
  -- the affected nodes or in the queue, once, and at a depth at which a walk reaches it.
  pub record Inv (d : ℕ) (lows highs : List ℕ) (s : Bfs) : Type 0 where
    pub split : s.queue ≡ lows ++ highs
    pub low : All (λ v. Depth s v d) lows
    pub high : All (λ v. Depth s v (d + 1)) highs
    pub agree : (v : ℕ) → s.visited v ≡ is_some (s.depths v)
    pub below : (v e : ℕ) → Depth s v e → e ≤ d + 1
    pub sound : (v e : ℕ) → Depth s v e → Walk neighbors start e v
    pub hops : (v e : ℕ) → Depth s v e → e ≤ max_hops
    pub distinct : Distinct (s.affected ++ s.queue)
    pub known : (v : ℕ) → Memᴰ v (s.affected ++ s.queue) → s.visited v ≡ true
    pub placed : (v : ℕ) → s.visited v ≡ true → Memᴰ v (s.affected ++ s.queue)
    pub in_range : (v : ℕ) → s.visited v ≡ true → v < n
    pub count : unseen n s.visited + length s.affected + length s.queue ≡ n

  -- A node that is seen for the first time.
  module _ (d v u : ℕ) (lows highs : List ℕ) (s : Bfs) (h : Inv d lows highs s)
      (unknown : s.visited v ≡ false) (lt : v < n) (deep : d < max_hops)
      (reached : Walk neighbors start d u) (edge : Memᴰ v (neighbors u)) where
    open h use {
      split, low, high, agree, below, sound, hops, distinct, known, placed, in_range, count,
    }

    abbrev found : Bfs
    found = record {
      visited = mark v s.visited;
      depths = set_depth v (d + 1) s.depths;
      queue = s.queue ++ v ∷ [];
      affected = s.affected;
    }

    visit-found : visit neighbors max_hops cap d v s ≡ found
    unfolding visit
    visit-found = rw unknown

    no_depth : s.depths v ≡ none
    no_depth = elim (Option-cases (s.depths v)) [
      | inl e ↦ e
      | inr (a, e) ↦ let seen : s.visited v ≡ true = agree v ∙ ap is_some e in absurd (cc)
    ]

    found-Grows : Grows s found
    found-Grows w e k = elim (Bool-cases (w == v)) [
      | inl q ↦ absurd (clash ((==_iff w v).0 q) k)
      | inr q ↦ rw q k
    ]
      where
        clash : w ≡ v → Depth s w e → ⊥
        clash q k = let this : s.depths v ≡ some e = rw (← q) k in cc no_depth

    found_depth : Depth found v (d + 1)
    found_depth = ground arith

    -- A depth in the new state is an old one, or that of the node.
    depth_cases : (w e : ℕ) → Depth found w e → Depth s w e ⊎ ((w ≡ v) × (e ≡ d + 1))
    depth_cases w e k = elim (Bool-cases (w == v)) [
      | inl q ↦ let k' : some (d + 1) ≡ some e = rw q at k in inr ((==_iff w v).0 q, cc)
      | inr q ↦ inl (rw q at k)
    ]

    apart : (xs : List ℕ) → ((w : ℕ) → Memᴰ w xs → s.visited w ≡ true) → All (λ x. x ≢ v) xs
    apart [] k = tt
    apart (x ∷ xs) k = (
      λ e. let seen : s.visited v ≡ true = rw (← e) (k x (Memᴰ.head refl)) in cc unknown,
      apart xs (λ w m. k w (Memᴰ.tail m)),
    )

    seen_cases : (w : ℕ) → found.visited w ≡ true → (w ≡ v) ⊎ (s.visited w ≡ true)
    seen_cases w k = ground arith

    agree_found : (w : ℕ) → found.visited w ≡ is_some (found.depths w)
    agree_found w = elim (Bool-cases (w == v)) [ inl q ↦ rw q | inr q ↦ rw q (agree w) ]

    all_deep : (e : ℕ) (xs : List ℕ) → All (λ w. Depth s w e) xs → All (λ w. Depth found w e) xs
    all_deep e xs k = All_mono (λ w. found-Grows w e) xs k

    known_found : (w : ℕ) → Memᴰ w (found.affected ++ found.queue) → found.visited w ≡ true
    known_found w m =
        let m' : Memᴰ w ((s.affected ++ s.queue) ++ v ∷ []) =
          subst (Memᴰ w) (sym (append_assoc s.affected s.queue (v ∷ []))) m in
        ⊎_elim (λ k. let old = known w k in ground arith)
          (λ k. let same : w ≡ v = Memᴰ.eq_of_singleton k in ground arith)
          (Memᴰ.append_cases (s.affected ++ s.queue) m')

    placed_found : (w : ℕ) → found.visited w ≡ true → Memᴰ w (found.affected ++ found.queue)
    placed_found w k = subst (Memᴰ w) (append_assoc s.affected s.queue (v ∷ [])) (
        ⊎_elim (λ e. Memᴰ.append_right (s.affected ++ s.queue) (Memᴰ.head e))
          (λ o. Memᴰ.append_left _ (placed w o)) (seen_cases w k))

    Inv-found : Inv d lows (highs ++ v ∷ []) found
    Inv-found = record {
      split = ap (λ q. q ++ v ∷ []) split ∙ append_assoc lows highs (v ∷ []);
      low = all_deep d lows low;
      high =
          All-append (λ w. Depth found w (d + 1)) highs (v ∷ []) (all_deep (d + 1) highs high)
            (found_depth, tt);
      agree = agree_found;
      below = λ w e k. ⊎_elim (below w e) (λ p. omega (arith, p.1)) (depth_cases w e k);
      sound = λ w e k. ⊎_elim (sound w e) (λ p. walk w e p) (depth_cases w e k);
      hops = λ w e k. ⊎_elim (hops w e) (λ p. omega (arith, p.1)) (depth_cases w e k);
      distinct =
          subst Distinct (append_assoc s.affected s.queue (v ∷ [])) (
            Distinct-snoc (s.affected ++ s.queue) v distinct (apart (s.affected ++ s.queue) known));
      known = known_found;
      placed = placed_found;
      in_range = λ w k. ⊎_elim (λ e. rw e lt) (in_range w) (seen_cases w k);
      count =
          omega
            (arith, count, length-append s.queue (v ∷ []), unseen-mark n v s.visited lt unknown);
    }
      where
        walk : (w e : ℕ) → (w ≡ v) × (e ≡ d + 1) → Walk neighbors start e w
        walk w e (p, q) = let longer : e ≡ suc d = omega arith in rw (p, longer) (step reached edge)

  -- Looking at one neighbor.
  pub Inv-visit :
      (d v u : ℕ) (lows highs : List ℕ) (s : Bfs)
      → Inv d lows highs s
      → v < n
      → d < max_hops
      → Walk neighbors start d u
      → Memᴰ v (neighbors u)
      → (more : List ℕ) × Inv d lows more (visit neighbors max_hops cap d v s)
        × Grows s (visit neighbors max_hops cap d v s)
        × ((e : ℕ) × Depth (visit neighbors max_hops cap d v s) v e × (e ≤ d + 1))
        × ((visit neighbors max_hops cap d v s).affected ≡ s.affected)
  unfolding visit
  Inv-visit d v u lows highs s h lt deep reached edge = elim (Bool-cases (s.visited v)) [
    | inl e ↦ rw e (highs, h, λ w k. λ p. p, old e, refl)
    | inr e ↦ rw e (
      highs ++ v ∷ [],
      Inv-found d v u lows highs s h e lt deep reached edge,
      found-Grows d v u lows highs s h e lt deep reached edge,
      (d + 1, found_depth d v u lows highs s h e lt deep reached edge, omega arith),
      refl,
    )
  ]
    where
      old : s.visited v ≡ true → (e : ℕ) × Depth s v e × (e ≤ d + 1)
      old e = elim (Option-cases (s.depths v)) [
        | inl q ↦ absurd (cc (sym e ∙ h.agree v ∙ ap is_some q))
        | inr (k, q) ↦ (k, q, h.below v k q)
      ]

  -- Looking at all of them: each has a depth at most one larger.
  pub Inv-visit_all :
      (d u : ℕ) (vs lows highs : List ℕ) (s : Bfs)
      → Inv d lows highs s
      → All (λ v. v < n) vs
      → ((v : ℕ) → Memᴰ v vs → Memᴰ v (neighbors u))
      → d < max_hops
      → Walk neighbors start d u
      → (more : List ℕ) × Inv d lows more (visit_all neighbors max_hops cap d vs s)
        × Grows s (visit_all neighbors max_hops cap d vs s)
        × All (λ v. (e : ℕ) × Depth (visit_all neighbors max_hops cap d vs s) v e × (e ≤ d + 1)) vs
        × ((visit_all neighbors max_hops cap d vs s).affected ≡ s.affected)
  unfolding visit_all
  Inv-visit_all d u [] lows highs s h lt edges deep reached = (highs, h, λ w e k. k, tt, refl)
  Inv-visit_all d u (v ∷ vs) lows highs s h lt edges deep reached =
      let (more, inv, grows, (e, k, le), same) =
        Inv-visit d v u lows highs s h lt.0 deep reached (edges v (Memᴰ.head refl)) in
      let (more', inv', grows', all', same') =
        Inv-visit_all d u vs lows more (visit neighbors max_hops cap d v s) inv lt.1
          (λ w m. edges w (Memᴰ.tail m)) deep reached in
      (more', inv', λ w f p. grows' w f (grows w f p), ((e, grows' v e k, le), all'), same' ∙ same)
