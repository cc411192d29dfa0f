-- ===== src/Graph/Rounds.antt =====
-- src/graph/mod.rs: the search, round by round.
use codasaurus.Graph.{Bfs, visit_all, expand, popped}
use codasaurus.Graph.Walks.{Walk, step, here}
use codasaurus.Graph.Spread.{Inv, Depth, Grows, Inv-visit_all}
use mathlib.Core.Logic.{⊎_elim}
use mathlib.Core.List.{append_assoc, append-nil}
use mathlib.Core.List.Memᴰ
use codasaurus.Prelude.{
  ℕ, ◌+◌, ◌≤◌, ◌<◌, List, [], ◌∷◌, ◌++◌, Memᴰ, is_some, true, ltb, ltb→lt, lt→ltb, Bool-cases,
  Option-cases, length, all, All, length-append, All_mono, Distinct, All-mem, ◌≡◌, refl, sym, ap,
  ◌∙◌, subst, ◌≢◌, ◌⊎◌, inl, inr, arith,
}

pub List-cases : (xs : List ℕ) → (xs ≡ []) ⊎ ((x : ℕ) × (rest : List ℕ) × (xs ≡ x ∷ rest))
List-cases [] = inl refl
List-cases (x ∷ xs) = inr (x, xs, refl)

All-prefix {ℓ κ} : {A : Type ℓ} (P : A → Type κ) (xs ys : List A) → All P (xs ++ ys) → All P xs
All-prefix P [] ys h = tt
All-prefix P (x ∷ xs) ys h = (h.0, All-prefix P xs ys h.1)

pub Distinct-prefix : (xs ys : List ℕ) → Distinct (xs ++ ys) → Distinct xs
Distinct-prefix [] ys h = tt
Distinct-prefix (x ∷ xs) ys h = (All-prefix (λ y. x ≢ y) xs ys h.0, Distinct-prefix xs ys h.1)

module _ (neighbors : ℕ → List ℕ) (max_hops cap start n : ℕ) where
  -- What a finished search has collected: nodes within the hops, each once, at most `cap`; and all
  -- of them, unless it stopped at the cap.
  pub record Collected (xs : List ℕ) : Type 0 where
    pub distinct : Distinct xs
    pub near : (v : ℕ) → Memᴰ v xs → (k : ℕ) × Walk neighbors start k v × (k ≤ max_hops)
    pub capped : length xs ≤ cap
    pub complete :
        (length xs ≡ cap) ⊎ ((k v : ℕ) → Walk neighbors start k v → k ≤ max_hops → Memᴰ v xs)

  abbrev pub Closed : Bfs → ℕ → Type 0
  Closed s u =
      (e : ℕ)
      → Depth s u e
      → e < max_hops
      → All (λ v. (f : ℕ) × Depth s v f × (f ≤ e + 1)) (neighbors u)

  abbrev pub I : ℕ → List ℕ → List ℕ → Bfs → Type 0
  I = Inv neighbors max_hops cap start n

  -- The head of the queue stands at the current depth.
  pub head_low :
      (d x : ℕ) (rest lows highs : List ℕ) (s : Bfs)
      → I d lows highs s
      → s.queue ≡ x ∷ rest
      → (d' : ℕ) × (lows' : List ℕ) × (highs' : List ℕ) × I d' (x ∷ lows') highs' s
  head_low d x rest (y ∷ lows) highs s h e =
      let same : y ≡ x = cc h.split in (d, lows, highs, subst (λ z. I d (z ∷ lows) highs s) same h)
  head_low d x rest [] [] s h e = absurd (cc h.split)
  head_low d x rest [] (y ∷ highs) s h e =
      let same : y ≡ x = cc h.split in
      let deeper : I (d + 1) (y ∷ highs) [] s = record {
        split = h.split ∙ sym (append-nil (y ∷ highs));
        low = h.high;
        high = tt;
        agree = h.agree;
        below = λ w k q. omega (arith, h.below w k q);
        sound = h.sound;
        hops = h.hops;
        distinct = h.distinct;
        known = h.known;
        placed = h.placed;
        in_range = h.in_range;
        count = h.count;
      } in
      (d + 1, highs, [], subst (λ z. I (d + 1) (z ∷ highs) [] s) same deeper)

  I-popped :
      (d x : ℕ) (rest lows highs : List ℕ) (s : Bfs)
      → I d (x ∷ lows) highs s
      → s.queue ≡ x ∷ rest
      → I d lows highs (popped x rest s)
  I-popped d x rest lows highs s h e =
      let moved : (s.affected ++ x ∷ []) ++ rest ≡ s.affected ++ s.queue =
        append_assoc s.affected (x ∷ []) rest ∙ ap (λ q. s.affected ++ q) (sym e) in
      record {
        split = cc (h.split, e);
        low = h.low.1;
        high = h.high;
        agree = h.agree;
        below = h.below;
        sound = h.sound;
        hops = h.hops;
        distinct = subst Distinct (sym moved) h.distinct;
        known = λ v m. h.known v (subst (Memᴰ v) moved m);
        placed = λ v k. subst (Memᴰ v) (sym moved) (h.placed v k);
        in_range = h.in_range;
        count = omega (arith, h.count, ap length e, length-append s.affected (x ∷ []));
      }

  -- Every node within the hops has been seen, once the queue is empty.
  pub all_seen :
      (d : ℕ) (lows highs : List ℕ) (s : Bfs)
      → I d lows highs s
      → s.queue ≡ []
      → ((u : ℕ) → Memᴰ u s.affected → Closed s u)
      → Depth s start 0
      → {k v : ℕ} → Walk neighbors start k v
      → k ≤ max_hops
      → (e : ℕ) × Depth s v e × (e ≤ k)
  all_seen d lows highs s h empty closed first here le = (0, first, omega arith)
  all_seen d lows highs s h empty closed first (step {k} {u} {v} w edge) le =
      let (e, deep, short) = all_seen d lows highs s h empty closed first w (omega arith) in
      let seen : s.visited u ≡ true = h.agree u ∙ ap is_some deep in
      let listed : Memᴰ u s.affected =
        subst (Memᴰ u) (ap (λ q. s.affected ++ q) empty ∙ append-nil s.affected)
          (h.placed u seen) in
      let (f, deep', short') =
        All-mem (λ y. (f : ℕ) × Depth s y f × (f ≤ e + 1)) (neighbors u)
          (closed u listed e deep (omega arith)) edge in
      (f, deep', omega arith)

  -- The list of the affected nodes at any time.
  pub Collected-affected :
      (d : ℕ) (lows highs : List ℕ) (s : Bfs)
      → I d lows highs s
      → Distinct s.affected
      → length s.affected ≤ cap
      → (length s.affected ≡ cap)
        ⊎ ((k v : ℕ) → Walk neighbors start k v → k ≤ max_hops → Memᴰ v s.affected)
      → Collected s.affected
  Collected-affected d lows highs s h once few all = record {
    distinct = once;
    near = λ v m. close v (h.known v (Memᴰ.append_left _ m));
    capped = few;
    complete = all;
  }
    where
      close : (v : ℕ) → s.visited v ≡ true → (k : ℕ) × Walk neighbors start k v × (k ≤ max_hops)
      close v seen = elim (Option-cases (s.depths v)) [
        | inl q ↦ absurd (cc (sym seen ∙ h.agree v ∙ ap is_some q))
        | inr (k, q) ↦ (k, h.sound v k q, h.hops v k q)
      ]

  -- A round: the affected nodes stay closed.
  Closed-after :
      (d x : ℕ) (s t : Bfs)
      → Grows s t
      → ((v : ℕ) → s.visited v ≡ is_some (s.depths v))
      → ((v : ℕ) → Memᴰ v (s.affected ++ x ∷ []) → s.visited v ≡ true)
      → ((u : ℕ) → Memᴰ u s.affected → Closed s u)
      → Depth s x d
      → (d < max_hops → All (λ v. (f : ℕ) × Depth t v f × (f ≤ d + 1)) (neighbors x))
      → (u : ℕ) → Memᴰ u (s.affected ++ x ∷ [])
      → Closed t u
  Closed-after d x s t grows agree known closed deep now u m e k lt =
      elim (Option-cases (s.depths u)) [
        | inl q ↦ absurd (cc (sym (known u m) ∙ agree u ∙ ap is_some q))
        | inr (e', q) ↦
            let same : e' ≡ e = cc (sym (grows u e' q) ∙ k) in
            let q' : Depth s u e = rw (← same) q in
            ⊎_elim
              (λ old.
                All_mono (λ v (f, p, le). (f, grows v f p, le)) (neighbors u)
                  (closed u old e q' lt))
              (λ new. fresh (Memᴰ.eq_of_singleton new) q') (Memᴰ.append_cases s.affected m)
      ]
    where
      fresh : u ≡ x → Depth s u e → All (λ v. (f : ℕ) × Depth t v f × (f ≤ e + 1)) (neighbors u)
      fresh same q =
          let this : Depth s x e = rw (← same) q in
          let level : d ≡ e = cc (sym deep ∙ this) in
          subst (λ y. All (λ v. (f : ℕ) × Depth t v f × (f ≤ e + 1)) (neighbors y)) (sym same)
            (subst (λ z. All (λ v. (f : ℕ) × Depth t v f × (f ≤ z + 1)) (neighbors x)) level
              (now (rw level lt)))

  pub record Ready (d : ℕ) (lows highs : List ℕ) (s : Bfs) : Type 0 where
    pub inv : I d lows highs s
    pub closed : (u : ℕ) → Memᴰ u s.affected → Closed s u
    pub first : Depth s start 0
    pub few : length s.affected ≤ cap
    pub once : Distinct s.affected

  pub Ready-expand :
      (d x : ℕ) (rest lows highs : List ℕ) (s : Bfs)
      → All (λ v. v < n) (neighbors x)
      → Ready d (x ∷ lows) highs s
      → s.queue ≡ x ∷ rest
      → length s.affected < cap
      → (more : List ℕ) × Ready d lows more (expand neighbors max_hops cap x d (popped x rest s))
        × ((expand neighbors max_hops cap x d (popped x rest s)).affected ≡ s.affected ++ x ∷ [])
  unfolding expand
  Ready-expand d x rest lows highs s bounded r e room = elim (Bool-cases (ltb d max_hops)) [
    | inl q ↦
        let (more, inv, grows, all, same) =
          Inv-visit_all neighbors max_hops cap start n d x (neighbors x) lows highs
            (popped x rest s) inv' bounded (λ v m. m) (ltb→lt d max_hops q)
            (r.inv.sound x d r.inv.low.0) in
        rw q (
          more,
          record {
            inv = inv;
            closed = λ u m.
                Closed-after d x s
                  (visit_all neighbors max_hops cap d (neighbors x) (popped x rest s)) grows
                  r.inv.agree known r.closed r.inv.low.0 (λ _. all) u (subst (Memᴰ u) same m);
            first = grows start 0 r.first;
            few = omega (arith, ap length same, length-append s.affected (x ∷ []));
            once = subst Distinct (sym same) once';
          },
          same,
        )
    | inr q ↦ rw q (
      highs,
      record {
        inv = inv';
        closed = λ u m.
            Closed-after d x s (popped x rest s) (λ w k. λ p. p) r.inv.agree known r.closed
              r.inv.low.0 (λ lt. absurd (cc (sym q ∙ lt→ltb d max_hops lt))) u m;
        first = r.first;
        few = omega (arith, length-append s.affected (x ∷ []));
        once = once';
      },
      refl,
    )
  ]
    where
      inv' : I d lows highs (popped x rest s)
      inv' = I-popped d x rest lows highs s r.inv e

      known : (v : ℕ) → Memᴰ v (s.affected ++ x ∷ []) → s.visited v ≡ true
      known v m = inv'.known v (Memᴰ.append_left _ m)

      once' : Distinct (s.affected ++ x ∷ [])
      once' = Distinct-prefix (s.affected ++ x ∷ []) rest inv'.distinct
