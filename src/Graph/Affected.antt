-- ===== src/Graph/Affected.antt =====
-- src/graph/mod.rs: what the whole search returns, and the graphs on which it does.
use codasaurus.Graph.{
  DiGraph, CodeGraph, SymbolNode, SymbolKind, EdgeKind, Bfs, done, started, expand, popped, search,
  new, add_symbol, add_edge_between, joined, blast_radius_capped,
}
use codasaurus.Graph.Walks.{Walk, here, unseen-mark, unseen-none}
use codasaurus.Graph.Spread.{Depth}
use codasaurus.Graph.Rounds.{
  Collected, Ready, Ready-expand, head_low, all_seen, Collected-affected, List-cases,
  Distinct-prefix,
}
use mathlib.Core.List.{append-nil}
use mathlib.Core.List.Memᴰ
use codasaurus.Prelude.{
  ℕ, zero, suc, ◌+◌, ◌≤◌, ◌<◌, Text, text_eq, List, [], ◌∷◌, ◌++◌, Memᴰ, Option, none, some,
  is_some, false, leb, ◌==◌, leb→le, ==_iff, Bool-cases, length, all, All, length-append, ◌≡◌, refl,
  sym, ap, ◌∙◌, subst, inl, inr, arith,
}

module _ (neighbors : ℕ → List ℕ) (max_hops cap start n : ℕ)
    (bounded : (u : ℕ) → All (λ v. v < n) (neighbors u)) where
  Ready-head :
      (d x : ℕ) (rest lows highs : List ℕ) (s : Bfs)
      → Ready neighbors max_hops cap start n d lows highs s
      → s.queue ≡ x ∷ rest
      → (d' : ℕ) × (lows' : List ℕ) × (highs' : List ℕ) × Ready neighbors max_hops cap start n d'
          (x ∷ lows')
          highs'
          s
  Ready-head d x rest lows highs s r e =
      let (d', lows', highs', inv) =
        head_low neighbors max_hops cap start n d x rest lows highs s r.inv e in
      (
        d',
        lows',
        highs',
        record { inv = inv; closed = r.closed; first = r.first; few = r.few; once = r.once },
      )

  -- An empty queue: all that is near has been collected.
  Ready-done :
      (d : ℕ) (lows highs : List ℕ) (s : Bfs)
      → Ready neighbors max_hops cap start n d lows highs s
      → s.queue ≡ []
      → Collected neighbors max_hops cap start n s.affected
  Ready-done d lows highs s r e =
      Collected-affected neighbors max_hops cap start n d lows highs s r.inv r.once r.few (inr all)
    where
      all : (k v : ℕ) → Walk neighbors start k v → k ≤ max_hops → Memᴰ v s.affected
      all k v w le =
          let (f, deep, _) =
            all_seen neighbors max_hops cap start n d lows highs s r.inv e r.closed r.first w le in
          subst (Memᴰ v) (ap (λ q. s.affected ++ q) e ∙ append-nil s.affected)
            (r.inv.placed v (r.inv.agree v ∙ ap is_some deep))

  -- With a round for each node that is not yet affected the search ends.
  search_lem :
      (fuel d : ℕ) (lows highs : List ℕ) (s : Bfs)
      → Ready neighbors max_hops cap start n d lows highs s
      → length s.affected < cap
      → n ≤ length s.affected + fuel
      → (xs : List ℕ) × (search neighbors max_hops cap fuel s ≡ done xs)
        × Collected neighbors max_hops cap start n xs
  unfolding search
  search_lem zero d lows highs s r room h = elim (List-cases s.queue) [
    | inl e ↦ (s.affected, rw e, Ready-done d lows highs s r e)
    | inr (x, rest, e) ↦ absurd (omega (arith, ap length e, r.inv.count))
  ]
  search_lem (suc fuel) d lows highs s r room h = elim (List-cases s.queue) [
    | inl e ↦ (s.affected, rw e, Ready-done d lows highs s r e)
    | inr (x, rest, e) ↦
        let (d', lows', highs', r') = Ready-head d x rest lows highs s r e in
        let (more, r'', same) =
          Ready-expand neighbors max_hops cap start n d' x rest lows' highs' s (bounded x) r' e
            room in
        let t = expand neighbors max_hops cap x d' (popped x rest s) in
        let longer = length-append s.affected (x ∷ []) in
        elim (Bool-cases (leb cap (length (s.affected ++ x ∷ [])))) [
          | inl full ↦
              let most : length t.affected ≡ cap =
                omega (arith, ap length same, longer, leb→le cap _ full) in
              let once = Distinct-prefix t.affected t.queue r''.inv.distinct in
              let all =
                Collected-affected neighbors max_hops cap start n d' lows' more t r''.inv once
                  r''.few (inl most) in
              (
                s.affected ++ x ∷ [],
                rw (e, r'.inv.low.0, full),
                subst (Collected neighbors max_hops cap start n) same all,
              )
          | inr open_ ↦
              let (xs, ends, all) =
                search_lem fuel d' lows' more t r'' (ground (arith, ap length same))
                  (omega (arith, ap length same, longer)) in
              (xs, rw (e, r'.inv.low.0, open_) ends, all)
        ]
  ]

  Ready-started :
      start < n → 0 < cap → Ready neighbors max_hops cap start n 0 (start ∷ []) [] (started start)
  Ready-started lt pos = record {
    inv = record {
      split = refl;
      low = (first, tt);
      high = tt;
      agree = λ v. elim (Bool-cases (v == start)) [ inl e ↦ rw e | inr e ↦ rw e ];
      below = λ v e k. (nothing v e k).1;
      sound = λ v e k. (nothing v e k).0;
      hops = λ v e k. (nothing v e k).2;
      distinct = (tt, tt);
      known = λ v m. let same : v ≡ start = Memᴰ.eq_of_singleton m in ground arith;
      placed = λ v k. Memᴰ.head (ground arith);
      in_range = λ v k. ground arith;
      count = omega (arith, unseen-mark n start (λ w. false) lt refl, unseen-none n);
    };
    closed = λ u m. elim m [ ];
    first = first;
    few = omega arith;
    once = tt;
  }
    where
      first : Depth (started start) start 0
      first = ground arith

      nothing :
          (v e : ℕ)
          → Depth (started start) v e
          → Walk neighbors start e v × (e ≤ 0 + 1) × (e ≤ max_hops)
      nothing v e k = elim (Bool-cases (v == start)) [
        | inl q ↦
            let same : v ≡ start = (==_iff v start).0 q in
            let k' : ◌≡◌ {A = Option ℕ} (some 0) (some e) = rw q at k in
            let none_yet : 0 ≡ e = cc k' in
            (
              subst (λ y. Walk neighbors start e y) (sym same)
                  (subst (λ z. Walk neighbors start z start) none_yet here),
              omega arith,
              omega arith,
            )
        | inr q ↦ let k' : ◌≡◌ {A = Option ℕ} none (some e) = rw q at k in absurd (cc)
      ]

-- A graph whose index of names holds only nodes of the graph.
abbrev pub IsIndexed : (lib : DiGraph) → CodeGraph lib → Type 0
IsIndexed lib g = (name : Text) (i : ℕ) → g.node_indices name ≡ some i → i < lib.node_count g.graph

module _ (lib : DiGraph) where
  pub new-IsIndexed : IsIndexed lib (new lib)
  unfolding new
  new-IsIndexed name i e = absurd (cc e)

  pub add_symbol-IsIndexed :
      (name file : Text) (kind : SymbolKind) (g : CodeGraph lib)
      → IsIndexed lib g
      → IsIndexed lib (add_symbol lib name file kind g)
  unfolding add_symbol
  add_symbol-IsIndexed name file kind g h other i e =
      let node : SymbolNode = record { name = name; file = file; kind = kind } in
      let counted = lib.node_count-add_node node g.graph in
      let at = lib.index-add_node node g.graph in
      elim (Bool-cases (text_eq name other)) [
        | inl q ↦
            let e' : some (lib.add_node node g.graph).0 ≡ some i = rw q at e in
            let idx : (lib.add_node node g.graph).0 ≡ i = cc in omega arith
        | inr q ↦ let old = h other i (rw q at e) in omega arith
      ]

  pub add_edge_between-IsIndexed :
      (from to : Text) (kind : EdgeKind) (g : CodeGraph lib)
      → IsIndexed lib g
      → IsIndexed lib (add_edge_between lib from to kind g)
  unfolding add_edge_between
  add_edge_between-IsIndexed from to kind g h =
      joined-IsIndexed (g.node_indices from) (g.node_indices to)
    where
      joined-IsIndexed : (a b : Option ℕ) → IsIndexed lib (joined lib a b kind g)
      joined-IsIndexed (some a) (some b) name i e =
          let counted = lib.node_count-add_edge a b kind g.graph in
          let old = h name i e in omega arith
      joined-IsIndexed (some a) none name i e = h name i e
      joined-IsIndexed none b name i e = h name i e

  -- On a graph whose names are indexed and with a positive cap the search for a known symbol returns.
  -- It collects only symbols that edges connect with the symbol in at most `max_hops` steps, each
  -- once and at most `cap`, and it collects all of them unless it stopped at the cap.
  pub blast_radius_capped-Collected :
      (symbol : Text) (start max_hops cap : ℕ) (g : CodeGraph lib)
      → IsIndexed lib g
      → g.node_indices symbol ≡ some start
      → 0 < cap
      → (xs : List ℕ) × (blast_radius_capped lib symbol max_hops cap g ≡ done xs)
        × Collected (lib.neighbors g.graph) max_hops cap start (lib.node_count g.graph) xs
  unfolding blast_radius_capped
  blast_radius_capped-Collected symbol start max_hops cap g indexed e pos =
      let n = lib.node_count g.graph in
      let (xs, ends, all) =
        search_lem (lib.neighbors g.graph) max_hops cap start n (lib.neighbors-lt g.graph) n 0
          (start ∷ []) [] (started start)
          (Ready-started (lib.neighbors g.graph) max_hops cap start n (lib.neighbors-lt g.graph)
            (indexed symbol start e) pos)
          pos (omega arith) in
      (xs, rw (e, blast_radius_capped) ends, all)
