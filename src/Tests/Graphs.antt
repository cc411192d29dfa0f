-- ===== src/Tests/Graphs.antt =====
-- The graph of symbols at a concrete graph.
use codasaurus.Graph.{
  SymbolNode, DiGraph, CodeGraph, SymbolKind, EdgeKind, done, new, add_symbol, add_edge_between,
  blast_radius_capped, search, expand, visit_all, visit,
}
use codasaurus.Graph.Affected.{
  IsIndexed, blast_radius_capped-Collected, new-IsIndexed, add_symbol-IsIndexed,
  add_edge_between-IsIndexed,
}
use codasaurus.Graph.Rounds.{Collected}
use codasaurus.Prelude.{
  ℕ, zero, suc, ◌<◌, Text, codes, List, [], ◌∷◌, ◌++◌, some, ltb, ◌==◌, if◌then◌else◌, ltb→lt,
  Bool-cases, length, retain, All, length-append, ◌≡◌, refl, inl, inr, arith,
}

-- The nodes, and the edges, the latest first.
abbrev Edges : Type 0
Edges = List SymbolNode × List (ℕ × ℕ)

abbrev out_of : ℕ → List (ℕ × ℕ) → List ℕ
out_of u [] = []
out_of u ((a, b) ∷ es) = let rest = out_of u es in if a == u then b ∷ rest else rest

abbrev into : ℕ → List (ℕ × ℕ) → List ℕ
into u [] = []
into u ((a, b) ∷ es) = let rest = into u es in if b == u then a ∷ rest else rest

retain_lt : (n : ℕ) (xs : List ℕ) → All (λ v. v < n) (retain (λ v. ltb v n) xs)
retain_lt n [] = tt
retain_lt n (x ∷ xs) = elim (Bool-cases (ltb x n)) [
  | inl e ↦ rw e (ltb→lt x n e, retain_lt n xs)
  | inr e ↦ rw e (retain_lt n xs)
]

abbrev blank_node : SymbolNode
blank_node = record { name = []; file = []; kind = SymbolKind.function }

abbrev node_at : List SymbolNode → ℕ → SymbolNode
node_at [] i = blank_node
node_at (x ∷ xs) zero = x
node_at (x ∷ xs) (suc i) = node_at xs i

node_count-snoc : (n : SymbolNode) (g : Edges) → length (g.0 ++ n ∷ []) ≡ suc (length g.0)
node_count-snoc n g = omega (arith, length-append g.0 (n ∷ []))

abbrev lists : DiGraph
lists = record {
  Graph = Edges;
  empty = ([], []);
  add_node = λ n g. (length g.0, (g.0 ++ n ∷ [], g.1));
  add_edge = λ a b k g. (g.0, (a, b) ∷ g.1);
  node_count = λ g. length g.0;
  weight = λ g. node_at g.0;
  neighbors = λ g u. retain (λ v. ltb v (length g.0)) (out_of u g.1);
  incoming = λ g u. into u g.1;
  index-add_node = λ n g. refl;
  node_count-add_node = node_count-snoc;
  node_count-add_edge = λ a b k g. refl;
  neighbors-lt = λ g u. retain_lt (length g.0) (out_of u g.1);
}

abbrev a : Text
a = codes "a"

abbrev b : Text
b = codes "b"

abbrev c : Text
c = codes "c"

abbrev d : Text
d = codes "d"

-- a → b → c → d, and c → a.
abbrev sample : CodeGraph lists
sample = add_edge_between lists c a EdgeKind.calls (
    add_edge_between lists c d EdgeKind.calls (
      add_edge_between lists b c EdgeKind.calls (
        add_edge_between lists a b EdgeKind.imports (
          add_symbol lists d d SymbolKind.function (
            add_symbol lists c c SymbolKind.function (
              add_symbol lists b b SymbolKind.class
                (add_symbol lists a a SymbolKind.class (new lists))))))))

two_hops : blast_radius_capped lists a 2 10 sample ≡ done (0 ∷ 1 ∷ 2 ∷ [])
unfolding blast_radius_capped search expand visit_all visit add_edge_between add_symbol new
two_hops = refl

sample-IsIndexed : IsIndexed lists sample
sample-IsIndexed = add_edge_between-IsIndexed lists c a EdgeKind.calls _ (
    add_edge_between-IsIndexed lists c d EdgeKind.calls _ (
      add_edge_between-IsIndexed lists b c EdgeKind.calls _ (
        add_edge_between-IsIndexed lists a b EdgeKind.imports _ (
          add_symbol-IsIndexed lists d d SymbolKind.function _ (
            add_symbol-IsIndexed lists c c SymbolKind.function _ (
              add_symbol-IsIndexed lists b b SymbolKind.class _
                (add_symbol-IsIndexed lists a a SymbolKind.class _ (new-IsIndexed lists))))))))

a_first : sample.node_indices a ≡ some 0
unfolding add_edge_between add_symbol new
a_first = refl

blast_radius_capped-Collected_example :
    (xs : List ℕ) × (blast_radius_capped lists a 2 10 sample ≡ done xs)
    × Collected (lists.neighbors sample.graph) 2 10 0 (lists.node_count sample.graph) xs
blast_radius_capped-Collected_example =
    blast_radius_capped-Collected lists a 0 2 10 sample sample-IsIndexed a_first (omega arith)
