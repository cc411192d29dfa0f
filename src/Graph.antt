-- ===== src/Graph.antt =====
-- src/graph/mod.rs: the graph of symbols, and the search for what a change affects. The graph
-- library is an argument, with the laws that the code relies on.
pub mod Walks
pub mod Spread
pub mod Rounds
pub mod Affected
use codasaurus.Prelude.{
  ℕ, zero, suc, ◌+◌, ◌-◌, ◌<◌, Text, text_eq, List, [], ◌∷◌, ◌++◌, map, Option, none, some, Bool,
  false, ◌||◌, ltb, leb, ◌==◌, if◌then◌else◌, length, All, ◌≡◌,
}

pub data SymbolKind : Type 0 where
  function class import variable type : SymbolKind

pub record SymbolNode : Type 0 where
  pub name : Text
  pub file : Text
  pub kind : SymbolKind

pub data EdgeKind : Type 0 where
  calls imports : EdgeKind

-- A directed graph whose nodes are numbered in the order in which they are added.
pub record DiGraph : Type 1 where
  pub Graph : Type 0
  pub empty : Graph
  pub add_node : SymbolNode → Graph → ℕ × Graph
  pub add_edge : ℕ → ℕ → EdgeKind → Graph → Graph
  pub node_count : Graph → ℕ
  pub weight : Graph → ℕ → SymbolNode
  pub neighbors : Graph → ℕ → List ℕ
  pub incoming : Graph → ℕ → List ℕ
  pub index-add_node : (n : SymbolNode) (g : Graph) → (add_node n g).0 ≡ node_count g
  pub node_count-add_node :
      (n : SymbolNode) (g : Graph) → node_count (add_node n g).1 ≡ suc (node_count g)
  pub node_count-add_edge :
      (a b : ℕ) (k : EdgeKind) (g : Graph) → node_count (add_edge a b k g) ≡ node_count g
  pub neighbors-lt : (g : Graph) (u : ℕ) → All (λ v. v < node_count g) (neighbors g u)

-- A `HashMap` with texts as keys.
abbrev pub TextMap : Type 0 → Type 0
TextMap V = Text → Option V

abbrev pub insert_text : {V : Type 0} → Text → V → TextMap V → TextMap V
insert_text k v m j = if text_eq k j then some v else m j

-- `entry(k).or_default().push(v)`.
abbrev pub pushed : {V : Type 0} → Option (List V) → V → List V
pushed none v = v ∷ []
pushed (some vs) v = vs ++ v ∷ []

-- The state of a search. `HashSet` and `HashMap` over node indices are functions.
pub record Bfs : Type 0 where
  pub visited : ℕ → Bool
  pub depths : ℕ → Option ℕ
  pub queue : List ℕ
  pub affected : List ℕ

pub data Outcome : Type 0 where
  done : List ℕ → Outcome
  panicked out_of_fuel : Outcome

abbrev pub mark : ℕ → (ℕ → Bool) → ℕ → Bool
mark v seen w = w == v || seen w

abbrev pub set_depth : ℕ → ℕ → (ℕ → Option ℕ) → ℕ → Option ℕ
set_depth v d depths w = if w == v then some d else depths w

abbrev pub started : ℕ → Bfs
started start = record {
  visited = mark start (λ w. false);
  depths = set_depth start 0 (λ w. none);
  queue = start ∷ [];
  affected = [];
}

abbrev pub popped : ℕ → List ℕ → Bfs → Bfs
popped nx rest s = record s { queue = rest; affected = s.affected ++ nx ∷ [] }

-- The search knows the graph by the neighbors of its nodes.
module _ (neighbors : ℕ → List ℕ) (max_hops cap : ℕ) where
  unfoldable pub visit : ℕ → ℕ → Bfs → Bfs
  visit d v s = if s.visited v then s else record {
    visited = mark v s.visited;
    depths = set_depth v (d + 1) s.depths;
    queue = s.queue ++ v ∷ [];
    affected = s.affected;
  }

  unfoldable pub visit_all : ℕ → List ℕ → Bfs → Bfs
  visit_all d [] s = s
  visit_all d (v ∷ vs) s = visit_all d vs (visit d v s)

  unfoldable pub expand : ℕ → ℕ → Bfs → Bfs
  expand nx d s = if ltb d max_hops then visit_all d (neighbors nx) s else s

  -- `depths[&nx]` panics on a missing key.
  unfoldable pub search : ℕ → Bfs → Outcome
  search zero s = elim s.queue [ [] ↦ done s.affected | _ ∷ _ ↦ out_of_fuel ]
  search (suc fuel) s = elim s.queue [
    | [] ↦ done s.affected
    | nx ∷ rest ↦ elim (s.depths nx) [
      | none ↦ panicked
      | some d ↦
          let more = search fuel (expand nx d (popped nx rest s)) in
          if leb cap (length (popped nx rest s).affected)
          then done (popped nx rest s).affected
          else more
    ]
  ]

module _ (lib : DiGraph) where
  open lib use {Graph, empty, add_node, add_edge, node_count, weight, neighbors, incoming}

  pub record CodeGraph : Type 0 where
    pub graph : Graph
    pub node_indices : TextMap ℕ
    pub files : TextMap (List ℕ)
    pub file_to_nodes : TextMap (List Text)

  unfoldable pub new : CodeGraph
  new = record {
    graph = empty;
    node_indices = λ k. none;
    files = λ k. none;
    file_to_nodes = λ k. none;
  }

  unfoldable pub add_symbol : Text → Text → SymbolKind → CodeGraph → CodeGraph
  add_symbol name file kind g =
      let (idx, graph) = add_node (record { name = name; file = file; kind = kind }) g.graph in
      record {
        graph = graph;
        node_indices = insert_text name idx g.node_indices;
        files = insert_text file (pushed (g.files file) idx) g.files;
        file_to_nodes = insert_text file (pushed (g.file_to_nodes file) name) g.file_to_nodes;
      }

  abbrev pub joined : Option ℕ → Option ℕ → EdgeKind → CodeGraph → CodeGraph
  joined (some a) (some b) kind g = record g { graph = add_edge a b kind g.graph }
  joined (some a) none kind g = g
  joined none b kind g = g

  unfoldable pub add_edge_between : Text → Text → EdgeKind → CodeGraph → CodeGraph
  add_edge_between from to kind g = joined (g.node_indices from) (g.node_indices to) kind g

  unfoldable pub out_degree : Text → CodeGraph → ℕ
  out_degree symbol g = elim (g.node_indices symbol) [
    | none ↦ 0
    | some i ↦ length (neighbors g.graph i)
  ]

  unfoldable pub find_callers : Text → CodeGraph → List SymbolNode
  find_callers symbol g = elim (g.node_indices symbol) [
    | none ↦ []
    | some i ↦ map (weight g.graph) (incoming g.graph i)
  ]

  -- One round for each node is enough fuel.
  unfoldable pub blast_radius_capped : Text → ℕ → ℕ → CodeGraph → Outcome
  blast_radius_capped symbol max_hops cap g = elim (g.node_indices symbol) [
    | none ↦ done []
    | some start ↦ search (neighbors g.graph) max_hops cap (node_count g.graph) (started start)
  ]

  unfoldable pub blast_radius : ℕ → Text → ℕ → CodeGraph → Outcome
  unfolding blast_radius_capped
  blast_radius usize_max symbol max_hops g = blast_radius_capped symbol max_hops usize_max g

  unfoldable pub symbols_in_file : Text → CodeGraph → List Text
  symbols_in_file file g = elim (g.file_to_nodes file) [ none ↦ [] | some names ↦ names ]
