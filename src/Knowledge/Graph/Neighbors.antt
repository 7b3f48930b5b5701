-- ===== src/Knowledge/Graph/Neighbors.antt =====
-- The neighbours of src/aurelix_core/knowledge_graph.py: their symmetry, and that an edge always leads
-- to a node.
use aurelix.Base.{
  Bool, true, not, ◌||◌, ◌&&◌, ◌≡◌, refl, sym, subst, ◌∙◌, inl, inr, arith, List, [], ◌∷◌, ◌++◌,
  String, ok, Dict, lookup, insert, values, contains, is_blank, any_of, ◌==◌, string_eq, eq_iff,
  lookup-insert, AllValues, AllValues-insert, Bool-cases, Option-cases, str_beq_refl,
}
use aurelix.Knowledge.Graph.{
  NodeType, Relation, KnowledgeNode, KnowledgeEdge, KnowledgeGraph, new, add_node, knows, link,
  as_set, targets, sources, neighbor_ids, gather, neighbors,
}

pub data GraphCall : Type 0 where
  add_node_call : String → NodeType → String → Dict String → GraphCall
  link_call : String → String → Relation → String → GraphCall

unfoldable pub step : GraphCall → KnowledgeGraph → KnowledgeGraph
unfolding add_node link
step (add_node_call i t l p) g = (add_node i t l p g).1
step (link_call i s r t) g = (link i s r t g).1

unfoldable pub steps : List GraphCall → KnowledgeGraph → KnowledgeGraph
unfolding step
steps [] g = g
steps (call ∷ calls) g = steps calls (step call g)

-- Both ends of an edge are nodes of the graph.
abbrev Anchored : KnowledgeGraph → KnowledgeEdge → Type 0
Anchored g e = (knows g e.source_id ≡ true) × (knows g e.target_id ≡ true)

abbrev pub IsLinked : KnowledgeGraph → Type 0
IsLinked g = AllValues (Anchored g) g.edges

knows-insert :
    (i j : String) (n : KnowledgeNode) (g : KnowledgeGraph)
    → knows g j ≡ true
    → knows (record g { nodes = insert i n g.nodes }) j ≡ true
knows-insert i j n g h = ground (arith, lookup-insert i j n g.nodes)

Anchored-insert :
    (i : String) (n : KnowledgeNode) (g : KnowledgeGraph) (es : Dict KnowledgeEdge)
    → AllValues (Anchored g) es
    → AllValues (Anchored (record g { nodes = insert i n g.nodes })) es
Anchored-insert i n g [] h = tt
Anchored-insert i n g ((k, e) ∷ es) h = (
  (knows-insert i e.source_id n g h.0.0, knows-insert i e.target_id n g h.0.1),
  Anchored-insert i n g es h.1,
)

step-IsLinked : (call : GraphCall) (g : KnowledgeGraph) → IsLinked g → IsLinked (step call g)
unfolding step add_node link
step-IsLinked (add_node_call i t l p) g h =
    let node : KnowledgeNode = record { node_id = i; node_type = t; label = l; payload = p } in
    elim (Bool-cases (is_blank l)) [
      | inl blank ↦
          let same : g ≡ step (add_node_call i t l p) g = ground (arith, blank) in
          subst IsLinked same h
      | inr named ↦
          let grown : KnowledgeGraph = record g { nodes = insert i node g.nodes } in
          let same : grown ≡ step (add_node_call i t l p) g = ground (arith, named) in
          subst IsLinked same (Anchored-insert i node g g.edges h)
    ]
step-IsLinked (link_call i s r t) g h = elim (Bool-cases (not (knows g s) || not (knows g t))) [
  | inl refused ↦
      let same : g ≡ step (link_call i s r t) g = ground (arith, refused) in subst IsLinked same h
  | inr fits ↦
      let edge : KnowledgeEdge = record {
        edge_id = i;
        source_id = s;
        relation = r;
        target_id = t;
      } in
      let grown : KnowledgeGraph = record g { edges = insert i edge g.edges } in
      let same : grown ≡ step (link_call i s r t) g = ground (arith, fits) in
      subst IsLinked same (
        AllValues-insert (Anchored g) i edge g.edges (ground (arith, fits), ground (arith, fits)) h)
]

steps-IsLinked :
    (calls : List GraphCall) (g : KnowledgeGraph) → IsLinked g → IsLinked (steps calls g)
unfolding steps
steps-IsLinked [] g h = h
steps-IsLinked (call ∷ calls) g h = steps-IsLinked calls (step call g) (step-IsLinked call g h)

-- Every id of the list is a node.
abbrev Held : KnowledgeGraph → List String → Type 0
Held g is = (i : String) → contains i is ≡ true → knows g i ≡ true

gather_returns :
    (g : KnowledgeGraph) (is : List String)
    → Held g is
    → (nodes : List KnowledgeNode) × (gather g is ≡ ok nodes)
gather_returns g [] h = ([], refl)
gather_returns g (i ∷ is) h =
    let (nodes, rest) = gather_returns g is (λ j there. h j (ground arith)) in
    elim (Option-cases (lookup i g.nodes)) [
      | inl missing ↦ let here = h i (ground (arith, str_beq_refl i)) in ground arith
      | inr (node, found) ↦ (node ∷ nodes, ground (arith, found, rest))
    ]

contains-as_set : (a : String) (xs : List String) → contains a (as_set xs) ≡ contains a xs
contains-as_set a [] = refl
contains-as_set a (x ∷ xs) = elim (Bool-cases (contains x (as_set xs))) [
  | inl there ↦ elim (Bool-cases (a == x)) [
    | inl same ↦
        let q : a ≡ x = (eq_iff a x).0 same in
        let held : contains a (as_set xs) ≡ true =
          subst (λ y. contains y (as_set xs) ≡ true) (sym q) there in
        ground (arith, there, same, held)
    | inr other ↦ ground (arith, there, other, contains-as_set a xs)
  ]
  | inr absent ↦ ground (arith, absent, contains-as_set a xs)
]

contains-append :
    (a : String) (xs ys : List String) → contains a (xs ++ ys) ≡ (contains a xs || contains a ys)
contains-append a [] ys = refl
contains-append a (x ∷ xs) ys = ground (arith, contains-append a xs ys)

-- An edge joins two nodes, in one direction or the other.
abbrev joins : String → String → KnowledgeEdge → Bool
joins a b e = (e.source_id == a && e.target_id == b) || (e.target_id == a && e.source_id == b)

contains-targets :
    (a b : String) (es : List KnowledgeEdge)
    → contains b (targets a es) ≡ any_of (λ e. e.source_id == a && e.target_id == b) es
contains-targets a b [] = refl
contains-targets a b (e ∷ es) =
    ground (arith, contains-targets a b es, eq_iff b e.target_id, eq_iff e.target_id b)

contains-sources :
    (a b : String) (es : List KnowledgeEdge)
    → contains b (sources a es) ≡ any_of (λ e. e.target_id == a && e.source_id == b) es
contains-sources a b [] = refl
contains-sources a b (e ∷ es) =
    ground (arith, contains-sources a b es, eq_iff b e.source_id, eq_iff e.source_id b)

any_of-or :
    (p q : KnowledgeEdge → Bool) (es : List KnowledgeEdge)
    → (any_of p es || any_of q es) ≡ any_of (λ e. p e || q e) es
any_of-or p q [] = refl
any_of-or p q (e ∷ es) = ground (arith, any_of-or p q es)

-- The ids of a node's neighbours are the ids that an edge joins it with.
contains-neighbor_ids :
    (a b : String) (g : KnowledgeGraph)
    → contains b (neighbor_ids a g) ≡ any_of (joins a b) (values g.edges)
contains-neighbor_ids a b g =
    contains-as_set b (targets a (values g.edges) ++ sources a (values g.edges))
    ∙ contains-append b (targets a (values g.edges)) (sources a (values g.edges))
    ∙ ground (
      arith,
      contains-targets a b (values g.edges),
      contains-sources a b (values g.edges),
      any_of-or (λ e. e.source_id == a && e.target_id == b)
          (λ e. e.target_id == a && e.source_id == b) (values g.edges),
    )

any_of-joins :
    (a b : String) (es : List KnowledgeEdge) → any_of (joins a b) es ≡ any_of (joins b a) es
any_of-joins a b [] = refl
any_of-joins a b (e ∷ es) = ground (arith, any_of-joins a b es)

-- The neighbour relation is symmetric.
pub neighbor_ids_symmetric :
    (a b : String) (g : KnowledgeGraph)
    → contains b (neighbor_ids a g) ≡ contains a (neighbor_ids b g)
neighbor_ids_symmetric a b g =
    contains-neighbor_ids a b g
    ∙ any_of-joins a b (values g.edges)
    ∙ sym (contains-neighbor_ids b a g)

-- An end that an edge joins a node with is a node.
joined-known :
    (g : KnowledgeGraph) (a b : String) (es : Dict KnowledgeEdge)
    → AllValues (Anchored g) es
    → any_of (joins a b) (values es) ≡ true
    → knows g b ≡ true
joined-known g a b [] h j = ground arith
joined-known g a b ((k, e) ∷ es) h j = elim (Bool-cases (any_of (joins a b) (values es))) [
  | inl later ↦ joined-known g a b es h.1 later
  | inr not_later ↦ elim (Bool-cases (e.target_id == b)) [
    | inl target ↦ subst (λ i. knows g i ≡ true) ((eq_iff e.target_id b).0 target) h.0.1
    | inr other ↦
        let source : e.source_id ≡ b = ground (arith, eq_iff e.source_id b) in
        subst (λ i. knows g i ≡ true) source h.0.0
  ]
]

-- In a graph built from an empty one by any calls, asking for the neighbours of a known node returns
-- nodes: no edge leads to a missing one.
pub neighbors_returns :
    (calls : List GraphCall) (n : String)
    → knows (steps calls new) n ≡ true
    → (nodes : List KnowledgeNode) × (neighbors n (steps calls new) ≡ ok nodes)
unfolding neighbors
neighbors_returns calls n known =
    let g : KnowledgeGraph = steps calls new in
    let linked = steps-IsLinked calls new tt in
    let (nodes, gathered) =
      gather_returns g (neighbor_ids n g) (λ i there.
        joined-known g n i g.edges linked (sym (contains-neighbor_ids n i g) ∙ there)) in
    (nodes, ground (arith, known, gathered))
