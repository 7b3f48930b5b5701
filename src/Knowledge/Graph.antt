-- ===== src/Knowledge/Graph.antt =====
-- src/aurelix_core/knowledge_graph.py. The uuid4 of a node or an edge is an argument. A set of ids is
-- a list that holds each once; the order that Python iterates a set in is not modelled.
pub mod Neighbors
use aurelix.Base.{
  Option-cases, lookup-insert, eq_iff, true, arith, ◌≡◌, AllValues, ◌&&◌, any_of, Bool-cases, ℕ,
  Bool, not, ◌||◌, none, some, List, [], ◌∷◌, ◌++◌, String, Result, ok, err, if◌then◌else◌, Dict,
  lookup, insert, values, keep, map, contains, is_blank, is_some, length, ◌==◌, string_eq,
}

pub data NodeType : Type 0 where
  claim source finding concept experiment lesson opportunity : NodeType

pub data Relation : Type 0 where
  supports contradicts derived_from relates_to tested_by leads_to learned_from : Relation

pub record KnowledgeNode : Type 0 where
  pub node_id : String
  pub node_type : NodeType
  pub label : String
  pub payload : Dict String

pub record KnowledgeEdge : Type 0 where
  pub edge_id : String
  pub source_id : String
  pub relation : Relation
  pub target_id : String

pub record KnowledgeGraph : Type 0 where
  pub nodes : Dict KnowledgeNode
  pub edges : Dict KnowledgeEdge

pub data GraphError : Type 0 where
  label_required nodes_must_exist unknown_node : GraphError
  dangling : String → GraphError

abbrev pub new : KnowledgeGraph
new = record { nodes = []; edges = [] }

unfoldable pub add_node :
    String
    → NodeType
    → String
    → Dict String
    → KnowledgeGraph
    → Result GraphError KnowledgeNode × KnowledgeGraph
add_node node_id node_type label payload g =
    let node : KnowledgeNode = record {
      node_id = node_id;
      node_type = node_type;
      label = label;
      payload = payload;
    } in
    if is_blank label
    then (err label_required, g)
    else (ok node, record g { nodes = insert node_id node g.nodes })

abbrev pub knows : KnowledgeGraph → String → Bool
knows g node_id = is_some (lookup node_id g.nodes)

unfoldable pub link :
    String
    → String
    → Relation
    → String
    → KnowledgeGraph
    → Result GraphError KnowledgeEdge × KnowledgeGraph
link edge_id source_id relation target_id g =
    let edge : KnowledgeEdge = record {
      edge_id = edge_id;
      source_id = source_id;
      relation = relation;
      target_id = target_id;
    } in
    if not (knows g source_id) || not (knows g target_id)
    then (err nodes_must_exist, g)
    else (ok edge, record g { edges = insert edge_id edge g.edges })

abbrev pub as_set : List String → List String
as_set [] = []
as_set (x ∷ xs) = let rest = as_set xs in if contains x rest then rest else x ∷ rest

abbrev pub targets : String → List KnowledgeEdge → List String
targets n es = map (λ e. e.target_id) (keep (λ e. e.source_id == n) es)

abbrev pub sources : String → List KnowledgeEdge → List String
sources n es = map (λ e. e.source_id) (keep (λ e. e.target_id == n) es)

-- The set `ids` of `neighbors`.
abbrev pub neighbor_ids : String → KnowledgeGraph → List String
neighbor_ids n g = as_set (targets n (values g.edges) ++ sources n (values g.edges))

-- `tuple(self._nodes[item] for item in ids)`, which raises on an id that is no node.
abbrev pub gather : KnowledgeGraph → List String → Result GraphError (List KnowledgeNode)
gather g [] = ok []
gather g (i ∷ is) =
    let rest = gather g is in
    elim (lookup i g.nodes) [
      | none ↦ err (dangling i)
      | some node ↦ elim rest [ err e ↦ err e | ok nodes ↦ ok (node ∷ nodes) ]
    ]

unfoldable pub neighbors : String → KnowledgeGraph → Result GraphError (List KnowledgeNode)
neighbors n g = if not (knows g n) then err unknown_node else gather g (neighbor_ids n g)

unfoldable pub node_count : KnowledgeGraph → ℕ
node_count g = length g.nodes

unfoldable pub edge_count : KnowledgeGraph → ℕ
edge_count g = length g.edges
