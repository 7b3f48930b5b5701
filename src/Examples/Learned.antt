-- ===== src/Examples/Learned.antt =====
-- A graph of two nodes, and one experiment.
use aurelix.Base.{is_blank, ◌≡◌, refl, List, [], ◌∷◌, ok, string_eq}
use aurelix.Knowledge.Graph.{KnowledgeNode, new, neighbors, claim, finding, supports}
use aurelix.Knowledge.Graph.Neighbors.{
  GraphCall, add_node_call, link_call, steps, neighbors_returns,
}

abbrev graph_calls : List GraphCall
graph_calls =
    add_node_call "a" claim "sky" []
    ∷ add_node_call "b" finding "blue" []
    ∷ link_call "e" "a" supports "b"
    ∷ link_call "f" "a" supports "c"
    ∷ []

neighbors_returns_example :
    (nodes : List KnowledgeNode) × (neighbors "b" (steps graph_calls new) ≡ ok nodes)
unfolding steps is_blank
neighbors_returns_example = neighbors_returns graph_calls "b" refl
