-- ===== src/Knowledge.antt =====
-- src/aurelix_core: what the system has learned and tries out. Graph is knowledge_graph.py,
-- Experiments experiments.py, Evaluation evaluation.py.
pub mod Graph
pub mod Experiments
pub mod Evaluation
