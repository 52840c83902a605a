-- ===== src/Learning/Graph.antt =====
-- app/services/learning/graph.py: the prerequisite graph of topics and which topics are open. The
-- weights of a node and the strength of an edge are floats.
use mathlib.Core.List.{append-nil, append_assoc}
use scholarscrib_backend.Floats.{Floats}
use scholarscrib_backend.Prelude.{
  ℕ, String, ◌≡◌, refl, sym, ap, ◌∙◌, ◌↔◌, Bool, true, false, ◌&&◌, ◌||◌, not, Option, List, [],
  ◌∷◌, ◌++◌, str_eq, eq_iff, if◌then◌else◌, &&-true, keep, any, All,
}
use scholarscrib_backend.Prelude.Dict
use scholarscrib_backend.Prelude.Dict.Laws.{get_or-put}

module _ (F : Floats) where
  open F use {Float, mul, le, of_nat}

  pub record GraphNode : Type 0 where
    pub id : String
    pub subject_id : String
    pub title : String
    pub slug : String
    pub order_index : ℕ
    pub estimated_minutes : ℕ
    pub waec_weight : Float
    pub jamb_weight : Float
    pub prerequisite_topic_id : Option String

  pub record GraphEdge : Type 0 where
    pub id : String
    pub source : String
    pub target : String
    pub kind : String
    pub strength : Float
    pub rationale : Option String

  pub record KnowledgeGraph : Type 0 where
    pub nodes : List (String × GraphNode)
    pub incoming : List (String × List GraphEdge)
    pub outgoing : List (String × List GraphEdge)

  -- One round of the loop over the edges.
  unfoldable pub add_edge : GraphEdge → KnowledgeGraph → KnowledgeGraph
  add_edge edge graph = record graph {
    incoming = Dict.append_to str_eq graph.incoming edge.target edge;
    outgoing = Dict.append_to str_eq graph.outgoing edge.source edge;
  }

  unfoldable pub add_edges : List GraphEdge → KnowledgeGraph → KnowledgeGraph
  unfolding add_edge
  add_edges [] graph = graph
  add_edges (edge ∷ edges) graph = add_edges edges (add_edge edge graph)

  -- `{node.id: node for node in nodes}`
  unfoldable pub nodes_from : List (String × GraphNode) → List GraphNode → List (String × GraphNode)
  nodes_from found [] = found
  nodes_from found (node ∷ nodes) = nodes_from (Dict.put str_eq found node.id node) nodes

  unfoldable pub build_graph : List GraphNode → List GraphEdge → KnowledgeGraph
  unfolding add_edges nodes_from
  build_graph nodes edges =
      add_edges edges (record { nodes = nodes_from [] nodes; incoming = []; outgoing = [] })

  unfoldable pub incoming_edges : KnowledgeGraph → String → List GraphEdge
  incoming_edges graph topic_id = Dict.get_or str_eq graph.incoming topic_id []

  -- GATE is 60.
  unfoldable pub prerequisite_satisfied : ℕ → Float → Bool → Bool
  prerequisite_satisfied mastery strength pretest_passed =
      pretest_passed || le (mul (of_nat 60) strength) (of_nat mastery)

  unfoldable pub edge_open : (String → ℕ) → List String → GraphEdge → Bool
  unfolding prerequisite_satisfied
  edge_open mastery_of pretest_passed edge =
      not (str_eq edge.kind "PREREQUISITE")
      || prerequisite_satisfied (mastery_of edge.source) edge.strength
          (any (λ id. str_eq id edge.source) pretest_passed)

  unfoldable pub all_open : (String → ℕ) → List String → List GraphEdge → Bool
  unfolding edge_open
  all_open mastery_of pretest_passed [] = true
  all_open mastery_of pretest_passed (edge ∷ edges) =
      edge_open mastery_of pretest_passed edge && all_open mastery_of pretest_passed edges

  unfoldable pub topic_available : KnowledgeGraph → String → (String → ℕ) → List String → Bool
  unfolding all_open incoming_edges
  topic_available graph topic_id mastery_of pretest_passed =
      all_open mastery_of pretest_passed (incoming_edges graph topic_id)

  abbrev pub leading_to : String → List GraphEdge → List GraphEdge
  leading_to topic_id edges = keep (λ edge. str_eq edge.target topic_id) edges

  incoming_edges-add_edges :
      (edges : List GraphEdge) (graph : KnowledgeGraph) (topic_id : String)
      → incoming_edges (add_edges edges graph) topic_id
        ≡ incoming_edges graph topic_id ++ leading_to topic_id edges
  unfolding incoming_edges add_edges add_edge
  incoming_edges-add_edges [] graph topic_id =
      sym (append-nil (Dict.get_or str_eq graph.incoming topic_id []))
  incoming_edges-add_edges (edge ∷ edges) graph topic_id =
      incoming_edges-add_edges edges (add_edge edge graph) topic_id
      ∙ rw
          (get_or-put str_eq (λ a b. (eq_iff a b).0) (λ a. (eq_iff a a).1 refl) graph.incoming
            edge.target topic_id (old ++ edge ∷ []) [])
          (here (str_eq edge.target topic_id) refl)
    where
      old : List GraphEdge
      old = Dict.get_or str_eq graph.incoming edge.target []

      here :
          (b : Bool)
          → str_eq edge.target topic_id ≡ b
          → (if b then old ++ edge ∷ [] else Dict.get_or str_eq graph.incoming topic_id [])
              ++ leading_to topic_id edges
            ≡ Dict.get_or str_eq graph.incoming topic_id []
              ++ (if b then edge ∷ leading_to topic_id edges else leading_to topic_id edges)
      here true e =
          append_assoc old (edge ∷ []) (leading_to topic_id edges)
          ∙ ap (λ k. Dict.get_or str_eq graph.incoming k [] ++ edge ∷ leading_to topic_id edges)
              ((eq_iff edge.target topic_id).0 e)
      here false e = refl

  all_open-All :
      (mastery_of : String → ℕ) (pretest_passed : List String) (edges : List GraphEdge)
      → (all_open mastery_of pretest_passed edges ≡ true)
        ↔ All (λ edge. edge_open mastery_of pretest_passed edge ≡ true) edges
  unfolding all_open
  all_open-All mastery_of pretest_passed [] = (λ h. tt, λ h. refl)
  all_open-All mastery_of pretest_passed (edge ∷ edges) =
      let rest = all_open-All mastery_of pretest_passed edges in
      (λ h. let b = &&-true h in (b.0, rest.0 b.1), λ h. rw (h.0, rest.1 h.1) refl)

  -- A topic of a graph is available exactly when every edge of the graph that leads to it is no
  -- prerequisite or is satisfied, by a passed pretest or enough mastery.
  topic_available-build_graph :
      (nodes : List GraphNode) (edges : List GraphEdge) (topic_id : String)
      (mastery_of : String → ℕ) (pretest_passed : List String)
      → (topic_available (build_graph nodes edges) topic_id mastery_of pretest_passed ≡ true)
        ↔ All (λ edge. edge_open mastery_of pretest_passed edge ≡ true) (leading_to topic_id edges)
  unfolding topic_available build_graph
  topic_available-build_graph nodes edges topic_id mastery_of pretest_passed =
      rw
        (incoming_edges-add_edges edges
          (record { nodes = nodes_from [] nodes; incoming = []; outgoing = [] }) topic_id)
        (all_open-All mastery_of pretest_passed (leading_to topic_id edges))
