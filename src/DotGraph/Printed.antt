-- ===== src/DotGraph/Printed.antt =====
-- The edges that `printDot` of DotGraph.java prints, from the paths that it is given.
use javaprofiler.Base.{
  ℕ, ◌≤◌, ◌<◌, ◌≡◌, ◌≢◌, refl, ℤ, Bool, Bool-cases, true, false, inl, inr, some, List, [], ◌∷◌, All,
  arith, if◌then◌else◌, list_eq,
}
use javaprofiler.ProfilerUtils.{text_equals, get, put, increment}
use javaprofiler.DotGraph.{
  opt_max_degree, keys_by_count_descending, edge_label, add_edge, add_edges, edges, split, Edge,
  Degrees, keep_edge, keep_edges, no_degrees, printed_edges, nodes, number_nodes, graph, draw,
  print_dot,
}
use javaprofiler.DotGraph.Sorted.{sort-All, sort-All_back}
use javaprofiler.DotGraph.Labels.{IsPlain, split-edge_label}
use javaprofiler.DotGraph.Kept.{edges_into, IsCounted, keep_edge-IsCounted}

-- A label that can be split, and one whose second name has an edge.
abbrev pub IsLabel : List ℕ × ℕ → Type 0
IsLabel e = (x : List ℕ × List ℕ) × (split e.0 ≡ some x)

abbrev pub IsReached : Degrees → List ℕ × ℕ → Type 0
IsReached d e = (x : List ℕ × List ℕ) × (split e.0 ≡ some x) × (0 < edges_into x.1 d.kept)

IsReached-mono :
    (d d' : Degrees) (e : List ℕ × ℕ)
    → ((q : List ℕ) → edges_into q d.kept ≤ edges_into q d'.kept)
    → IsReached d e
    → IsReached d' e
IsReached-mono d d' e more (x, run, h) = (x, run, omega (arith, more x.1))

keep_edges-IsCounted :
    (edge_limit : ℤ) (d : Degrees) (list : List (List ℕ × ℕ))
    → All IsLabel list
    → IsCounted d
    → (d' : Degrees) × (keep_edges edge_limit d list ≡ some d')
      × IsCounted d'
      × All (IsReached d') list
      × ((q : List ℕ) → edges_into q d.kept ≤ edges_into q d'.kept)
unfolding keep_edges
keep_edges-IsCounted edge_limit d [] v c = (d, refl, c, tt, λ q. omega arith)
keep_edges-IsCounted edge_limit d (e ∷ list) v c =
    let (x, run) = v.0 in
    let edge : Edge = record { src = x.0; dst = x.1; count = e.1 } in
    let (c₁, reached, more₁) = keep_edge-IsCounted edge_limit d edge c in
    let (d₂, run₂, c₂, rest, more₂) =
      keep_edges-IsCounted edge_limit (keep_edge edge_limit d edge) list v.1 c₁ in
    (
      d₂,
      rw run run₂,
      c₂,
      ((x, run, omega (arith, reached, more₂ x.1)), rest),
      λ q. omega (arith, more₁ q, more₂ q),
    )

-- A name: not empty, and without the character 1.
abbrev pub IsName : List ℕ → Type 0
IsName name = IsPlain name × (name ≢ [])

put-All :
    (map : List (List ℕ × ℕ)) (k : List ℕ) (n : ℕ)
    → ((m : ℕ) → IsLabel (k, m))
    → All IsLabel map
    → All IsLabel (put map k n)
unfolding put
put-All [] k n p v = (p n, tt)
put-All (e ∷ map) k n p v = elim (Bool-cases (list_eq e.0 k)) [
  | inl same ↦ rw same (v.0, v.1)
  | inr other ↦ rw other (v.0, put-All map k n p v.1)
]

chosen-All :
    (b : Bool) (here there : List (List ℕ × ℕ))
    → All IsLabel here
    → All IsLabel there
    → All IsLabel (if b then here else there)
chosen-All true here there v w = v
chosen-All false here there v w = w

add_edge-All :
    (node edge : List (List ℕ × ℕ)) (n : ℕ) (src dst : List ℕ)
    → IsName src
    → IsName dst
    → All IsLabel edge
    → All IsLabel (add_edge node edge n src dst)
unfolding add_edge increment
add_edge-All node edge n src dst v w u =
    let labelled : (m : ℕ) → IsLabel (edge_label src dst, m) =
      λ m. ((src, dst), split-edge_label src dst v.0 w.0 w.1) in
    chosen-All _ _ _ (put-All edge (edge_label src dst) _ labelled u) u

add_edges-All :
    (node edge : List (List ℕ × ℕ)) (n : ℕ) (path : List (List ℕ))
    → All IsName path
    → All IsLabel edge
    → All IsLabel (add_edges node edge n path)
unfolding add_edges
add_edges-All node edge n [] v w = w
add_edges-All node edge n (dst ∷ []) v w = w
add_edges-All node edge n (dst ∷ src ∷ path) v w =
    add_edges-All node (add_edge node edge n src dst) n (src ∷ path) v.1
      (add_edge-All node edge n src dst v.1.0 v.0 w)

edges-All :
    (node edge : List (List ℕ × ℕ)) (raw : List (List (List ℕ) × ℕ))
    → All (λ (r : List (List ℕ) × ℕ). All IsName r.0) raw
    → All IsLabel edge
    → All IsLabel (edges node edge raw)
unfolding edges
edges-All node edge [] v w = w
edges-All node edge ((k, n) ∷ raw) v w =
    edges-All node (add_edges node edge n k) raw v.1 (add_edges-All node edge n k v.0 w)

printed_edges-IsReached :
    (node : List (List ℕ × ℕ)) (raw : List (List (List ℕ) × ℕ)) (edge_limit : ℤ)
    → All (λ (r : List (List ℕ) × ℕ). All IsName r.0) raw
    → (d : Degrees) × (printed_edges edge_limit (edges node [] raw) ≡ some d)
      × ((q : List ℕ) → edges_into q d.kept ≤ opt_max_degree)
      × All (IsReached d) (edges node [] raw)
unfolding printed_edges no_degrees edges_into get
printed_edges-IsReached node raw edge_limit v =
    let edge = edges node [] raw in
    let (d, run, c, reached, _) =
      keep_edges-IsCounted edge_limit no_degrees (keys_by_count_descending edge)
        (sort-All IsLabel edge (edges-All node [] raw v tt)) (λ q. (refl, omega arith)) in
    (d, run, λ q. omega (arith, (c q).0, (c q).1), sort-All_back (IsReached d) edge reached)

draw-graph :
    (edge_limit : ℤ) (raw : List (List (List ℕ) × ℕ)) (list : List (List ℕ × ℕ)) (d : Degrees)
    → list ≢ []
    → printed_edges edge_limit (edges (number_nodes 1 [] list) [] raw) ≡ some d
    → draw edge_limit raw list ≡ some (graph list d)
unfolding draw
draw-graph edge_limit raw [] d h run = absurd (h refl)
draw-graph edge_limit raw (e ∷ list) d h run = rw run refl

-- What `printDot` prints where there is a node: every edge of the map leads to a node with an edge
-- into it, and no node has more than the highest degree.
abbrev pub IsDrawn : ℤ → ℤ → List (List (List ℕ) × ℕ) → List (List ℕ × ℕ) → Type 0
IsDrawn node_limit edge_limit raw cumulative =
    let list = nodes node_limit cumulative in
    (d : Degrees) × (print_dot node_limit edge_limit raw cumulative ≡ some (graph list d))
    × ((q : List ℕ) → edges_into q d.kept ≤ opt_max_degree)
    × All (IsReached d) (edges (number_nodes 1 [] list) [] raw)

-- Where the names of the paths are not empty and without the character 1 and there is a node, the
-- drawing of the graph returns: no label of an edge fails to split, every node has at most 8
-- printed edges into it, and every edge between two nodes leads to a node that has at least one.
pub print_dot-IsDrawn :
    (node_limit edge_limit : ℤ) (raw : List (List (List ℕ) × ℕ)) (cumulative : List (List ℕ × ℕ))
    → All (λ (r : List (List ℕ) × ℕ). All IsName r.0) raw
    → nodes node_limit cumulative ≢ []
    → IsDrawn node_limit edge_limit raw cumulative
unfolding print_dot
print_dot-IsDrawn node_limit edge_limit raw cumulative v h =
    let list = nodes node_limit cumulative in
    let (d, run, few, reached) =
      printed_edges-IsReached (number_nodes 1 [] list) raw edge_limit v in
    (d, draw-graph edge_limit raw list d h run, few, reached)
