-- ===== src/Tests/Graph.antt =====
-- The theorems about DotGraph.java at concrete inputs.
use javaprofiler.Base.{ℕ, ◌≡◌, refl, pos, take, get_elem?, List, [], ◌∷◌, All, arith}
use javaprofiler.DotGraph.{nodes, keys_by_count_descending, insert, to_long, abs_long, nodes_kept}
use javaprofiler.DotGraph.Chosen.{IsCount, AreChosen, nodes-AreChosen}
use javaprofiler.DotGraph.Printed.{IsName, IsDrawn, print_dot-IsDrawn}

-- A function `f` that `g` and `main` call.
abbrev cumulative : List (List ℕ × ℕ)
cumulative = (102 ∷ [], 5) ∷ (103 ∷ [], 3) ∷ (109 ∷ [], 2) ∷ []

abbrev raw : List (List (List ℕ) × ℕ)
raw = ((102 ∷ []) ∷ (103 ∷ []) ∷ [], 3) ∷ ((102 ∷ []) ∷ (109 ∷ []) ∷ [], 2) ∷ []

raw-IsName : All (λ (r : List (List ℕ) × ℕ). All IsName r.0) raw
raw-IsName = (
  (((refl, tt), λ e. absurd (cc)), (((refl, tt), λ e. absurd (cc)), tt)),
  ((((refl, tt), λ e. absurd (cc)), (((refl, tt), λ e. absurd (cc)), tt)), tt),
)

abbrev drawn_nodes : List (List ℕ × ℕ)
drawn_nodes = (102 ∷ [], 5) ∷ (103 ∷ [], 3) ∷ []

drawn_nodes-nodes : nodes (pos 2) cumulative ≡ drawn_nodes
unfolding nodes keys_by_count_descending insert to_long abs_long nodes_kept get_elem? take
drawn_nodes-nodes = refl

print_dot-IsDrawn_example : IsDrawn (pos 2) (pos 2) raw cumulative
print_dot-IsDrawn_example =
    print_dot-IsDrawn (pos 2) (pos 2) raw cumulative raw-IsName
      (rw drawn_nodes-nodes (λ e. absurd (cc)))

cumulative-IsCount : All IsCount cumulative
cumulative-IsCount = (omega arith, (omega arith, (omega arith, tt)))

nodes-AreChosen_example : AreChosen (pos 2) cumulative
nodes-AreChosen_example = nodes-AreChosen (pos 2) cumulative cumulative-IsCount
