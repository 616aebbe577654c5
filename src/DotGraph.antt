-- ===== src/DotGraph.antt =====
-- DotGraph.java, for keys that are texts, as its callers have them: which nodes and edges `printDot`
-- prints. The limits, which the code computes in floating point, are arguments, and the layout of the
-- text is left out. A `long` is its 64-bit pattern.
pub mod Labels
pub mod Kept
pub mod Sorted
pub mod Printed
pub mod Chosen
use javaprofiler.Base.{
  ℕ, zero, suc, ◌+◌, ◌-◌, ◌^◌, min, ℤ, pos, negsuc, int_le, Bool, true, false, ◌&&◌, ◌||◌, Option,
  none, some, List, [], ◌∷◌, ◌++◌, length, take, get_elem?, ltb, ◌==◌, if◌then◌else◌,
}
use javaprofiler.ProfilerUtils.{text_equals, or_zero, get, put, increment}
use javaprofiler.Reader.Analyze.{◌>>=◌}

abbrev pub opt_node_count : ℕ
opt_node_count = 80

abbrev pub opt_max_degree : ℕ
opt_max_degree = 8

-- The value of a `long`, and `Math.abs`, which leaves the least one as it is.
unfoldable pub to_long : ℕ → ℤ
to_long n = if ltb n (2 ^ 63) then pos n else negsuc (2 ^ 64 - 1 - n)

abbrev abs_negative : ℕ → ℤ
abs_negative n = if n == 2 ^ 63 then negsuc (2 ^ 63 - 1) else pos (2 ^ 64 - n)

unfoldable pub abs_long : ℕ → ℤ
abs_long n = if ltb n (2 ^ 63) then pos n else abs_negative n

-- `keysByCountDescending`, each key with its count: a sort that keeps the order of equal counts.
unfoldable pub insert : List ℕ × ℕ → List (List ℕ × ℕ) → List (List ℕ × ℕ)
insert e [] = e ∷ []
insert e (f ∷ entries) =
    let rest = insert e entries in
    if int_le (to_long f.1) (to_long e.1) then e ∷ f ∷ entries else f ∷ rest

unfoldable pub keys_by_count_descending : List (List ℕ × ℕ) → List (List ℕ × ℕ)
keys_by_count_descending [] = []
keys_by_count_descending (e ∷ entries) = insert e (keys_by_count_descending entries)

-- `last + 1`, after the loop that leaves out small counts at the end.
unfoldable pub nodes_kept : ℤ → List (List ℕ × ℕ) → ℕ → ℕ
nodes_kept node_limit list zero = zero
nodes_kept node_limit list (suc last) =
    let rest = nodes_kept node_limit list last in
    elim (get_elem? list last) [
      | none ↦ suc last
      | some e ↦ if int_le (abs_long e.1) node_limit then rest else suc last
    ]

-- The nodes, of which there may be none.
unfoldable pub nodes : ℤ → List (List ℕ × ℕ) → List (List ℕ × ℕ)
nodes node_limit cumulative =
    let list = keys_by_count_descending cumulative in
    take (nodes_kept node_limit list (min opt_node_count (length list))) list

-- The label of an edge is the two names with a character 1 between them.
unfoldable pub edge_label : List ℕ → List ℕ → List ℕ
edge_label src dst = src ++ (1 ∷ dst)

abbrev is_some : Option ℕ → Bool
is_some none = false
is_some (some n) = true

-- One call, if both functions are nodes.
unfoldable pub add_edge :
    List (List ℕ × ℕ) → List (List ℕ × ℕ) → ℕ → List ℕ → List ℕ → List (List ℕ × ℕ)
add_edge node edge n src dst =
    if is_some (get node src) && is_some (get node dst)
    then increment edge (edge_label src dst) n
    else edge

-- The loop over one stack, from its top.
unfoldable pub add_edges :
    List (List ℕ × ℕ) → List (List ℕ × ℕ) → ℕ → List (List ℕ) → List (List ℕ × ℕ)
add_edges node edge n [] = edge
add_edges node edge n (dst ∷ []) = edge
add_edges node edge n (dst ∷ src ∷ translated) =
    add_edges node (add_edge node edge n src dst) n (src ∷ translated)

unfoldable pub edges :
    List (List ℕ × ℕ) → List (List ℕ × ℕ) → List (List (List ℕ) × ℕ) → List (List ℕ × ℕ)
edges node edge [] = edge
edges node edge ((k, n) ∷ raw) = edges node (add_edges node edge n k) raw

-- `e.split(Pattern.quote("\001"))`, which drops empty texts at the end.
unfoldable pub split_from : List ℕ → List ℕ → List (List ℕ)
split_from text [] = text ∷ []
split_from text (c ∷ e) =
    let next = split_from [] e in
    let more = split_from (text ++ (c ∷ [])) e in if c == 1 then text ∷ next else more

abbrev cons_text : List ℕ → List (List ℕ) → List (List ℕ)
cons_text [] [] = []
cons_text text texts = text ∷ texts

unfoldable pub drop_empty : List (List ℕ) → List (List ℕ)
drop_empty [] = []
drop_empty (text ∷ texts) = cons_text text (drop_empty texts)

-- `x[0]` and `x[1]`; `none` is an index out of bounds.
unfoldable pub ends_of : List (List ℕ) → Option (List ℕ × List ℕ)
ends_of (src ∷ dst ∷ x) = some (src, dst)
ends_of _ = none

unfoldable pub split : List ℕ → Option (List ℕ × List ℕ)
split e = ends_of (drop_empty (split_from [] e))

pub record Edge : Type 0 where
  pub src : List ℕ
  pub dst : List ℕ
  pub count : ℕ

-- The two maps, and the edges that are printed so far.
pub record Degrees : Type 0 where
  pub indegree : List (List ℕ × ℕ)
  pub outdegree : List (List ℕ × ℕ)
  pub kept : List Edge

-- A key that is not in the map is put there with 0.
unfoldable pub with_key : List (List ℕ × ℕ) → List ℕ → List (List ℕ × ℕ)
with_key map k = elim (get map k) [ none ↦ put map k 0 | some n ↦ map ]

unfoldable pub keeps : ℤ → ℕ → ℕ → ℕ → Bool
keeps edge_limit outdegree indegree n =
    let full =
      int_le (pos opt_max_degree) (to_long outdegree)
      || int_le (pos opt_max_degree) (to_long indegree) in
    if indegree == 0
    then true
    else (if int_le (abs_long n) edge_limit then false else (if full then false else true))

-- One turn of the loop over the edges.
unfoldable pub keep_edge : ℤ → Degrees → Edge → Degrees
keep_edge edge_limit d e =
    let outdegree = with_key d.outdegree e.src in
    let indegree = with_key d.indegree e.dst in
    let keep =
      keeps edge_limit (or_zero (get outdegree e.src)) (or_zero (get indegree e.dst)) e.count in
    if keep
    then record {
      indegree = increment indegree e.dst 1;
      outdegree = increment outdegree e.src 1;
      kept = d.kept ++ (e ∷ []);
    }
    else record { indegree = indegree; outdegree = outdegree; kept = d.kept }

unfoldable pub keep_edges : ℤ → Degrees → List (List ℕ × ℕ) → Option Degrees
keep_edges edge_limit d [] = some d
keep_edges edge_limit d ((e, n) ∷ list) = split e >>= λ x.
    keep_edges edge_limit (keep_edge edge_limit d (record { src = x.0; dst = x.1; count = n })) list

unfoldable pub no_degrees : Degrees
no_degrees = record { indegree = []; outdegree = []; kept = [] }

-- The edges that `printDot` prints, of the map of the edges.
unfoldable pub printed_edges : ℤ → List (List ℕ × ℕ) → Option Degrees
printed_edges edge_limit edge = keep_edges edge_limit no_degrees (keys_by_count_descending edge)

-- The nodes with their numbers from `next`, in the map that `printDot` asks for nodes.
unfoldable pub number_nodes : ℕ → List (List ℕ × ℕ) → List (List ℕ × ℕ) → List (List ℕ × ℕ)
number_nodes next node [] = node
number_nodes next node ((a, c) ∷ list) = number_nodes (suc next) (put node a next) list

-- What `printDot` prints: nothing, where it answers false, or the nodes and the edges.
pub data Drawing : Type 0 where
  no_nodes : Drawing
  graph : List (List ℕ × ℕ) → Degrees → Drawing

unfoldable pub draw : ℤ → List (List (List ℕ) × ℕ) → List (List ℕ × ℕ) → Option Drawing
draw edge_limit raw [] = some no_nodes
draw edge_limit raw (a ∷ list) =
    let node = number_nodes 1 [] (a ∷ list) in
    printed_edges edge_limit (edges node [] raw) >>= λ d. some (graph (a ∷ list) d)

unfoldable pub print_dot : ℤ → ℤ → List (List (List ℕ) × ℕ) → List (List ℕ × ℕ) → Option Drawing
print_dot node_limit edge_limit raw cumulative = draw edge_limit raw (nodes node_limit cumulative)
