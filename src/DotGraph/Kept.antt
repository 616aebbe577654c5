-- ===== src/DotGraph/Kept.antt =====
-- Which edges the loop of `printDot` in DotGraph.java keeps.
use javaprofiler.Base.{
  ℕ, ◌+◌, ◌≤◌, ◌<◌, ◌≡◌, refl, ap, sym, ◌∙◌, ℤ, Bool-cases, true, false, inl, inr, Option-cases,
  List, [], ◌∷◌, ◌++◌, arith, ◌==◌, if◌then◌else◌, list_eq, list_eq_refl, list_eq_sound,
}
use javaprofiler.ProfilerUtils.{text_equals, or_zero, get, increment}
use javaprofiler.ProfilerUtils.Charges.{count_of, get-put, count_of-increment}
use javaprofiler.DotGraph.{opt_max_degree, to_long, Edge, Degrees, with_key, keeps, keep_edge}

-- How many edges lead to `q`.
unfoldable pub edges_into : List ℕ → List Edge → ℕ
edges_into q [] = 0
edges_into q (e ∷ es) = (if list_eq e.dst q then 1 else 0) + edges_into q es

edges_into-append :
    (q : List ℕ) (es : List Edge) (e : Edge)
    → edges_into q (es ++ (e ∷ [])) ≡ edges_into q es + (if list_eq e.dst q then 1 else 0)
unfolding edges_into
edges_into-append q [] e = omega arith
edges_into-append q (f ∷ es) e = omega (arith, edges_into-append q es e)

count_of-with_key :
    (map : List (List ℕ × ℕ)) (k q : List ℕ) → count_of q (with_key map k) ≡ count_of q map
unfolding with_key
count_of-with_key map k q = elim (Option-cases (get map k)) [
  | inr (n, old) ↦ rw (with_key, old) refl
  | inl new ↦ elim (Bool-cases (list_eq k q)) [
    | inl same ↦
        let gone : count_of q map ≡ 0 =
          ap (λ (x : List ℕ). count_of x map) (sym (list_eq_sound k q same)) ∙ ap or_zero new in
        rw (with_key, new, get-put map k q 0, same) (sym gone)
    | inr other ↦ rw (with_key, new, get-put map k q 0, other) refl
  ]
]

-- An edge is kept only into a node that has room.
keeps-room :
    (edge_limit : ℤ) (out n : ℕ) (inn : ℕ)
    → inn ≤ opt_max_degree
    → keeps edge_limit out inn n ≡ true
    → inn < opt_max_degree
unfolding keeps to_long
keeps-room edge_limit out n inn h k = elim (Bool-cases (inn == 8)) [
  | inr other ↦ ground arith
  | inl full ↦ let e : inn ≡ 8 = ground arith in absurd (ground (arith, k, e))
]

-- The map of the indegrees is what it says, and no node has more edges than it may.
abbrev pub IsCounted : Degrees → Type 0
IsCounted d =
    (q : List ℕ)
    → (count_of q d.indegree ≡ edges_into q d.kept) × (count_of q d.indegree ≤ opt_max_degree)

-- An edge is dropped only into a node that has one.
keeps-dropped : (edge_limit : ℤ) (out n inn : ℕ) → keeps edge_limit out inn n ≡ false → 0 < inn
unfolding keeps
keeps-dropped edge_limit out n inn k = elim (Bool-cases (inn == 0)) [
  | inl none_yet ↦ absurd (ground (arith, k, none_yet))
  | inr other ↦ ground arith
]

increment-IsCounted :
    (d : Degrees) (e : Edge) (w : List (List ℕ × ℕ))
    → IsCounted d
    → ((q : List ℕ) → count_of q w ≡ count_of q d.indegree)
    → count_of e.dst w < opt_max_degree
    → (q : List ℕ)
    → (count_of q (increment w e.dst 1) ≡ edges_into q (d.kept ++ (e ∷ [])))
      × (count_of q (increment w e.dst 1) ≤ opt_max_degree)
increment-IsCounted d e w v same room q =
    let more = count_of-increment w e.dst q 1 (omega (arith, same q, (v q).1)) in
    let grown = edges_into-append q d.kept e in
    elim (Bool-cases (list_eq e.dst q)) [
      | inl hit ↦
          let at : count_of e.dst w ≡ count_of q w =
            ap (λ (x : List ℕ). count_of x w) (list_eq_sound e.dst q hit) in
          (
            ground (arith, more, grown, hit, at, same q, v q, room),
            ground (arith, more, hit, at, room),
          )
      | inr miss ↦
          (ground (arith, more, grown, miss, same q, v q), ground (arith, more, miss, same q, v q))
    ]

pub keep_edge-IsCounted :
    (edge_limit : ℤ) (d : Degrees) (e : Edge)
    → IsCounted d
    → IsCounted (keep_edge edge_limit d e)
      × (0 < edges_into e.dst (keep_edge edge_limit d e).kept)
      × ((q : List ℕ) → edges_into q d.kept ≤ edges_into q (keep_edge edge_limit d e).kept)
unfolding keep_edge
keep_edge-IsCounted edge_limit d e v =
    let inn = count_of e.dst (with_key d.indegree e.dst) in
    let out = count_of e.src (with_key d.outdegree e.src) in
    let same : (q : List ℕ) → count_of q (with_key d.indegree e.dst) ≡ count_of q d.indegree =
      count_of-with_key d.indegree e.dst in
    elim (Bool-cases (keeps edge_limit out inn e.count)) [
      | inl kept ↦
          let room : inn < opt_max_degree =
            keeps-room edge_limit out e.count inn (omega (arith, same e.dst, (v e.dst).1)) kept in
          rw kept (
            increment-IsCounted d e (with_key d.indegree e.dst) v same room,
            ground (arith, edges_into-append e.dst d.kept e, list_eq_refl e.dst),
            λ q. omega (arith, edges_into-append q d.kept e),
          )
      | inr dropped ↦ rw dropped (
        λ q. (same q ∙ (v q).0, omega (arith, same q, (v q).1)),
        omega (arith, keeps-dropped edge_limit out e.count inn dropped, same e.dst, (v e.dst).0),
        λ q. omega arith,
      )
    ]
