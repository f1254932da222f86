-- ===== src/Workflow/Topology/Fuel.antt =====
-- Kahn's loop ends: with as many rounds as there are nodes it never runs out of fuel.
use data_ops_studio_v.Base.{
  ℕ, zero, suc, ◌+◌, ◌-◌, ◌≤◌, ◌≡◌, ◌≢◌, refl, ◌∙◌, String, Bool, List, [], ◌∷◌, ◌++◌,
  if◌then◌else◌, ◌==◌, filterb, length, length-append, Dict, lookup, insert, Result, ok, raise,
  ◌>>=◌, ap, subst, arith, Bool-cases, Option-cases, inl, inr, ◌⊎◌, is_some,
}
use data_ops_studio_v.Sql.{sort_in, order_by}
use data_ops_studio_v.Workflow.{WorkflowNode, WorkflowEdge, WorkflowSpec, PlanError, out_of_fuel}
use data_ops_studio_v.Workflow.Route.{find_node}
use data_ops_studio_v.Workflow.Topology.{
  by_index, edge_targets, count_edges, release, kahn, is_zero, no_degrees, sources_of, pick,
  topological_ids, topological_nodes,
}
use data_ops_studio_v.Workflow.Topology.Degrees.{ok_eq}
use data_ops_studio_v.Workflow.Topology.Order.{HasUniqueIds, length-map}
use data_ops_studio_v.Workflow.Topology.Positive.{
  positive, positive-insert, positive_or_zero, lookup-Tells, count_edges-keys, no_degrees-IsDict,
  keys-no_degrees,
}

length-order_by :
    {A : Type 0} (before : A → A → Bool) (xs : List A) → length (order_by before xs) ≡ length xs
unfolding order_by sort_in
length-order_by before [] = refl
length-order_by before (x ∷ xs) =
    length-sort_in before x (order_by before xs) ∙ ap suc (length-order_by before xs)
  where
    length-sort_in :
        {A : Type 0} (before : A → A → Bool) (x : A) (xs : List A)
        → length (sort_in before x xs) ≡ suc (length xs)
    length-sort_in before x [] = refl
    length-sort_in before x (y ∷ ys) = ground (arith, length-sort_in before x ys)

-- A released edge takes an id from the positive ones to the ready ones, or leaves both as they are.
release-positive :
    (ts : List String) (d d' : Dict ℕ) (ready ready' : List String)
    → release ts d ready ≡ ok (d', ready')
    → positive d' + length ready' ≤ positive d + length ready
unfolding release
release-positive [] d d' ready ready' e =
    subst (λ q. positive q.0 + length q.1 ≤ positive d + length ready)
      (ok_eq (d, ready) (d', ready') e) (omega arith)
release-positive (t ∷ ts) d d' ready ready' e = elim (Option-cases (lookup t d)) [
  | inl missing ↦ let clash = (rw (missing, release) at e) in cc
  | inr (n, here) ↦
      let rest =
        release-positive ts (insert t (n - 1) d) d' (if n == 1 then ready ++ t ∷ [] else ready)
          ready' (rw (here, release) at e) in
      ground (arith, positive-insert t n (n - 1) d here, length-append ready (t ∷ []), rest)
]

release-ne-out_of_fuel :
    (ts : List String) (d : Dict ℕ) (ready : List String) → release ts d ready ≢ raise out_of_fuel
unfolding release
release-ne-out_of_fuel [] d ready e = cc
release-ne-out_of_fuel (t ∷ ts) d ready e = elim (Option-cases (lookup t d)) [
  | inl missing ↦ let clash = (rw (missing, release) at e) in cc
  | inr (n, here) ↦
      release-ne-out_of_fuel ts (insert t (n - 1) d) (if n == 1 then ready ++ t ∷ [] else ready)
        (rw (here, release) at e)
]

-- A sequence that runs out of fuel does so in its first part or in its second.
out_of_fuel_in :
    {A B : Type 0} (m : Result PlanError A) (next : A → Result PlanError B)
    → (m >>= next) ≡ raise out_of_fuel
    → (m ≡ raise out_of_fuel) ⊎ ((a : A) × (m ≡ ok a) × (next a ≡ raise out_of_fuel))
out_of_fuel_in (raise x) next e = inl (cc)
out_of_fuel_in (ok a) next e = inr (a, refl, e)

kahn_ends :
    (fuel : ℕ) (nodes : List WorkflowNode) (edges : List WorkflowEdge) (d : Dict ℕ)
    (ready : List String)
    → positive d + length ready ≤ fuel
    → kahn fuel nodes edges d ready ≢ raise out_of_fuel
unfolding kahn
kahn_ends fuel nodes edges d [] m e = cc
kahn_ends zero nodes edges d (x ∷ rest) m e = omega arith
kahn_ends (suc fuel) nodes edges d (x ∷ rest) m e =
    elim (out_of_fuel_in (release (edge_targets x edges) d rest) _ e) [
      | inl released ↦ release-ne-out_of_fuel (edge_targets x edges) d rest released
      | inr ((d', ready), released, later) ↦
          let sorted = order_by (by_index nodes).precedes ready in
          elim (out_of_fuel_in (kahn fuel nodes edges d' sorted) (λ ids. ok (x ∷ ids)) later) [
            | inl again ↦
                kahn_ends fuel nodes edges d' sorted
                  (omega (
                    arith,
                    length-order_by (by_index nodes).precedes ready,
                    release-positive (edge_targets x edges) d d' rest ready released,
                  ))
                  again
            | inr (ids, done, last) ↦ cc
          ]
    ]

count_edges-ne-out_of_fuel :
    (es : List WorkflowEdge) (d : Dict ℕ) → count_edges es d ≢ raise out_of_fuel
unfolding count_edges
count_edges-ne-out_of_fuel [] d e = cc
count_edges-ne-out_of_fuel (f ∷ es) d e = elim (Bool-cases (is_some (lookup f.source d))) [
  | inr missing ↦ let clash = (rw (missing, count_edges) at e) in cc
  | inl known ↦ elim (Option-cases (lookup f.target d)) [
    | inl missing ↦ let clash = (rw (known, missing, count_edges) at e) in cc
    | inr (n, here) ↦
        count_edges-ne-out_of_fuel es (insert f.target (n + 1) d)
          (rw (known, here, count_edges) at e)
  ]
]

topological_ids-ne-out_of_fuel :
    (spec : WorkflowSpec) → HasUniqueIds spec → topological_ids spec ≢ raise out_of_fuel
unfolding topological_ids sources_of
topological_ids-ne-out_of_fuel spec unique e =
    elim (out_of_fuel_in (count_edges spec.edges (no_degrees spec.nodes)) _ e) [
      | inl counting ↦ count_edges-ne-out_of_fuel spec.edges (no_degrees spec.nodes) counting
      | inr (d, counted, run) ↦
          let (kept, distinct) =
            count_edges-keys spec.edges (no_degrees spec.nodes) d counted
              (no_degrees-IsDict spec.nodes spec.nodes unique) in
          let total =
            subst (λ ks. positive d + length (filterb (λ id. is_zero (lookup id d)) ks) ≡ length ks)
              (kept ∙ keys-no_degrees spec.nodes)
              (positive_or_zero _ d (lookup-Tells d distinct)) in
          kahn_ends (length spec.nodes) spec.nodes spec.edges d _
            (omega (
              arith,
              total,
              length-map (λ (n : WorkflowNode). n.id) spec.nodes,
              length-order_by (by_index spec.nodes).precedes (sources_of spec.nodes d),
            ))
            run
    ]

pick-ne-out_of_fuel :
    (nodes : List WorkflowNode) (ids : List String) → pick nodes ids ≢ raise out_of_fuel
unfolding pick
pick-ne-out_of_fuel nodes [] e = cc
pick-ne-out_of_fuel nodes (id ∷ ids) e = elim (Option-cases (find_node id nodes)) [
  | inl missing ↦ let clash = (rw (missing, pick) at e) in cc
  | inr (n, here) ↦
      elim (out_of_fuel_in (pick nodes ids) (λ rest. ok (n ∷ rest)) (rw (here, pick) at e)) [
        | inl again ↦ pick-ne-out_of_fuel nodes ids again
        | inr (rest, done, last) ↦ cc
      ]
]

-- For nodes with different ids the search for an order ends: it does not run out of fuel.
pub topological_nodes-ne-out_of_fuel :
    (spec : WorkflowSpec) → HasUniqueIds spec → topological_nodes spec ≢ raise out_of_fuel
unfolding topological_nodes
topological_nodes-ne-out_of_fuel spec unique e = elim (out_of_fuel_in (topological_ids spec) _ e) [
  | inl searching ↦ topological_ids-ne-out_of_fuel spec unique searching
  | inr (ids, done, rest) ↦ elim (Bool-cases (length ids == length spec.nodes)) [
    | inl whole ↦ pick-ne-out_of_fuel spec.nodes ids (rw whole at rest)
    | inr short ↦ let clash = (rw short at rest) in cc
  ]
]
