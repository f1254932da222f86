-- ===== src/Workflow/Topology/Degrees.antt =====
-- The degrees that Kahn's algorithm counts, and the edges that are pending.
use data_ops_studio_v.Base.{
  ℕ, ◌+◌, ◌≤◌, ◌≡◌, refl, String, Bool, true, false, not, none, some, List, [], ◌∷◌, ◌++◌, map,
  if◌then◌else◌, str_eq, str_eq_iff, ◌==◌, ◌&&◌, any, Dict, lookup, insert, lookup-insert, Result,
  ok, ap, arith, is_some, Bool-cases, Option-cases, inl, inr,
}
use data_ops_studio_v.Keys.{occurs, occurs-append, occurs-filterb}
use data_ops_studio_v.Workflow.{WorkflowNode, WorkflowEdge, PlanError}
use data_ops_studio_v.Workflow.Topology.{
  by_index, edge_targets, count_edges, no_degrees, sources_of, is_zero,
}

abbrev pub member : String → List String → Bool
member x xs = any (str_eq x) xs

-- The edges into `y` that do not come from `seen`.
unfoldable pub pending : List String → String → List WorkflowEdge → ℕ
pending seen y [] = 0
pending seen y (e ∷ es) =
    (if str_eq e.target y && not (member e.source seen) then 1 else 0) + pending seen y es

pub ok_eq : {A : Type 0} (a b : A) → ◌≡◌ {A = Result PlanError A} (ok a) (ok b) → a ≡ b
ok_eq a b e = cc

module _ (nodes : List WorkflowNode) where
  unfoldable pub count : String → List String → ℕ
  count y xs = occurs (by_index nodes) y xs

  unfoldable pub degree : String → Dict ℕ → ℕ
  degree y d = elim (lookup y d) [ none ↦ 0 | some n ↦ n ]

  pub member_of_count : (x : String) (xs : List String) → count x xs ≡ 0 → member x xs ≡ false
  unfolding count occurs
  member_of_count x [] h = refl
  member_of_count x (y ∷ xs) h =
      ground (arith, str_eq_iff x y, str_eq_iff y x, member_of_count x xs)

  -- Taking `x` in settles the edges from `x` to `y`.
  pub pending-cons :
      (seen : List String) (x y : String) (edges : List WorkflowEdge)
      → member x seen ≡ false
      → pending seen y edges ≡ pending (x ∷ seen) y edges + count y (edge_targets x edges)
  unfolding pending count occurs
  pending-cons seen x y [] h = refl
  pending-cons seen x y (e ∷ es) h = elim (Bool-cases (str_eq e.source x)) [
    | inl from ↦
        let same : e.source ≡ x = (str_eq_iff e.source x).0 from in
        let out : member e.source seen ≡ false = rw same h in
        rw (from, out) (ground (arith, pending-cons seen x y es h))
    | inr other ↦ rw other (ground (arith, pending-cons seen x y es h))
  ]

  pub count-snoc :
      (y t : String) (xs : List String)
      → count y (xs ++ t ∷ []) ≡ count y xs + (if str_eq t y then 1 else 0)
  unfolding count occurs
  count-snoc y t xs = ground (arith, occurs-append (by_index nodes) y xs (t ∷ []))

  pub count-nil : (y : String) → count y [] ≡ 0
  unfolding count occurs
  count-nil y = refl

  pub count-cons :
      (y t : String) (xs : List String)
      → count y (t ∷ xs) ≡ (if str_eq t y then 1 else 0) + count y xs
  unfolding count occurs
  count-cons y t xs = refl

  pub degree-insert :
      (y t : String) (n : ℕ) (d : Dict ℕ)
      → degree y (insert t n d) ≡ (if str_eq t y then n else degree y d)
  unfolding degree
  degree-insert y t n d = ground (arith, lookup-insert t y n d)

  pub degree_here :
      (t y : String) (n : ℕ) (d : Dict ℕ) → lookup t d ≡ some n → str_eq t y ≡ true → degree y d ≡ n
  unfolding degree
  degree_here t y n d here same =
      let e = (str_eq_iff t y).0 same in ground (arith, ap (λ x. lookup x d) e)

  pub degree-no_degrees : (y : String) (ns : List WorkflowNode) → degree y (no_degrees ns) ≡ 0
  unfolding degree no_degrees lookup
  degree-no_degrees y [] = refl
  degree-no_degrees y (n ∷ ns) = ground (arith, degree-no_degrees y ns)

  pub degree-count_edges :
      (y : String) (es : List WorkflowEdge) (d d' : Dict ℕ)
      → count_edges es d ≡ ok d'
      → degree y d' ≡ degree y d + pending [] y es
  unfolding count_edges pending
  degree-count_edges y [] d d' e = ground (arith, ap (degree y) (ok_eq d d' e))
  degree-count_edges y (f ∷ es) d d' e = elim (Bool-cases (is_some (lookup f.source d))) [
    | inr missing ↦ let clash = (rw (missing, count_edges) at e) in cc
    | inl known ↦ elim (Option-cases (lookup f.target d)) [
      | inl missing ↦ let clash = (rw (known, missing, count_edges) at e) in cc
      | inr (n, here) ↦
          let rest =
            degree-count_edges y es (insert f.target (n + 1) d) d'
              (rw (known, here, count_edges) at e) in
          elim (Bool-cases (str_eq f.target y)) [
            | inl same ↦ ground (
              arith,
              rest,
              degree-insert y f.target (n + 1) d,
              degree_here f.target y n d here same,
            )
            | inr other ↦ ground (arith, rest, degree-insert y f.target (n + 1) d)
          ]
    ]
  ]

  -- At the start an id is ready or has a degree above 0.
  pub first_places :
      (d : Dict ℕ) (y : String)
      → count y (map (λ (n : WorkflowNode). n.id) nodes) ≤ 1
      → count y [] + count y (sources_of nodes d) + (if degree y d == 0 then 0 else 1) ≤ 1
  unfolding sources_of degree count
  first_places d y one = ground (
    arith,
    count-nil y,
    occurs-filterb (by_index nodes) (λ id. is_zero (lookup id d)) y
        (map (λ (n : WorkflowNode). n.id) nodes),
  )
