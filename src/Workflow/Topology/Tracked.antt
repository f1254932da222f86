-- ===== src/Workflow/Topology/Tracked.antt =====
-- The invariant of the loop of Kahn's algorithm, and the order that it gives.
use data_ops_studio_v.Base.{
  ℕ, zero, suc, ◌+◌, ◌-◌, ◌≤◌, ◌≡◌, String, false, some, List, [], ◌∷◌, ◌++◌, if◌then◌else◌, str_eq,
  str_eq_refl, ◌==◌, Dict, lookup, insert, ok, >>=-eq-ok, ◌>>=◌, subst, arith, Bool-cases,
  Option-cases, inl, inr,
}
use data_ops_studio_v.Sql.{order_by}
use data_ops_studio_v.Keys.{occurs-order_by}
use data_ops_studio_v.Workflow.{WorkflowNode, WorkflowEdge}
use data_ops_studio_v.Workflow.Topology.{by_index, edge_targets, release, kahn}
use data_ops_studio_v.Workflow.Topology.Degrees.{
  pending, ok_eq, count, degree, member_of_count, pending-cons, count-snoc, count-nil, count-cons,
  degree-insert, degree_here, member,
}

-- No edge into an id comes from an id that does not stand before it, or in `seen`.
abbrev pub Follows : List WorkflowEdge → List String → List String → Type 0
Follows edges seen [] = Unit
Follows edges seen (x ∷ ids) = (pending seen x edges ≡ 0) × Follows edges (x ∷ seen) ids

module _ (nodes : List WorkflowNode) (edges : List WorkflowEdge) where
  -- Each degree nodes counts the edges from ids that are not popped, `todo` aside, and an id is popped, or
  -- is ready, or has a degree nodes above 0, and only one of these.
  pub record IsTracked (seen : List String) (d : Dict ℕ) (ready todo : List String) : Type 0 where
    pub degrees : (y : String) → degree nodes y d ≡ pending seen y edges + count nodes y todo
    pub places :
        (y : String)
        → count nodes y seen + count nodes y ready + (if degree nodes y d == 0 then 0 else 1) ≤ 1

  one_release :
      (seen : List String) (d : Dict ℕ) (ready : List String) (t : String) (ts : List String)
      (n : ℕ)
      → lookup t d ≡ some n
      → IsTracked seen d ready (t ∷ ts)
      → IsTracked seen (insert t (n - 1) d) (if n == 1 then ready ++ t ∷ [] else ready) ts
  one_release seen d ready t ts n here h = record {
    degrees = λ y. elim (Bool-cases (str_eq t y)) [
      | inl same ↦
          let was = degree_here nodes t y n d here same in
          ground (arith, h.degrees y, degree-insert nodes y t (n - 1) d, count-cons nodes y t ts)
      | inr other ↦
          ground (arith, h.degrees y, degree-insert nodes y t (n - 1) d, count-cons nodes y t ts)
    ];
    places = λ y. elim (Bool-cases (n == 1)) [
      | inl last ↦ rw last (elim (Bool-cases (str_eq t y)) [
        | inl same ↦
            let was = degree_here nodes t y n d here same in
            ground
              (arith, h.places y, degree-insert nodes y t (n - 1) d, count-snoc nodes y t ready)
        | inr other ↦
            ground
              (arith, h.places y, degree-insert nodes y t (n - 1) d, count-snoc nodes y t ready)
      ])
      | inr more ↦ rw more (elim (Bool-cases (str_eq t y)) [
        | inl same ↦
            let was = degree_here nodes t y n d here same in
            ground (
              arith,
              h.places y,
              h.degrees y,
              degree-insert nodes y t (n - 1) d,
              count-cons nodes y t ts,
            )
        | inr other ↦ ground (arith, h.places y, degree-insert nodes y t (n - 1) d)
      ])
    ];
  }

  release-IsTracked :
      (seen : List String) (ts : List String) (d d' : Dict ℕ) (ready ready' : List String)
      → IsTracked seen d ready ts
      → release ts d ready ≡ ok (d', ready')
      → IsTracked seen d' ready' []
  unfolding release
  release-IsTracked seen [] d d' ready ready' h e =
      subst (λ q. IsTracked seen q.0 q.1 []) (ok_eq (d, ready) (d', ready') e) h
  release-IsTracked seen (t ∷ ts) d d' ready ready' h e = elim (Option-cases (lookup t d)) [
    | inl missing ↦ let clash = (rw (missing, release) at e) in cc
    | inr (n, here) ↦
        release-IsTracked seen ts (insert t (n - 1) d) d'
          (if n == 1 then ready ++ t ∷ [] else ready) ready'
          (one_release seen d ready t ts n here h) (rw (here, release) at e)
  ]

  -- Popping the head of the queue.
  pop-IsTracked :
      (seen : List String) (d : Dict ℕ) (x : String) (rest : List String)
      → IsTracked seen d (x ∷ rest) []
      → IsTracked (x ∷ seen) d rest (edge_targets x edges) × (pending seen x edges ≡ 0)
  pop-IsTracked seen d x rest h =
      let alone = h.places x in
      let counted = h.degrees x in
      let first : count nodes x (x ∷ rest) ≡ 1 + count nodes x rest =
        ground (arith, count-cons nodes x x rest, str_eq_refl x) in
      let settled : pending seen x edges ≡ 0 = ground (arith, count-nil nodes x) in
      let new : member x seen ≡ false = member_of_count nodes x seen (ground arith) in
      (
        record {
          degrees = λ y.
              omega (arith, h.degrees y, count-nil nodes y, pending-cons nodes seen x y edges new);
          places =
              λ y. omega (arith, h.places y, count-cons nodes y x rest, count-cons nodes y x seen);
        },
        settled,
      )

  pub sorted-IsTracked :
      (seen : List String) (d : Dict ℕ) (ready : List String)
      → IsTracked seen d ready []
      → IsTracked seen d (order_by (by_index nodes).precedes ready) []
  unfolding count
  sorted-IsTracked seen d ready h = record {
    degrees = h.degrees;
    places = λ y. rw (occurs-order_by (by_index nodes) y ready) (h.places y);
  }

  pub kahn-Follows :
      (fuel : ℕ) (seen : List String) (d : Dict ℕ) (ready ids : List String)
      → IsTracked seen d ready []
      → kahn fuel nodes edges d ready ≡ ok ids
      → Follows edges seen ids
  unfolding kahn
  kahn-Follows fuel seen d [] ids h e = subst (Follows edges seen) (ok_eq [] ids e) tt
  kahn-Follows zero seen d (x ∷ rest) ids h e = cc
  kahn-Follows (suc fuel) seen d (x ∷ rest) ids h e =
      let ((d', ready), first, rest_of) =
        >>=-eq-ok (release (edge_targets x edges) d rest)
          (λ q. kahn fuel nodes edges q.0 (order_by (by_index nodes).precedes q.1) >>= λ later.
            ok (x ∷ later))
          e in
      let (later, second, last) =
        >>=-eq-ok (kahn fuel nodes edges d' (order_by (by_index nodes).precedes ready))
          (λ ids. ok (x ∷ ids)) rest_of in
      let (popped, settled) = pop-IsTracked seen d x rest h in
      let tracked =
        release-IsTracked (x ∷ seen) (edge_targets x edges) d d' rest ready popped first in
      subst (Follows edges seen) (ok_eq (x ∷ later) ids last) (
        settled,
        kahn-Follows fuel (x ∷ seen) d' _ later (sorted-IsTracked (x ∷ seen) d' ready tracked)
            second,
      )
