-- ===== src/Workflow/Routed.antt =====
-- The planner of app/domain/workflow_execution.py never fails to find a default edge, for a workflow
-- that passes the checks of app/domain/workflow.py.
use data_ops_studio_v.Base.{
  ℕ, ◌≡◌, ◌≢◌, ◌∙◌, ◌⊎◌, if◌then◌else◌, refl, ap, sym, String, Bool, true, false, not, Option, none,
  some, List, [], ◌∷◌, str_eq, str_eq_iff, ◌==◌, filterb, length, Dict, Result, ok, raise, raise_if,
  ◌>>=◌, arith, Bool-cases, Option-cases, inl, inr, Elem,
}
use data_ops_studio_v.Workflow.{
  WorkflowNode, WorkflowEdge, WorkflowNodeState, Trigger, PlanError, stop_iteration, Evaluator,
}
use data_ops_studio_v.Workflow.Route.{
  Routes, is_branch, trigger_eq, outgoing_edges, find_route, find_node, default_edge,
  selected_route, found,
}
use data_ops_studio_v.Workflow.Validate.{
  SpecError, on_trigger, is_empty, validate_first_match_routes, validate_success_routes,
  validate_failure_routes, validate_node_routes, validate_routes, missing_failure_route,
  invalid_failure_routes,
}
use data_ops_studio_v.Workflow.Validated.{passed, not_raised}

has_default :
    (edges : List WorkflowEdge)
    → (length (filterb (λ (e : WorkflowEdge). e.is_default) edges) == 1) ≡ true
    → (e : WorkflowEdge) × (default_edge edges ≡ ok e)
unfolding default_edge
has_default [] h = absurd (ground arith)
has_default (e ∷ es) h = elim (Bool-cases e.is_default) [
  | inl default ↦ (e, rw default refl)
  | inr other ↦ let (d, found) = has_default es (rw other at h) in (d, rw other found)
]

first_match_routes-default :
    (edges : List WorkflowEdge) (n : ℕ) (c : SpecError)
    → validate_first_match_routes edges n c ≡ ok tt
    → (e : WorkflowEdge) × (default_edge edges ≡ ok e)
unfolding validate_first_match_routes
first_match_routes-default edges n c h =
    let right = not_raised _ _ h in has_default edges (ground arith)

-- There is a default edge.
abbrev pub HasDefault : List WorkflowEdge → Type 0
HasDefault edges = (e : WorkflowEdge) × (default_edge edges ≡ ok e)

pub success_routes-HasDefault :
    (node : WorkflowNode) (outgoing : List WorkflowEdge)
    → str_eq node.job_kind "branch" ≡ true
    → validate_node_routes node outgoing ≡ ok tt
    → HasDefault (on_trigger Trigger.success outgoing)
unfolding validate_node_routes validate_success_routes
success_routes-HasDefault node outgoing branch h =
    let success =
      (passed (validate_success_routes node (on_trigger Trigger.success outgoing))
        (validate_failure_routes node (on_trigger Trigger.failure outgoing)) h).0 in
    first_match_routes-default (on_trigger Trigger.success outgoing) 2 _ (rw branch at success)

-- A node that has edges of trigger "failure", or whose failure branches, has a default among them.
pub failure_routes-HasDefault :
    (node : WorkflowNode) (outgoing : List WorkflowEdge)
    → ((is_branch node.on_failure ≡ true)
        ⊎ (is_empty (on_trigger Trigger.failure outgoing) ≡ false))
    → validate_node_routes node outgoing ≡ ok tt
    → HasDefault (on_trigger Trigger.failure outgoing)
unfolding validate_node_routes validate_failure_routes
failure_routes-HasDefault node outgoing needed h =
    let edges = on_trigger Trigger.failure outgoing in
    let failure =
      (passed (validate_success_routes node (on_trigger Trigger.success outgoing))
        (validate_failure_routes node edges) h).1 in
    elim (Bool-cases (is_branch node.on_failure)) [
      | inl branch ↦
          let routes =
            (passed (raise_if (is_empty edges) missing_failure_route)
              (validate_first_match_routes edges 1 invalid_failure_routes)
              (rw branch at failure)).1 in
          first_match_routes-default edges 1 _ routes
      | inr other ↦
          let none_there : not (is_empty edges) ≡ false =
            not_raised _ _ (rw (other, validate_failure_routes) at failure) in
          absurd (grind arith)
    ]

pub routes_of :
    (ns : List WorkflowNode) (edges : List WorkflowEdge) (node : WorkflowNode)
    → validate_routes ns edges ≡ ok tt
    → Elem node ns
    → validate_node_routes node (outgoing_edges node.id edges) ≡ ok tt
unfolding validate_routes
routes_of [] edges node h m = absurd m
routes_of (n ∷ ns) edges node h (inl e) = let (here, rest) = passed _ _ h in rw e here
routes_of (n ∷ ns) edges node h (inr m) =
    let (here, rest) = passed _ _ h in routes_of ns edges node rest m

-- A result that is not the `StopIteration` of `next`.
abbrev pub Goes : {A : Type 0} → Result PlanError A → Type 0
Goes (ok a) = Unit
Goes (raise e) = e ≢ stop_iteration

pub Goes-bind :
    {A B : Type 0} (m : Result PlanError A) (k : A → Result PlanError B)
    → Goes m
    → ((a : A) → m ≡ ok a → Goes (k a))
    → Goes (m >>= k)
Goes-bind (ok a) k h later = later a refl
Goes-bind (raise e) k h later = h

pub Goes-if :
    {A : Type 0} (b : Bool) (m k : Result PlanError A)
    → (b ≡ true → Goes m)
    → (b ≡ false → Goes k)
    → Goes (if b then m else k)
Goes-if true m k h l = h refl
Goes-if false m k h l = l refl

pub Goes-found : {A : Type 0} (o : Option A) → Goes (found o)
Goes-found none = λ e. cc
Goes-found (some a) = tt

pub Goes-selected_route :
    (ev : Evaluator) (id : String) (t : Trigger) (edges : List WorkflowEdge)
    (states : Dict WorkflowNodeState) (cache : Routes)
    → HasDefault (on_trigger t edges)
    → Goes (selected_route ev id t edges states cache)
unfolding selected_route
Goes-selected_route ev id t edges states cache (e, default) =
    elim (Option-cases (find_route id t cache)) [
      | inl new ↦ rw (new, default, selected_route) tt
      | inr (r, old) ↦ rw (old, selected_route) tt
    ]

pub find_node-Elem :
    (id : String) (nodes : List WorkflowNode) (n : WorkflowNode)
    → find_node id nodes ≡ some n
    → Elem n nodes × (n.id ≡ id)
find_node-Elem id [] n h = absurd (let no : none ≡ some n = h in cc)
find_node-Elem id (m ∷ ms) n h = elim (Bool-cases (str_eq m.id id)) [
  | inl same ↦
      let here : some m ≡ some n = rw same at h in
      let eq : m ≡ n = cc in
      (inl (sym eq), ap (λ (x : WorkflowNode). x.id) (sym eq) ∙ (str_eq_iff m.id id).0 same)
  | inr other ↦ let (there, named) = find_node-Elem id ms n (rw other at h) in (inr there, named)
]

pub filterb-Elem :
    {A : Type 0} (p : A → Bool) (xs : List A) (x : A) → Elem x (filterb p xs) → Elem x xs
filterb-Elem p [] x h = h
filterb-Elem p (y ∷ ys) x h = elim (Bool-cases (p y)) [
  | inr other ↦ inr (filterb-Elem p ys x (rw other at h))
  | inl kept ↦ elim (let g : (x ≡ y) ⊎ Elem x (filterb p ys) = rw kept at h in g) [
    | inl here ↦ inl here
    | inr there ↦ inr (filterb-Elem p ys x there)
  ]
]

-- An edge of trigger "failure" is among those of its source.
pub failure_edge-there :
    (edges : List WorkflowEdge) (edge : WorkflowEdge)
    → Elem edge edges
    → trigger_eq edge.trigger Trigger.failure ≡ true
    → is_empty (on_trigger Trigger.failure (outgoing_edges edge.source edges)) ≡ false
failure_edge-there [] edge m t = absurd m
failure_edge-there (f ∷ fs) edge (inl e) t =
    let own : str_eq f.source edge.source ≡ true =
      (str_eq_iff f.source edge.source).1 (ap (λ (x : WorkflowEdge). x.source) (sym e)) in
    let here : trigger_eq f.trigger Trigger.failure ≡ true =
      sym (ap (λ (x : WorkflowEdge). trigger_eq x.trigger Trigger.failure) e) ∙ t in
    rw (own, here) refl
failure_edge-there (f ∷ fs) edge (inr m) t =
    let rest = failure_edge-there fs edge m t in
    elim (Bool-cases (str_eq f.source edge.source)) [
      | inr other ↦ rw other rest
      | inl own ↦ elim (Bool-cases (trigger_eq f.trigger Trigger.failure)) [
        | inl here ↦ rw (own, here) refl
        | inr success ↦ rw (own, success) rest
      ]
    ]

pub not_success :
    (t : Trigger) → trigger_eq t Trigger.success ≡ false → trigger_eq t Trigger.failure ≡ true
not_success Trigger.success h = cc
not_success Trigger.failure h = refl
