-- ===== src/Workflow/Planned.antt =====
-- The step of app/domain/workflow_execution.py never fails to find a default edge, for a workflow that
-- passes the checks of app/domain/workflow.py.
use data_ops_studio_v.Base.{
  ◌≡◌, ◌≢◌, refl, subst, String, Bool, true, false, not, Option, none, some, List, [], ◌∷◌, ◌&&◌,
  str_eq, filterb, Dict, lookup, any, all, Result, ok, raise, Bool-cases, Option-cases, inl, inr,
  Elem, All,
}
use data_ops_studio_v.Workflow.{
  WorkflowNode, WorkflowEdge, WorkflowNodeState, Trigger, EdgeDecision, PlanError, stop_iteration,
  Evaluator, is_terminal,
}
use data_ops_studio_v.Workflow.Route.{
  Routes, is_branch, is_failed, trigger_eq, outgoing_edges, output_context, find_node,
  selected_route, found, failure_decision, edge_decision, edge_decisions, with_failure_route_error,
}
use data_ops_studio_v.Workflow.Child.{node_output_fields}
use data_ops_studio_v.Workflow.Loop.{
  Progress, StepInput, settle_failure, start_branch, start_node, ready_node, decided_node, visit,
  visit_all, put_state, is_waiting, is_inactive, is_blocked,
}
use data_ops_studio_v.Workflow.Plan.{plan_workflow_step, no_progress}
use data_ops_studio_v.Workflow.Turn.{route_cases}
use data_ops_studio_v.Workflow.Validate.{validate_node_routes, validate_routes, validate_dag}
use data_ops_studio_v.Workflow.Validated.{dag_parts}
use data_ops_studio_v.Workflow.Routed.{
  success_routes-HasDefault, failure_routes-HasDefault, routes_of, Goes, Goes-bind, Goes-if,
  Goes-found, Goes-selected_route, find_node-Elem, filterb-Elem, failure_edge-there, not_success,
}

module _ (ev : Evaluator) (input : StepInput)
    (valid : validate_routes input.spec.nodes input.spec.edges ≡ ok tt) where
  Goes-failure_decision :
      (edge : WorkflowEdge) (node : WorkflowNode) (state : WorkflowNodeState)
      (states : Dict WorkflowNodeState) (cache : Routes)
      → Elem edge input.spec.edges
      → trigger_eq edge.trigger Trigger.failure ≡ true
      → find_node edge.source input.spec.nodes ≡ some node
      → Goes (failure_decision ev input.spec.edges edge state states cache)
  unfolding failure_decision
  Goes-failure_decision edge node state states cache m t there =
      let edges = outgoing_edges edge.source input.spec.edges in
      let (inside, named) = find_node-Elem edge.source input.spec.nodes node there in
      let checked =
        subst (λ id. validate_node_routes node (outgoing_edges id input.spec.edges) ≡ ok tt) named
          (routes_of input.spec.nodes input.spec.edges node valid inside) in
      let default =
        failure_routes-HasDefault node edges (inr (failure_edge-there input.spec.edges edge m t))
          checked in
      Goes-if (not (is_failed state.status)) _ _ (λ _. tt)
        (λ _.
          Goes-bind (selected_route ev edge.source Trigger.failure edges states cache) _
            (Goes-selected_route ev edge.source Trigger.failure edges states cache default)
            (λ r _. tt))

  Goes-edge_decision :
      (edge : WorkflowEdge) (states : Dict WorkflowNodeState) (inactive : List String)
      (cache : Routes)
      → Elem edge input.spec.edges
      → Goes (edge_decision ev input.spec.nodes input.spec.edges edge states inactive cache)
  unfolding edge_decision
  Goes-edge_decision edge states inactive cache m =
      Goes-bind (found (lookup edge.source states)) _ (Goes-found (lookup edge.source states))
        (λ state _.
          Goes-if (not (is_terminal state.status)) _ _ (λ _. tt)
            (λ _.
              Goes-if (any (str_eq edge.source) inactive) _ _ (λ _. tt)
                (λ _.
                  Goes-bind (found (find_node edge.source input.spec.nodes)) _
                    (Goes-found (find_node edge.source input.spec.nodes))
                    (λ node there.
                      Goes-if (trigger_eq edge.trigger Trigger.success) _ _ (λ _. tt)
                        (λ failure.
                          Goes-failure_decision edge node state states cache m
                            (not_success edge.trigger failure) (was_found _ node there))))))
    where
      was_found : (o : Option WorkflowNode) (n : WorkflowNode) → found o ≡ ok n → o ≡ some n
      was_found none n h = cc
      was_found (some k) n h = cc

  Goes-edge_decisions :
      (es : List WorkflowEdge) (states : Dict WorkflowNodeState) (inactive : List String)
      (cache : Routes)
      → ((e : WorkflowEdge) → Elem e es → Elem e input.spec.edges)
      → Goes (edge_decisions ev input.spec.nodes input.spec.edges es states inactive cache)
  unfolding edge_decisions
  Goes-edge_decisions [] states inactive cache within = tt
  Goes-edge_decisions (e ∷ es) states inactive cache within =
      Goes-bind (edge_decision ev input.spec.nodes input.spec.edges e states inactive cache) _
        (Goes-edge_decision e states inactive cache (within e (inl refl)))
        (λ r _.
          Goes-bind (edge_decisions ev input.spec.nodes input.spec.edges es states inactive r.1) _
            (Goes-edge_decisions es states inactive r.1 (λ f m. within f (inr m))) (λ q _. tt))

  module _ (node : WorkflowNode) (inside : Elem node input.spec.nodes) where
    checked : validate_node_routes node (outgoing_edges node.id input.spec.edges) ≡ ok tt
    checked = routes_of input.spec.nodes input.spec.edges node valid inside

    Goes-with_failure_route_error :
        (state : WorkflowNodeState) (states : Dict WorkflowNodeState) (cache : Routes)
        → Goes (
            with_failure_route_error ev node state
              (outgoing_edges node.id input.spec.edges)
              states
              cache)
    unfolding with_failure_route_error
    Goes-with_failure_route_error state states cache =
        let edges = outgoing_edges node.id input.spec.edges in
        Goes-if (not (is_failed state.status && is_branch node.on_failure)) _ _ (λ _. tt)
          (λ h.
            Goes-bind (selected_route ev node.id Trigger.failure edges states cache) _
              (Goes-selected_route ev node.id Trigger.failure edges states cache
                (failure_routes-HasDefault node edges (inl (right _ _ h)) checked))
              (λ r _. tt))
      where
        right : (a b : Bool) → not (a && b) ≡ false → b ≡ true
        right true true h = refl
        right true false h = cc
        right false b h = cc

    Goes-settle_failure :
        (state : WorkflowNodeState) (p : Progress) → Goes (settle_failure ev input node state p)
    unfolding settle_failure
    Goes-settle_failure state p =
        Goes-bind
          (with_failure_route_error ev node state (outgoing_edges node.id input.spec.edges)
            (put_state p node.id state).states p.route_selections)
          _ (Goes-with_failure_route_error state _ p.route_selections) (λ r _. tt)

    Goes-start_branch :
        (p : Progress) → str_eq node.job_kind "branch" ≡ true → Goes (start_branch ev input node p)
    unfolding start_branch
    Goes-start_branch p branch =
        let edges = outgoing_edges node.id input.spec.edges in
        Goes-bind (selected_route ev node.id Trigger.success edges p.states p.route_selections) _
          (Goes-selected_route ev node.id Trigger.success edges p.states p.route_selections
            (success_routes-HasDefault node edges branch checked))
          (λ r _. elim (route_cases r.0) [
            | inl (e, unmatched) ↦ rw unmatched (Goes-settle_failure _ _)
            | inr (target, chosen) ↦ rw chosen tt
          ])

    Goes-start_node : (p : Progress) → Goes (start_node ev input node p)
    unfolding start_node
    Goes-start_node p =
        Goes-if (str_eq node.job_kind "branch") _ _ (λ branch. Goes-start_branch p branch) (λ _. tt)

    Goes-ready_node : (p : Progress) → Goes (ready_node ev input node p)
    unfolding ready_node
    Goes-ready_node p = elim (route_cases (ev.evaluate_when node.when (output_context p.states))) [
      | inl (e, failed) ↦ rw (failed, ready_node) (Goes-settle_failure _ p)
      | inr (should_run, held) ↦ elim (Bool-cases should_run) [
        | inr skip ↦ rw (held, skip, ready_node) tt
        | inl run ↦
            elim (route_cases (ev.interpolate_payload node.payload (output_context p.states))) [
              | inl (e, failed) ↦ rw (held, run, failed, ready_node) (Goes-settle_failure _ p)
              | inr (u, filled) ↦ rw (held, run, filled, ready_node) (Goes-start_node p)
            ]
      ]
    ]

    Goes-decided_node :
        (ds : List EdgeDecision) (p : Progress) → Goes (decided_node ev input node ds p)
    unfolding decided_node
    Goes-decided_node [] p = Goes-ready_node p
    Goes-decided_node (d ∷ ds) p =
        Goes-if (any is_waiting (d ∷ ds)) _ _ (λ _. tt)
          (λ _.
            Goes-if (all is_inactive (d ∷ ds)) _ _ (λ _. tt)
              (λ _. Goes-if (any is_blocked (d ∷ ds)) _ _ (λ _. tt) (λ _. Goes-ready_node p)))

    Goes-visit : (p : Progress) → Goes (visit ev input node p)
    unfolding visit
    Goes-visit p = elim (Option-cases (lookup node.id input.children)) [
      | inr (child, old) ↦
          rw (old, visit)
            (Goes-bind (found (node_output_fields node.job_kind)) _
              (Goes-found (node_output_fields node.job_kind))
              (λ allowed _. Goes-settle_failure _ _))
      | inl new ↦
          let incoming = filterb (λ (e : WorkflowEdge). str_eq e.target node.id) input.spec.edges in
          rw (new, visit)
            (Goes-bind
              (edge_decisions ev input.spec.nodes input.spec.edges incoming p.states
                p.inactive_node_ids p.route_selections)
              _
              (Goes-edge_decisions incoming p.states p.inactive_node_ids p.route_selections (λ e m.
                filterb-Elem (λ (f : WorkflowEdge). str_eq f.target node.id) input.spec.edges e m))
              (λ r _. Goes-decided_node r.0 _))
    ]

  Goes-visit_all :
      (order : List WorkflowNode) (p : Progress)
      → All (λ n. Elem n input.spec.nodes) order
      → Goes (visit_all ev input order p)
  unfolding visit_all
  Goes-visit_all [] p inside = tt
  Goes-visit_all (n ∷ ns) p inside =
      Goes-bind (visit ev input n p) _ (Goes-visit n inside.0 p)
        (λ q _. Goes-visit_all ns q inside.1)

Goes-ne : {A : Type 0} (m : Result PlanError A) → Goes m → m ≢ raise stop_iteration
Goes-ne (ok a) h e = cc
Goes-ne (raise k) h e = h (let same : k ≡ stop_iteration = cc in same)

-- For a workflow that passes the checks, and any nodes of it in any order: whatever the evaluators
-- answer and however the child jobs stand, no choice of a route in the step raises for want of a
-- default edge.
pub plan_workflow_step-ne-stop_iteration :
    (ev : Evaluator) (input : StepInput) (order : List WorkflowNode)
    → validate_dag input.spec ≡ ok tt
    → All (λ n. Elem n input.spec.nodes) order
    → plan_workflow_step ev input order ≢ raise stop_iteration
unfolding plan_workflow_step
plan_workflow_step-ne-stop_iteration ev input order valid inside = Goes-ne _ (
    Goes-bind (visit_all ev input order no_progress) _
      (Goes-visit_all ev input (dag_parts input.spec valid).1 order no_progress inside) (λ p _. tt))
