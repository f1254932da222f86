-- ===== src/Workflow/Turn.antt =====
-- One turn of the loop starts the node that it is about, or none.
use data_ops_studio_v.Base.{
  ◌≡◌, refl, String, List, [], ◌∷◌, ◌++◌, str_eq, Bool-cases, inl, inr, ◌⊎◌, Result, ok, raise, any,
  all,
}
use data_ops_studio_v.Workflow.{
  WorkflowNode, WorkflowNodeState, EdgeDecision, Trigger, PlanError, Evaluator,
}
use data_ops_studio_v.Workflow.Route.{
  outgoing_edges, output_context, selected_route, with_failure_route_error,
}
use data_ops_studio_v.Workflow.Loop.{
  Progress, StepInput, settle_failure, start_branch, start_node, start, ready_node, decided_node,
  put_state, is_waiting, is_inactive, is_blocked,
}

-- The node is started, or none is.
abbrev pub Starts : String → Progress → Result PlanError Progress → Type 0
Starts id p (raise e) = Unit
Starts id p (ok p') = (p'.enqueue ≡ p.enqueue) ⊎ (p'.enqueue ≡ p.enqueue ++ id ∷ [])

pub route_cases :
    {A B : Type 0} (r : Result A B) → ((e : A) × (r ≡ raise e)) ⊎ ((b : B) × (r ≡ ok b))
route_cases (raise e) = inl (e, refl)
route_cases (ok b) = inr (b, refl)

settle_failure-Starts :
    (ev : Evaluator) (input : StepInput) (node : WorkflowNode) (s : WorkflowNodeState)
    (p : Progress)
    → Starts node.id p (settle_failure ev input node s p)
unfolding settle_failure
settle_failure-Starts ev input node s p =
    let r =
      with_failure_route_error ev node s (outgoing_edges node.id input.spec.edges)
        (put_state p node.id s).states p.route_selections in
    elim (route_cases r) [
      | inl (e, failed) ↦ rw (failed, settle_failure) tt
      | inr (next, done) ↦ rw (done, settle_failure) (inl refl)
    ]

start_branch-Starts :
    (ev : Evaluator) (input : StepInput) (node : WorkflowNode) (p : Progress)
    → Starts node.id p (start_branch ev input node p)
unfolding start_branch start
start_branch-Starts ev input node p =
    let r =
      selected_route ev node.id Trigger.success (outgoing_edges node.id input.spec.edges) p.states
        p.route_selections in
    elim (route_cases r) [
      | inl (e, failed) ↦ rw (failed, start_branch) tt
      | inr ((route, routes), done) ↦ elim (route_cases route) [
        | inl (e, unmatched) ↦
            rw (done, unmatched, start_branch)
              (settle_failure-Starts ev input node _ (record p { route_selections = routes }))
        | inr (target, chosen) ↦ rw (done, chosen, start_branch) (inr refl)
      ]
    ]

start_node-Starts :
    (ev : Evaluator) (input : StepInput) (node : WorkflowNode) (p : Progress)
    → Starts node.id p (start_node ev input node p)
unfolding start_node start
start_node-Starts ev input node p = elim (Bool-cases (str_eq node.job_kind "branch")) [
  | inl branch ↦ rw (branch, start_node) (start_branch-Starts ev input node p)
  | inr other ↦ rw (other, start_node) (inr refl)
]

ready_node-Starts :
    (ev : Evaluator) (input : StepInput) (node : WorkflowNode) (p : Progress)
    → Starts node.id p (ready_node ev input node p)
unfolding ready_node
ready_node-Starts ev input node p =
    elim (route_cases (ev.evaluate_when node.when (output_context p.states))) [
      | inl (e, failed) ↦ rw (failed, ready_node) (settle_failure-Starts ev input node _ p)
      | inr (should_run, held) ↦ elim (Bool-cases should_run) [
        | inr skip ↦ rw (held, skip, ready_node) (inl refl)
        | inl run ↦
            elim (route_cases (ev.interpolate_payload node.payload (output_context p.states))) [
              | inl (e, failed) ↦
                  rw (held, run, failed, ready_node) (settle_failure-Starts ev input node _ p)
              | inr (u, filled) ↦
                  rw (held, run, filled, ready_node) (start_node-Starts ev input node p)
            ]
      ]
    ]

pub decided_node-Starts :
    (ev : Evaluator) (input : StepInput) (node : WorkflowNode) (ds : List EdgeDecision)
    (p : Progress)
    → Starts node.id p (decided_node ev input node ds p)
unfolding decided_node
decided_node-Starts ev input node [] p = ready_node-Starts ev input node p
decided_node-Starts ev input node (d ∷ ds) p = elim (Bool-cases (any is_waiting (d ∷ ds))) [
  | inl waits ↦ rw waits (inl refl)
  | inr goes ↦ elim (Bool-cases (all is_inactive (d ∷ ds))) [
    | inl off ↦ rw (goes, off) (inl refl)
    | inr on ↦ elim (Bool-cases (any is_blocked (d ∷ ds))) [
      | inl shut ↦ rw (goes, on, shut) (inl refl)
      | inr free ↦ rw (goes, on, free) (ready_node-Starts ev input node p)
    ]
  ]
]
