-- ===== src/Workflow/Enqueue.antt =====
-- Which nodes a step of a workflow starts.
use data_ops_studio_v.Base.{
  ◌≡◌, String, none, some, List, [], ◌∷◌, ◌++◌, str_eq, values, lookup, Bool-cases, Option-cases,
  inl, inr, Result, ok, raise, >>=-eq-ok, All, all, filterb, subst,
}
use data_ops_studio_v.Workflow.{
  WorkflowNode, WorkflowChildJob, WorkflowNodeState, WorkflowStepPlan, PlanError, Evaluator,
  is_terminal,
}
use data_ops_studio_v.Workflow.Child.{node_output_fields, state_from_child}
use data_ops_studio_v.Workflow.Route.{outgoing_edges, edge_decisions, with_failure_route_error}
use data_ops_studio_v.Workflow.Outcome.{list_cases, ok_eq}
use data_ops_studio_v.Workflow.Turn.{Starts, route_cases, decided_node-Starts}
use data_ops_studio_v.Workflow.Loop.{
  Progress, StepInput, settle_failure, visit, visit_all, put_state,
}
use data_ops_studio_v.Workflow.Plan.{
  conclude, over, abort_error, plan_workflow_step, no_progress, is_bad,
}

-- No node that has a job is on the list.
abbrev pub HasNoJob : StepInput → String → Type 0
HasNoJob input id = lookup id input.children ≡ none

abbrev Kept : StepInput → Progress → Result PlanError Progress → Type 0
Kept input p (raise e) = Unit
Kept input p (ok p') = All (HasNoJob input) p.enqueue → All (HasNoJob input) p'.enqueue

All-snoc :
    (input : StepInput) (ids : List String) (id : String)
    → All (HasNoJob input) ids
    → HasNoJob input id
    → All (HasNoJob input) (ids ++ id ∷ [])
All-snoc input [] id h new = (new, tt)
All-snoc input (j ∷ ids) id h new = (h.0, All-snoc input ids id h.1 new)

Starts-Kept :
    (input : StepInput) (id : String) (p : Progress) (r : Result PlanError Progress)
    → HasNoJob input id
    → Starts id p r
    → Kept input p r
Starts-Kept input id p (raise e) free s = tt
Starts-Kept input id p (ok p') free (inl same) = λ h. rw same h
Starts-Kept input id p (ok p') free (inr more) = λ h. rw more (All-snoc input p.enqueue id h free)

settle_failure-Kept :
    (ev : Evaluator) (input : StepInput) (node : WorkflowNode) (s : WorkflowNodeState)
    (p : Progress)
    → Kept input p (settle_failure ev input node s p)
unfolding settle_failure
settle_failure-Kept ev input node s p =
    let r =
      with_failure_route_error ev node s (outgoing_edges node.id input.spec.edges)
        (put_state p node.id s).states p.route_selections in
    elim (route_cases r) [
      | inl (e, failed) ↦ rw (failed, settle_failure) tt
      | inr (next, done) ↦ rw (done, settle_failure) (λ h. h)
    ]

visit_child-Kept :
    (ev : Evaluator) (input : StepInput) (node : WorkflowNode) (p : Progress)
    (child : WorkflowChildJob)
    → lookup node.id input.children ≡ some child
    → Kept input p (visit ev input node p)
unfolding visit
visit_child-Kept ev input node p child has_job =
    elim (Option-cases (node_output_fields node.job_kind)) [
      | inl unknown ↦ rw (has_job, unknown, visit) tt
      | inr (allowed, known) ↦
          let next =
            state_from_child allowed node child input.now input.default_max_retries p.retries in
          rw (has_job, known, visit)
            (settle_failure-Kept ev input node next.0 (record p { retries = next.1 }))
    ]

visit_new-Kept :
    (ev : Evaluator) (input : StepInput) (node : WorkflowNode) (p : Progress)
    → lookup node.id input.children ≡ none
    → Kept input p (visit ev input node p)
unfolding visit
visit_new-Kept ev input node p no_job =
    let r =
      edge_decisions ev input.spec.nodes input.spec.edges
        (filterb (λ e. str_eq e.target node.id) input.spec.edges) p.states p.inactive_node_ids
        p.route_selections in
    elim (route_cases r) [
      | inl (e, failed) ↦ rw (no_job, failed, visit) tt
      | inr ((ds, routes), done) ↦
          rw (no_job, done, visit)
            (Starts-Kept input node.id (record p { route_selections = routes }) _ no_job
              (decided_node-Starts ev input node ds (record p { route_selections = routes })))
    ]

visit-Kept :
    (ev : Evaluator) (input : StepInput) (node : WorkflowNode) (p : Progress)
    → Kept input p (visit ev input node p)
visit-Kept ev input node p = elim (Option-cases (lookup node.id input.children)) [
  | inl no_job ↦ visit_new-Kept ev input node p no_job
  | inr (child, has_job) ↦ visit_child-Kept ev input node p child has_job
]

Kept-trans :
    (input : StepInput) (p q : Progress) (r : Result PlanError Progress)
    → (All (HasNoJob input) p.enqueue → All (HasNoJob input) q.enqueue)
    → Kept input q r
    → Kept input p r
Kept-trans input p q (raise e) f g = tt
Kept-trans input p q (ok p') f g = λ h. g (f h)

visit_all-Kept :
    (ev : Evaluator) (input : StepInput) (order : List WorkflowNode) (p : Progress)
    → Kept input p (visit_all ev input order p)
unfolding visit_all
visit_all-Kept ev input [] p = λ h. h
visit_all-Kept ev input (node ∷ rest) p = elim (route_cases (visit ev input node p)) [
  | inl (e, failed) ↦ rw failed tt
  | inr (p', done) ↦ rw done (
      Kept-trans input p p' (visit_all ev input rest p')
        (subst (Kept input p) done (visit-Kept ev input node p)) (visit_all-Kept ev input rest p'))
]

conclude-HasNoJob :
    (input : StepInput) (p : Progress)
    → All (HasNoJob input) p.enqueue
    → All (HasNoJob input) (conclude input p).enqueue_node_ids
unfolding conclude over
conclude-HasNoJob input p h = elim (Option-cases (abort_error input.spec.nodes p.states)) [
  | inr (message, aborted) ↦ rw (aborted, conclude) tt
  | inl goes_on ↦ elim (Bool-cases (all (λ s. is_terminal s.status) (values p.states))) [
    | inr live ↦ rw (goes_on, live, conclude) h
    | inl closed ↦ elim (list_cases (filterb is_bad (values p.states))) [
      | inl good ↦ rw (goes_on, closed, good, conclude) tt
      | inr (s, rest, bad) ↦ rw (goes_on, closed, bad, conclude) tt
    ]
  ]
]

-- A step never starts a node that has a job already: what it puts on the list are nodes without one.
pub plan_workflow_step-HasNoJob :
    (ev : Evaluator) (input : StepInput) (order : List WorkflowNode) (plan : WorkflowStepPlan)
    → plan_workflow_step ev input order ≡ ok plan
    → All (HasNoJob input) plan.enqueue_node_ids
unfolding plan_workflow_step
plan_workflow_step-HasNoJob ev input order plan done =
    let (p, first, last) =
      >>=-eq-ok (visit_all ev input order no_progress) (λ q. ok (conclude input q)) done in
    let kept = subst (Kept input no_progress) first (visit_all-Kept ev input order no_progress) in
    subst (λ q. All (HasNoJob input) q.enqueue_node_ids) (ok_eq (conclude input p) plan last)
      (conclude-HasNoJob input p (kept tt))
