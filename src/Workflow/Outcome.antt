-- ===== src/Workflow/Outcome.antt =====
-- What the plan of one step says of the run as a whole.
use data_ops_studio_v.Base.{
  ◌≡◌, refl, true, false, none, some, List, [], ◌∷◌, all, filterb, arith, Dict, values, All,
  Bool-cases, Option-cases, inl, inr, ◌⊎◌, Result, ok, >>=-eq-ok, subst,
}
use data_ops_studio_v.JobBackend.{JobStatus}
use data_ops_studio_v.Workflow.{
  WorkflowNode, WorkflowNodeState, WorkflowStepPlan, Evaluator, is_terminal, PlanError,
}
use data_ops_studio_v.Workflow.Loop.{Progress, StepInput, visit_all}
use data_ops_studio_v.Workflow.Plan.{
  cancel_states, conclude, over, abort_error, is_bad, plan_workflow_step, no_progress,
}

abbrev pub Terminal : WorkflowNodeState → Type 0
Terminal s = is_terminal s.status ≡ true

pub ok_eq :
    (a b : WorkflowStepPlan) → ◌≡◌ {A = Result PlanError WorkflowStepPlan} (ok a) (ok b) → a ≡ b
ok_eq a b e = cc

cancel_states-Terminal :
    (states : Dict WorkflowNodeState) → All Terminal (values (cancel_states states))
unfolding cancel_states is_terminal
cancel_states-Terminal [] = tt
cancel_states-Terminal ((id, s) ∷ rest) = elim (Bool-cases (is_terminal s.status)) [
  | inl over ↦ (rw over over, cancel_states-Terminal rest)
  | inr live ↦ (rw live refl, cancel_states-Terminal rest)
]

all-Terminal :
    (states : List WorkflowNodeState)
    → all (λ s. is_terminal s.status) states ≡ true
    → All Terminal states
all-Terminal [] h = tt
all-Terminal (s ∷ rest) h = elim (Bool-cases (is_terminal s.status)) [
  | inl over ↦ (over, all-Terminal rest (rw over at h))
  | inr live ↦ absurd (let e = (rw live at h) in ground arith)
]

-- The run is over: every node is, and nothing is started or retried.
abbrev pub IsClosed : WorkflowStepPlan → Type 0
IsClosed plan =
    All Terminal (values plan.node_states)
    × (plan.enqueue_node_ids ≡ [])
    × (plan.retry_job_ids ≡ [])

-- The run goes on: some node is not over, and no job is cancelled.
abbrev pub IsOpen : WorkflowStepPlan → Type 0
IsOpen plan =
    (plan.run_status ≡ none)
    × (all (λ s. is_terminal s.status) (values plan.node_states) ≡ false)
    × (plan.cancel_job_ids ≡ [])

-- The run has succeeded: no node has failed or been cancelled, and no job is cancelled.
abbrev pub IsSuccess : WorkflowStepPlan → Type 0
IsSuccess plan =
    (plan.run_status ≡ some JobStatus.success)
    × (filterb is_bad (values plan.node_states) ≡ [])
    × (plan.cancel_job_ids ≡ [])

abbrev pub Outcome : WorkflowStepPlan → Type 0
Outcome plan =
    IsOpen plan ⊎ (IsClosed plan × ((plan.run_status ≡ some JobStatus.failed) ⊎ IsSuccess plan))

pub list_cases :
    (xs : List WorkflowNodeState)
    → (xs ≡ []) ⊎ ((x : WorkflowNodeState) × (rest : List WorkflowNodeState) × (xs ≡ x ∷ rest))
list_cases [] = inl refl
list_cases (x ∷ rest) = inr (x, rest, refl)

conclude-Outcome : (input : StepInput) (p : Progress) → Outcome (conclude input p)
unfolding conclude over
conclude-Outcome input p = elim (Option-cases (abort_error input.spec.nodes p.states)) [
  | inr (message, aborted) ↦
      rw (aborted, conclude) (inr ((cancel_states-Terminal p.states, refl, refl), inl refl))
  | inl goes_on ↦ elim (Bool-cases (all (λ s. is_terminal s.status) (values p.states))) [
    | inr live ↦ rw (goes_on, live, conclude) (inl (refl, live, refl))
    | inl closed ↦ elim (list_cases (filterb is_bad (values p.states))) [
      | inl good ↦
          rw (goes_on, closed, good, conclude)
            (inr ((all-Terminal (values p.states) closed, refl, refl), inr (refl, good, refl)))
      | inr (s, rest, bad) ↦
          rw (goes_on, closed, bad, conclude)
            (inr ((all-Terminal (values p.states) closed, refl, refl), inl refl))
    ]
  ]
]

-- A step that does not raise has one of three outcomes. Either the run goes on, with a node that
-- is not over and no job cancelled; or every node is over, nothing is started or retried, and the
-- run has failed, or it has succeeded with no node failed or cancelled and no job to cancel.
pub plan_workflow_step-Outcome :
    (ev : Evaluator) (input : StepInput) (order : List WorkflowNode) (plan : WorkflowStepPlan)
    → plan_workflow_step ev input order ≡ ok plan
    → Outcome plan
unfolding plan_workflow_step
plan_workflow_step-Outcome ev input order plan done =
    let (p, first, last) =
      >>=-eq-ok (visit_all ev input order no_progress) (λ q. ok (conclude input q)) done in
    subst Outcome (ok_eq (conclude input p) plan last) (conclude-Outcome input p)
