-- ===== src/Workflow/Route.antt =====
-- `_selected_route`, `_edge_decision` and `_with_failure_route_error` of
-- app/domain/workflow_execution.py. The cache of routes is passed along.
use Prim.Native.String.{◌++◌ as append}
use data_ops_studio_v.Base.{
  String, Bool, true, false, not, Option, none, some, List, [], ◌∷◌, ◌++◌, ◌&&◌, map, if◌then◌else◌,
  str_eq, any, filterb, Dict, lookup, insert, Result, ok, raise, ◌>>=◌, is_some,
}
use data_ops_studio_v.Base.Json.{Json, null, str}
use data_ops_studio_v.Workflow.{
  WorkflowNode, WorkflowEdge, WorkflowNodeState, WorkflowNodeExecStatus, EdgeDecision, Trigger,
  OnFailure, PlanError, key_error, stop_iteration, Evaluator, is_terminal,
}

-- The route taken: the target, or the message of a failed condition.
abbrev pub Route : Type 0
Route = Result String String

abbrev pub Routes : Type 0
Routes = List ((String × Trigger) × Route)

abbrev pub trigger_eq : Trigger → Trigger → Bool
trigger_eq Trigger.success Trigger.success = true
trigger_eq Trigger.failure Trigger.failure = true
trigger_eq _ _ = false

abbrev pub is_success : WorkflowNodeExecStatus → Bool
is_success WorkflowNodeExecStatus.success = true
is_success _ = false

abbrev pub is_failed : WorkflowNodeExecStatus → Bool
is_failed WorkflowNodeExecStatus.failed = true
is_failed _ = false

abbrev pub is_branch : OnFailure → Bool
is_branch OnFailure.branch = true
is_branch _ = false

abbrev pub outgoing_edges : String → List WorkflowEdge → List WorkflowEdge
outgoing_edges id edges = filterb (λ e. str_eq e.source id) edges

unfoldable pub output_context : Dict WorkflowNodeState → Dict (Dict Json)
output_context states = map (λ e. (e.0, e.1.outputs)) states

unfoldable pub find_route : String → Trigger → Routes → Option Route
find_route id t [] = none
find_route id t (((j, u), route) ∷ rest) =
    if str_eq j id && trigger_eq u t then some route else find_route id t rest

unfoldable pub default_edge : List WorkflowEdge → Result PlanError WorkflowEdge
default_edge [] = raise stop_iteration
default_edge (e ∷ es) = if e.is_default then ok e else default_edge es

-- The loop of `_selected_route`: the first edge whose condition holds, or the default.
unfoldable pub first_match : Evaluator → Dict (Dict Json) → String → List WorkflowEdge → Route
first_match ev context default [] = ok default
first_match ev context default (e ∷ es) =
    let rest = first_match ev context default es in
    if e.is_default then rest else elim (ev.evaluate_when e.when context) [
      | raise message ↦ raise message
      | ok holds ↦ if holds then ok e.target else rest
    ]

-- The outputs that a condition sees; those of a branch that is about to run stand in for it.
unfoldable pub route_context : String → Trigger → Dict WorkflowNodeState → Dict (Dict Json)
route_context id t states =
    let context = output_context states in
    if trigger_eq t Trigger.success && not (is_some (lookup id context))
    then insert id
        (("status", str "success")
          ∷ ("job_id", null)
          ∷ ("error_code", null)
          ∷ ("selected_target", null)
          ∷ [])
        context
    else context

unfoldable pub selected_route :
    Evaluator
    → String
    → Trigger
    → List WorkflowEdge
    → Dict WorkflowNodeState
    → Routes
    → Result PlanError (Route × Routes)
selected_route ev id t edges states cache = elim (find_route id t cache) [
  | some route ↦ ok (route, cache)
  | none ↦ do
    let matching = filterb (λ e. trigger_eq e.trigger t) edges
    default ← default_edge matching
    let decision = first_match ev (route_context id t states) default.target matching
    ok (decision, cache ++ ((id, t), decision) ∷ [])
]

abbrev pub takes : String → Route → Bool
takes target (ok selected) = str_eq selected target
takes target (raise message) = false

abbrev pub is_text : String → Option Json → Bool
is_text s none = false
is_text s (some value) = elim value [ str v ↦ str_eq v s | _ ↦ false ]

-- The decision over an edge of trigger "success" whose source is over.
unfoldable pub success_decision : WorkflowNode → WorkflowNodeState → String → EdgeDecision
success_decision node state target =
    if str_eq node.job_kind "branch"
    then if is_success state.status && is_text target (lookup "selected_target" state.outputs)
      then EdgeDecision.satisfied
      else EdgeDecision.inactive
    else if is_success state.status
    then EdgeDecision.satisfied
    else if is_failed state.status && is_branch node.on_failure
    then EdgeDecision.inactive
    else EdgeDecision.blocked

abbrev pub found : {A : Type 0} → Option A → Result PlanError A
found none = raise key_error
found (some a) = ok a

abbrev pub find_node : String → List WorkflowNode → Option WorkflowNode
find_node id [] = none
find_node id (n ∷ ns) = if str_eq n.id id then some n else find_node id ns

-- The decision over an edge of trigger "failure" whose source is over.
unfoldable pub failure_decision :
    Evaluator
    → List WorkflowEdge
    → WorkflowEdge
    → WorkflowNodeState
    → Dict WorkflowNodeState
    → Routes
    → Result PlanError (EdgeDecision × Routes)
failure_decision ev edges edge state states cache =
    if not (is_failed state.status) then ok (EdgeDecision.inactive, cache) else do
      (route, cache') ←
          selected_route ev edge.source Trigger.failure (outgoing_edges edge.source edges) states
            cache
      ok (
        (if takes edge.target route then EdgeDecision.satisfied else EdgeDecision.inactive),
        cache',
      )

unfoldable pub edge_decision :
    Evaluator
    → List WorkflowNode
    → List WorkflowEdge
    → WorkflowEdge
    → Dict WorkflowNodeState
    → List String
    → Routes
    → Result PlanError (EdgeDecision × Routes)
edge_decision ev nodes edges edge states inactive cache = do
  state ← found (lookup edge.source states)
  if not (is_terminal state.status)
      then ok (EdgeDecision.waiting, cache)
      else if any (str_eq edge.source) inactive
      then ok (EdgeDecision.inactive, cache)
      else do
        node ← found (find_node edge.source nodes)
        if trigger_eq edge.trigger Trigger.success
            then ok (success_decision node state edge.target, cache)
            else failure_decision ev edges edge state states cache

unfoldable pub edge_decisions :
    Evaluator
    → List WorkflowNode
    → List WorkflowEdge
    → List WorkflowEdge
    → Dict WorkflowNodeState
    → List String
    → Routes
    → Result PlanError (List EdgeDecision × Routes)
edge_decisions ev nodes edges [] states inactive cache = ok ([], cache)
edge_decisions ev nodes edges (e ∷ es) states inactive cache = do
  (decision, cache') ← edge_decision ev nodes edges e states inactive cache
  (rest, cache'') ← edge_decisions ev nodes edges es states inactive cache'
  ok (decision ∷ rest, cache'')

-- `state.error` if it is there and not empty, followed by the error of the route.
abbrev pub with_detail : Option String → String → String
with_detail none detail = detail
with_detail (some error) detail =
    if str_eq error "" then detail else append error (append "; " detail)

unfoldable pub with_failure_route_error :
    Evaluator
    → WorkflowNode
    → WorkflowNodeState
    → List WorkflowEdge
    → Dict WorkflowNodeState
    → Routes
    → Result PlanError (WorkflowNodeState × Routes)
with_failure_route_error ev node state edges states cache =
    if not (is_failed state.status && is_branch node.on_failure) then ok (state, cache) else do
      (route, cache') ← selected_route ev node.id Trigger.failure edges states cache
      ok (
        elim route [
          | ok selected ↦ state
          | raise message ↦ record state {
            error =
                some
                  (with_detail state.error (append "failure branch evaluation failed: " message));
          }
        ],
        cache',
      )
