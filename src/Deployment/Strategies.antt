-- ===== src/Deployment/Strategies.antt =====
-- The execution of a strategy: executeAutoMerge, executeManualMerge and executeWorkflowDispatch of
-- src/workflows/deployment/execution.ts. The calls to GitHub that write are a list.
use codemachine_pipeline.Prelude.{
  ℕ, String, Bool, true, false, Option, none, some, List, [], ◌∷◌, nonempty,
}
use codemachine_pipeline.Prelude.OrderedMap.{OrderedMap}
use codemachine_pipeline.Queue.Types.{or_else}
use codemachine_pipeline.Deployment.{
  DeploymentStrategy, auto_merge, manual_merge, workflow_dispatch, Blocker, WorkflowDispatchConfig,
  MergeMethod, merge, DeploymentContext, DeploymentOptions,
}

-- the calls to GitHub that write
pub data GitHubCall : Type 0 where
  enable_auto_merge : ℕ → MergeMethod → GitHubCall
  merge_pull_request : ℕ → MergeMethod → Option String → GitHubCall
  trigger_workflow : String → String → OrderedMap String → GitHubCall

-- whether a call succeeds, where a merge says whether it merged; otherwise it throws
abbrev pub GitHub : Type 0
GitHub = GitHubCall → Option Bool

pub data DeploymentError : Type 0 where
  auto_merge_failed merge_failed config_error workflow_dispatch_failed unexpected_error :
      DeploymentError

pub record DeploymentOutcome : Type 0 where
  pub strategy : DeploymentStrategy
  pub success : Bool
  pub blockers : List Blocker
  pub error : Option DeploymentError

abbrev pub outcome_with : DeploymentStrategy → DeploymentError → Option Bool → DeploymentOutcome
outcome_with strategy error (some success) = record {
  strategy = strategy;
  success = success;
  blockers = [];
  error = none;
}
outcome_with strategy error none = record {
  strategy = strategy;
  success = false;
  blockers = [];
  error = some error;
}

-- `.success` of a call that has no answer but that it returns
abbrev pub returned : Option Bool → Option Bool
returned none = none
returned (some b) = some true

abbrev pub method_of : DeploymentContext → DeploymentOptions → MergeMethod
method_of context options = or_else options.merge_method (or_else context.config.merge_method merge)

unfoldable pub execute_auto_merge :
    DeploymentContext → GitHub → DeploymentOptions → List GitHubCall × DeploymentOutcome
execute_auto_merge context github options =
    let call = enable_auto_merge context.pr.pr_number (method_of context options) in
    (call ∷ [], outcome_with auto_merge auto_merge_failed (returned (github call)))

unfoldable pub execute_manual_merge :
    DeploymentContext → GitHub → DeploymentOptions → List GitHubCall × DeploymentOutcome
execute_manual_merge context github options =
    let call =
      merge_pull_request context.pr.pr_number (method_of context options)
        (nonempty context.pr.head_sha) in
    (call ∷ [], outcome_with manual_merge merge_failed (github call))

abbrev pub inputs_of : Option WorkflowDispatchConfig → Option (OrderedMap String)
inputs_of none = none
inputs_of (some w) = w.inputs

abbrev pub workflow_of : Option WorkflowDispatchConfig → Option String
workflow_of none = none
workflow_of (some w) = nonempty (some w.workflow_id)

unfoldable pub execute_workflow_dispatch :
    DeploymentContext → GitHub → DeploymentOptions → List GitHubCall × DeploymentOutcome
execute_workflow_dispatch context github options =
    elim (workflow_of context.config.workflow_dispatch) [
      | none ↦ ([], outcome_with workflow_dispatch config_error none)
      | some id ↦
          let call = trigger_workflow id context.pr.branch (
            or_else options.workflow_inputs
              (or_else (inputs_of context.config.workflow_dispatch) [])) in
          (
            call ∷ [],
            outcome_with workflow_dispatch workflow_dispatch_failed (returned (github call)),
          )
    ]
