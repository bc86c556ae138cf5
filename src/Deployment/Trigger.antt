-- ===== src/Deployment/Trigger.antt =====
-- triggerDeployment of src/workflows/deployment/trigger.ts and the history of its outcomes. How its writes go is
-- an argument.
pub mod Calls
pub mod History
use codemachine_pipeline.Prelude.{
  Bool, true, false, Option, none, some, List, [], ◌∷◌, ◌++◌, if◌then◌else◌,
}
use codemachine_pipeline.Deployment.{
  Blocker, config, PullRequest, RunFiles, RepoConfig, DeploymentContext, DeploymentStrategy,
  auto_merge, manual_merge, workflow_dispatch, blocked, DeploymentOptions, load_deployment_context,
  assess_merge_readiness, select_deployment_strategy,
}
use codemachine_pipeline.Deployment.Strategies.{
  GitHub, GitHubCall, DeploymentOutcome, unexpected_error, execute_auto_merge, execute_manual_merge,
  execute_workflow_dispatch,
}

-- `deployment.json`
pub data DeploymentHistory : Type 0 where
  missing invalid : DeploymentHistory
  holds : List DeploymentOutcome → DeploymentHistory

-- How a call of persistDeploymentOutcome goes: it returns; it throws and leaves the file as it was, where the
-- lock is not acquired or the new file cannot be written; or it throws although the file is replaced, where the
-- lock cannot be released.
pub data Persisting : Type 0 where
  saved not_saved lock_kept : Persisting

-- the call for the outcome of a strategy, and the one for an error
pub record Writes : Type 0 where
  pub of_outcome : Persisting
  pub of_error : Persisting

-- A history that is missing or invalid is begun anew.
unfoldable pub append_outcome : DeploymentOutcome → DeploymentHistory → DeploymentHistory
append_outcome o (holds outcomes) = holds (outcomes ++ o ∷ [])
append_outcome o _ = holds (o ∷ [])

-- the file that the call leaves, and whether it returns
unfoldable pub persist_deployment_outcome :
    Persisting → DeploymentOutcome → DeploymentHistory → DeploymentHistory × Bool
unfolding append_outcome
persist_deployment_outcome saved o history = (append_outcome o history, true)
persist_deployment_outcome not_saved o history = (history, false)
persist_deployment_outcome lock_kept o history = (append_outcome o history, false)

unfoldable pub handle_blocked : List Blocker → List GitHubCall × DeploymentOutcome
handle_blocked blockers =
    ([], record { strategy = blocked; success = false; blockers = blockers; error = none })

pub record Triggered : Type 0 where
  pub calls : List GitHubCall
  pub history : DeploymentHistory
  -- what is returned; none where an error is thrown
  pub outcome : Option DeploymentOutcome

abbrev pub unexpected : DeploymentOutcome
unexpected = record {
  strategy = blocked;
  success = false;
  blockers = config "" ∷ [];
  error = some unexpected_error;
}

-- the `catch` block, after the calls that were made; what its own write throws is ignored
abbrev pub failed : Writes → List GitHubCall → DeploymentHistory → Triggered
failed writes calls history = record {
  calls = calls;
  history = (persist_deployment_outcome writes.of_error unexpected history).0;
  outcome = none;
}

unfoldable pub execute_strategy :
    DeploymentStrategy
    → DeploymentContext
    → List Blocker
    → GitHub
    → DeploymentOptions
    → List GitHubCall × DeploymentOutcome
unfolding execute_auto_merge execute_manual_merge execute_workflow_dispatch handle_blocked
execute_strategy auto_merge context blockers github options =
    execute_auto_merge context github options
execute_strategy manual_merge context blockers github options =
    execute_manual_merge context github options
execute_strategy workflow_dispatch context blockers github options =
    execute_workflow_dispatch context github options
execute_strategy blocked context blockers github options = handle_blocked blockers

unfoldable pub persisted :
    Writes → DeploymentHistory → List GitHubCall × DeploymentOutcome → Triggered
unfolding persist_deployment_outcome
persisted writes history (calls, outcome) =
    let (after, returned) = persist_deployment_outcome writes.of_outcome outcome history in
    if returned
    then (record { calls = calls; history = after; outcome = some outcome })
    else failed writes calls after

-- the part of the `try` block that runs with a context and the pull request that GitHub shows
unfoldable pub deploy :
    DeploymentContext
    → PullRequest
    → GitHub
    → DeploymentOptions
    → Writes
    → DeploymentHistory
    → Triggered
unfolding execute_strategy persisted assess_merge_readiness select_deployment_strategy
deploy context fresh github options writes history =
    let blockers = assess_merge_readiness context fresh in
    let strategy = select_deployment_strategy context blockers options in
    if options.dry_run
    then (record {
      calls = [];
      history = history;
      outcome =
          some (record { strategy = strategy; success = false; blockers = blockers; error = none });
    })
    else persisted writes history (execute_strategy strategy context blockers github options)

-- `fresh` is none where the pull request cannot be fetched.
unfoldable pub trigger_deployment :
    RunFiles
    → RepoConfig
    → Option PullRequest
    → GitHub
    → DeploymentOptions
    → Writes
    → DeploymentHistory
    → Triggered
unfolding load_deployment_context deploy persist_deployment_outcome
trigger_deployment files repo fresh github options writes history =
    elim (load_deployment_context files repo) [
      | none ↦ failed writes [] history
      | some context ↦ elim fresh [
        | none ↦ failed writes [] history
        | some pr ↦ deploy context pr github options writes history
      ]
    ]
