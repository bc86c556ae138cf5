-- ===== src/Deployment/Tests.antt =====
-- A pull request that is ready, one with a failing check, and a repository that enables merging by GitHub.
use codemachine_pipeline.Prelude.{
  ◌≡◌, refl, Bool, true, false, none, some, [], ◌∷◌, ◌++◌, ◌⊎◌, if◌then◌else◌,
}
use codemachine_pipeline.Deployment.{
  PullRequest, BranchProtectionReport, RunFiles, RepoConfig, DeploymentContext, DeploymentOptions,
  load_deployment_context, deployment_config, assess_merge_readiness, report_blockers,
  pending_approvals, id_set, select_deployment_strategy, merge, is_empty,
}
use codemachine_pipeline.Deployment.Strategies.{GitHub, enable_auto_merge, execute_auto_merge}
use codemachine_pipeline.Deployment.Readiness.{may_merge, assess_merge_readiness-may_merge}
use codemachine_pipeline.Deployment.Trigger.{
  holds, saved, lock_kept, Writes, persisted, persist_deployment_outcome, Triggered, unexpected,
  execute_strategy, deploy, trigger_deployment,
}
use codemachine_pipeline.Deployment.Trigger.Calls.{MakesCalls, trigger_deployment-MakesCalls}
use codemachine_pipeline.Deployment.Trigger.History.{Leaves, written, trigger_deployment-history}

abbrev report : Bool → BranchProtectionReport
report passing = record {
  checks_passing = passing;
  failing_checks = if passing then [] else "ci" ∷ [];
  reviews_required = 1;
  reviews_count = 1;
  reviews_satisfied = true;
  up_to_date = true;
  stale_commit = false;
  allows_auto_merge = true;
}

abbrev files : Bool → RunFiles
files passing = record {
  manifest = some ([], "deploy" ∷ []);
  pr = some (record { pr_number = 7; branch = "feature"; head_sha = some "abc" });
  report = some (report passing);
}

abbrev repo : RepoConfig
repo = record {
  enable_auto_merge = some true;
  enable_deployment_triggers = none;
  respect_status_checks = some false;
  prevent_auto_merge = some false;
  require_approval_for_deploy = none;
  workflow_dispatch = none;
}

abbrev fresh : PullRequest
fresh = record { state = "open"; is_draft = false; mergeable = some true; mergeable_state = none }

abbrev plainly : DeploymentOptions
plainly = record { force = false; dry_run = false; merge_method = none; workflow_inputs = none }

abbrev willing : GitHub
willing call = some true

abbrev all_saved : Writes
all_saved = record { of_outcome = saved; of_error = saved }

abbrev trigger : Writes → Bool → Triggered
trigger writes passing =
    trigger_deployment (files passing) repo (some fresh) willing plainly writes (holds [])

ready-calls : (trigger all_saved true).calls ≡ enable_auto_merge 7 merge ∷ []
unfolding trigger_deployment load_deployment_context deployment_config deploy assess_merge_readiness
    report_blockers pending_approvals id_set select_deployment_strategy execute_strategy
    execute_auto_merge persisted persist_deployment_outcome
ready-calls = refl

-- The failing check blocks, although the configuration asks not to respect status checks.
failing-calls : (trigger all_saved false).calls ≡ []
unfolding trigger_deployment load_deployment_context deployment_config deploy assess_merge_readiness
    report_blockers pending_approvals id_set select_deployment_strategy execute_strategy persisted
    persist_deployment_outcome
failing-calls = refl

abbrev context : DeploymentContext
context = record {
  pr = record { pr_number = 7; branch = "feature"; head_sha = none };
  branch_protection = some (report false);
  config = deployment_config repo;
  approvals = record {
    pending = [];
    completed = [];
    deploy_approval_required = true;
    deploy_approval_granted = false;
  };
}

assess_merge_readiness-may_merge_example :
    is_empty (assess_merge_readiness context fresh) ≡ may_merge context fresh
assess_merge_readiness-may_merge_example = assess_merge_readiness-may_merge context fresh

trigger_deployment-MakesCalls_example :
    ((trigger all_saved true).calls ≡ [])
    ⊎ ((c : DeploymentContext) × (pr : PullRequest) × (load_deployment_context (files true) repo
          ≡ some c)
        × (some fresh ≡ some pr)
        × MakesCalls c pr plainly (trigger all_saved true).calls)
trigger_deployment-MakesCalls_example =
    trigger_deployment-MakesCalls (files true) repo (some fresh) willing plainly all_saved
      (holds [])

-- The pull request is merged and its outcome written, but the lock is not released.
abbrev kept : Writes
kept = record { of_outcome = lock_kept; of_error = saved }

trigger_deployment-history_example :
    (((load_deployment_context (files true) repo ≡ none) ⊎ (some fresh ≡ none))
      × ((trigger kept true).calls ≡ [])
      × ((trigger kept true).outcome ≡ none)
      × ((trigger kept true).history ≡ holds ([] ++ written saved unexpected)))
    ⊎ ((c : DeploymentContext) × (pr : PullRequest) × (load_deployment_context (files true) repo
          ≡ some c)
        × (some fresh ≡ some pr)
        × Leaves c pr willing plainly kept [] (trigger kept true))
trigger_deployment-history_example =
    trigger_deployment-history (files true) repo (some fresh) willing plainly kept []

-- The merge stands first in the history, the failure second.
kept-calls : (trigger kept true).calls ≡ enable_auto_merge 7 merge ∷ []
unfolding trigger_deployment load_deployment_context deployment_config deploy assess_merge_readiness
    report_blockers pending_approvals id_set select_deployment_strategy execute_strategy persisted
    persist_deployment_outcome execute_auto_merge
kept-calls = refl
