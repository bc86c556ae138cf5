-- ===== src/Deployment.antt =====
-- What a deployment goes by: src/workflows/deployment/context.ts and types.ts, and the choice of a strategy in
-- execution.ts. What the files of the run hold and what GitHub answers are arguments.
-- Texts of messages, hashes and times are left out.
pub mod Readiness
pub mod Strategies
pub mod Trigger
mod Tests
use codemachine_pipeline.Prelude.{
  ℕ, ◌-◌, String, Bool, true, false, not, ◌&&◌, ◌||◌, Option, none, some, List, [], ◌∷◌, ◌++◌,
  if◌then◌else◌, length, contains, str_eq, nonempty,
}
use codemachine_pipeline.Prelude.OrderedMap.{OrderedMap}
use codemachine_pipeline.Queue.Types.{or_else}

pub data DeploymentStrategy : Type 0 where
  auto_merge manual_merge workflow_dispatch blocked : DeploymentStrategy

-- the types of blockers, with what their messages report
pub data Blocker : Type 0 where
  closed : String → Blocker
  draft conflicts branch_stale protection : Blocker
  status_checks : List String → Blocker
  reviews : ℕ → ℕ → Blocker
  approvals : List String → Blocker
  config : String → Blocker

pub record PullRequest : Type 0 where
  pub state : String
  pub is_draft : Bool
  pub mergeable : Option Bool
  pub mergeable_state : Option String

pub record PrMetadata : Type 0 where
  pub pr_number : ℕ
  pub branch : String
  pub head_sha : Option String

pub record BranchProtectionReport : Type 0 where
  pub checks_passing : Bool
  pub failing_checks : List String
  pub reviews_required : ℕ
  pub reviews_count : ℕ
  pub reviews_satisfied : Bool
  pub up_to_date : Bool
  pub stale_commit : Bool
  pub allows_auto_merge : Bool

pub record WorkflowDispatchConfig : Type 0 where
  pub workflow_id : String
  pub inputs : Option (OrderedMap String)

pub data MergeMethod : Type 0 where
  merge squash rebase : MergeMethod

pub record DeploymentConfig : Type 0 where
  pub enable_auto_merge : Bool
  pub enable_deployment_triggers : Bool
  pub workflow_dispatch : Option WorkflowDispatchConfig
  pub merge_method : Option MergeMethod
  pub respect_branch_protection : Bool
  pub prevent_auto_merge : Bool
  pub require_deploy_approval : Bool

pub record ApprovalState : Type 0 where
  pub pending : List String
  pub completed : List String
  pub deploy_approval_required : Bool
  pub deploy_approval_granted : Bool

pub record DeploymentContext : Type 0 where
  pub pr : PrMetadata
  pub branch_protection : Option BranchProtectionReport
  pub config : DeploymentConfig
  pub approvals : ApprovalState

-- what the repository's configuration may say
pub record RepoConfig : Type 0 where
  pub enable_auto_merge : Option Bool
  pub enable_deployment_triggers : Option Bool
  pub respect_status_checks : Option Bool
  pub prevent_auto_merge : Option Bool
  pub require_approval_for_deploy : Option Bool
  pub workflow_dispatch : Option WorkflowDispatchConfig

unfoldable pub deployment_config : RepoConfig → DeploymentConfig
deployment_config c = record {
  enable_auto_merge = or_else c.enable_auto_merge false;
  enable_deployment_triggers = or_else c.enable_deployment_triggers false;
  workflow_dispatch = c.workflow_dispatch;
  merge_method = some merge;
  respect_branch_protection = or_else c.respect_status_checks true;
  prevent_auto_merge = or_else c.prevent_auto_merge true;
  require_deploy_approval = or_else c.require_approval_for_deploy true;
}

-- what the run directory holds: the approvals of the manifest, `pr.json`, and a report that may be missing;
-- none where the first two cannot be read
pub record RunFiles : Type 0 where
  pub manifest : Option (List String × List String)
  pub pr : Option PrMetadata
  pub report : Option BranchProtectionReport

unfoldable pub load_deployment_context : RunFiles → RepoConfig → Option DeploymentContext
unfolding deployment_config
load_deployment_context files repo = elim files.manifest [
  | none ↦ none
  | some (pending, completed) ↦ elim files.pr [
    | none ↦ none
    | some pr ↦
        let c = deployment_config repo in
        some (record {
          pr = pr;
          branch_protection = files.report;
          config = c;
          approvals = record {
            pending = pending;
            completed = completed;
            deploy_approval_required = c.require_deploy_approval;
            deploy_approval_granted = not c.require_deploy_approval || contains completed "deploy";
          };
        })
  ]
]

abbrev pub when : Bool → Blocker → List Blocker
when true b = b ∷ []
when false b = []

-- `=== false`
abbrev pub is_false : Option Bool → Bool
is_false (some false) = true
is_false _ = false

abbrev pub is_text : Option String → String → Bool
is_text none text = false
is_text (some s) text = str_eq s text

unfoldable pub report_blockers : BranchProtectionReport → List Blocker
report_blockers r =
    when (not r.checks_passing) (status_checks r.failing_checks)
    ++ (when (not r.reviews_satisfied) (reviews r.reviews_count r.reviews_required)
        ++ when (not r.up_to_date && r.stale_commit) branch_stale)

-- by the report, or without one by the state that GitHub gives
abbrev pub protection_blockers : Option BranchProtectionReport → PullRequest → List Blocker
protection_blockers (some r) fresh = report_blockers r
protection_blockers none fresh = when (is_text fresh.mergeable_state "blocked") protection

-- `new Set(approvals.pending)`, with `deploy` where it is required and not granted
abbrev pub add_id : String → List String → List String
add_id id ids = if contains ids id then ids else ids ++ id ∷ []

unfoldable pub id_set : List String → List String → List String
id_set set [] = set
id_set set (id ∷ ids) = id_set (add_id id set) ids

unfoldable pub pending_approvals : ApprovalState → List String
unfolding id_set
pending_approvals a =
    if a.deploy_approval_required && not a.deploy_approval_granted
    then add_id "deploy" (id_set [] a.pending)
    else id_set [] a.pending

abbrev pub approval_blockers : List String → List Blocker
approval_blockers [] = []
approval_blockers (id ∷ ids) = approvals (id ∷ ids) ∷ []

-- `blockers` of assessMergeReadiness, for the pull request as GitHub shows it now
unfoldable pub assess_merge_readiness : DeploymentContext → PullRequest → List Blocker
unfolding report_blockers pending_approvals
assess_merge_readiness context fresh =
    when (not (str_eq fresh.state "open")) (closed fresh.state)
    ++ (when fresh.is_draft draft
        ++ (when (is_false fresh.mergeable) conflicts
            ++ (protection_blockers context.branch_protection fresh
                ++ approval_blockers (pending_approvals context.approvals))))

pub record DeploymentOptions : Type 0 where
  pub force : Bool
  pub dry_run : Bool
  pub merge_method : Option MergeMethod
  pub workflow_inputs : Option (OrderedMap String)

abbrev pub is_given {ℓ} : {A : Type ℓ} → Option A → Bool
is_given none = false
is_given (some a) = true

abbrev pub is_empty {ℓ} : {A : Type ℓ} → List A → Bool
is_empty [] = true
is_empty (x ∷ xs) = false

-- `branchProtection && !branchProtection.allows_auto_merge`
abbrev pub disallows_auto_merge : Option BranchProtectionReport → Bool
disallows_auto_merge none = false
disallows_auto_merge (some r) = not r.allows_auto_merge

-- the rules in order; a deployment is eligible without blockers
unfoldable pub select_deployment_strategy :
    DeploymentContext → List Blocker → DeploymentOptions → DeploymentStrategy
select_deployment_strategy context blockers options =
    if not (is_empty blockers) && not options.force
    then blocked
    else if is_given options.workflow_inputs || is_given context.config.workflow_dispatch
    then workflow_dispatch
    else if context.config.prevent_auto_merge
    then manual_merge
    else if not context.config.enable_auto_merge
    then manual_merge
    else if disallows_auto_merge context.branch_protection
    then manual_merge
    else auto_merge
