-- ===== src/Deployment/Trigger/Calls.antt =====
-- Which calls to GitHub a deployment makes.
use codemachine_pipeline.Prelude.{
  String, ◌≡◌, refl, sym, ap, ◌∙◌, subst, true, false, ◌||◌, Option, none, some, List, [], ◌∷◌,
  arith, Bool-cases, Option-cases, inl, inr, ◌⊎◌,
}
use codemachine_pipeline.Deployment.{
  Blocker, PullRequest, RunFiles, RepoConfig, DeploymentContext, DeploymentStrategy, auto_merge,
  manual_merge, workflow_dispatch, blocked, DeploymentOptions, load_deployment_context,
  assess_merge_readiness, select_deployment_strategy, is_empty, is_given, disallows_auto_merge,
  WorkflowDispatchConfig,
}
use codemachine_pipeline.Deployment.Strategies.{
  GitHub, GitHubCall, enable_auto_merge, merge_pull_request, trigger_workflow, DeploymentOutcome,
  execute_auto_merge, execute_manual_merge, execute_workflow_dispatch, workflow_of, inputs_of,
}
use codemachine_pipeline.Queue.Types.{or_else}
use codemachine_pipeline.Deployment.Readiness.{may_merge, assess_merge_readiness-may_merge}
use codemachine_pipeline.Deployment.Trigger.{
  DeploymentHistory, persist_deployment_outcome, persisted, Writes, handle_blocked,
  execute_strategy, deploy, trigger_deployment,
}

-- A call that may be made: GitHub is not asked to merge by itself where the configuration does not enable it,
-- governance prevents it or the report of the branch protection disallows it.
abbrev pub IsAllowed : DeploymentContext → GitHubCall → Type 0
IsAllowed context (enable_auto_merge number method) =
    (context.config.enable_auto_merge ≡ true)
    × (context.config.prevent_auto_merge ≡ false)
    × (disallows_auto_merge context.branch_protection ≡ false)
IsAllowed context (merge_pull_request number method sha) =
    is_given context.config.workflow_dispatch ≡ false
IsAllowed context (trigger_workflow id ref inputs) =
    is_given context.config.workflow_dispatch ≡ true

-- No call, or one that is allowed, of a deployment that is not a dry run, ready or forced.
abbrev pub MakesCalls :
    DeploymentContext → PullRequest → DeploymentOptions → List GitHubCall → Type 0
MakesCalls context fresh options calls =
    (calls ≡ [])
    ⊎ ((call : GitHubCall) × (calls ≡ call ∷ [])
        × IsAllowed context call
        × (options.dry_run ≡ false)
        × ((may_merge context fresh || options.force) ≡ true))

-- the strategies by their conditions
abbrev Chosen : DeploymentContext → List Blocker → DeploymentOptions → DeploymentStrategy → Type 0
Chosen context blockers options blocked = Unit
Chosen context blockers options workflow_dispatch = (is_empty blockers || options.force) ≡ true
Chosen context blockers options manual_merge =
    ((is_empty blockers || options.force) ≡ true)
    × (is_given context.config.workflow_dispatch ≡ false)
Chosen context blockers options auto_merge =
    ((is_empty blockers || options.force) ≡ true)
    × (context.config.enable_auto_merge ≡ true)
    × (context.config.prevent_auto_merge ≡ false)
    × (disallows_auto_merge context.branch_protection ≡ false)

select_deployment_strategy-Chosen :
    (context : DeploymentContext) (blockers : List Blocker) (options : DeploymentOptions)
    → Chosen context blockers options (select_deployment_strategy context blockers options)
unfolding select_deployment_strategy
select_deployment_strategy-Chosen context blockers options = ground arith

workflow_of-is_given :
    (w : Option WorkflowDispatchConfig) (id : String) → workflow_of w ≡ some id → is_given w ≡ true
workflow_of-is_given none id e = cc
workflow_of-is_given (some w) id e = refl

module _ (context : DeploymentContext) (fresh : PullRequest) (github : GitHub)
    (options : DeploymentOptions) (wet : options.dry_run ≡ false) where
  abbrev found : List Blocker
  found = assess_merge_readiness context fresh

  may_go :
      (is_empty found || options.force) ≡ true → (may_merge context fresh || options.force) ≡ true
  may_go h = ap (λ b. b || options.force) (sym (assess_merge_readiness-may_merge context fresh)) ∙ h

  execute_strategy-MakesCalls :
      (s : DeploymentStrategy)
      → Chosen context found options s
      → MakesCalls context fresh options (execute_strategy s context found github options).0
  unfolding execute_strategy execute_auto_merge execute_manual_merge execute_workflow_dispatch
      handle_blocked
  execute_strategy-MakesCalls auto_merge (go, enabled, free, allowed) =
      inr (_, refl, (enabled, free, allowed), wet, may_go go)
  execute_strategy-MakesCalls manual_merge (go, none_set) = inr (_, refl, none_set, wet, may_go go)
  execute_strategy-MakesCalls workflow_dispatch go =
      elim (Option-cases (workflow_of context.config.workflow_dispatch)) [
        | inl absent ↦ inl (simp (execute_workflow_dispatch, absent))
        | inr (id, present) ↦ inr (
          trigger_workflow id context.pr.branch (
              or_else options.workflow_inputs
                (or_else (inputs_of context.config.workflow_dispatch) [])),
          simp (execute_workflow_dispatch, present),
          workflow_of-is_given context.config.workflow_dispatch id present,
          wet,
          may_go go,
        )
      ]
  execute_strategy-MakesCalls blocked go = inl refl

persisted-calls :
    (writes : Writes) (history : DeploymentHistory) (made : List GitHubCall × DeploymentOutcome)
    → (persisted writes history made).calls ≡ made.0
unfolding persisted
persisted-calls writes history made =
    elim (Bool-cases (persist_deployment_outcome writes.of_outcome made.1 history).1) [
      | inl returned ↦ rw returned refl
      | inr threw ↦ rw threw refl
    ]

-- The calls are those of the strategy, however the outcome is persisted.
deploy-calls :
    (context : DeploymentContext) (fresh : PullRequest) (github : GitHub)
    (options : DeploymentOptions) (writes : Writes) (history : DeploymentHistory)
    → options.dry_run ≡ false
    → (deploy context fresh github options writes history).calls
      ≡ (execute_strategy
          (select_deployment_strategy context (assess_merge_readiness context fresh) options)
          context
          (assess_merge_readiness context fresh)
          github
          options).0
unfolding deploy
deploy-calls context fresh github options writes history wet =
    let blockers = assess_merge_readiness context fresh in
    let strategy = select_deployment_strategy context blockers options in
    let made = execute_strategy strategy context blockers github options in
    let e : deploy context fresh github options writes history ≡ persisted writes history made =
      simp (deploy, wet) in
    ap (λ t. t.calls) e ∙ persisted-calls writes history made

deploy-MakesCalls :
    (context : DeploymentContext) (fresh : PullRequest) (github : GitHub)
    (options : DeploymentOptions) (writes : Writes) (history : DeploymentHistory)
    → MakesCalls context fresh options (deploy context fresh github options writes history).calls
unfolding deploy
deploy-MakesCalls context fresh github options writes history = elim (Bool-cases options.dry_run) [
  | inl dry ↦ inl (simp (deploy, dry))
  | inr wet ↦
      let e : (deploy context fresh github options writes history).calls
          ≡ (execute_strategy
              (select_deployment_strategy context (assess_merge_readiness context fresh) options)
              context (assess_merge_readiness context fresh) github options).0 =
        deploy-calls context fresh github options writes history wet in
      subst (MakesCalls context fresh options) (sym e) (
        execute_strategy-MakesCalls context fresh github options wet
          (select_deployment_strategy context (assess_merge_readiness context fresh) options)
          (select_deployment_strategy-Chosen context (assess_merge_readiness context fresh)
            options))
]

-- A deployment asks GitHub to write at most once, and only where its files were read, the pull request was
-- fetched, it is not a dry run, and the pull request is ready or the deployment is forced. It asks for a merge
-- by GitHub itself only where that is enabled, not prevented by governance and not disallowed by the branch
-- protection, for a merge at once only where no workflow is configured, and for a workflow only where one is.
pub trigger_deployment-MakesCalls :
    (files : RunFiles) (repo : RepoConfig) (fresh : Option PullRequest) (github : GitHub)
    (options : DeploymentOptions) (writes : Writes) (history : DeploymentHistory)
    → ((trigger_deployment files repo fresh github options writes history).calls ≡ [])
      ⊎ ((context : DeploymentContext) × (pr : PullRequest) × (load_deployment_context files repo
            ≡ some context)
          × (fresh ≡ some pr)
          × MakesCalls context pr options
              (trigger_deployment files repo fresh github options writes history).calls)
unfolding trigger_deployment
trigger_deployment-MakesCalls files repo fresh github options writes history =
    elim (Option-cases (load_deployment_context files repo)) [
      | inl unread ↦ inl (simp (trigger_deployment, unread))
      | inr (context, loaded) ↦ elim (Option-cases fresh) [
        | inl lost ↦ inl (simp (trigger_deployment, loaded, lost))
        | inr (pr, fetched) ↦
            let e : trigger_deployment files repo fresh github options writes history
                ≡ deploy context pr github options writes history =
              simp (trigger_deployment, loaded, fetched) in
            inr (
              context,
              pr,
              loaded,
              fetched,
              subst (λ t. MakesCalls context pr options t.calls) (sym e)
                  (deploy-MakesCalls context pr github options writes history),
            )
      ]
    ]
