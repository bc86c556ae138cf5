-- ===== src/Deployment/Trigger/History.antt =====
-- What a deployment leaves in the history of its outcomes, however its writes go.
use codemachine_pipeline.Prelude.{
  ◌≡◌, ◌≢◌, refl, sym, ap, ◌∙◌, subst, true, false, Option, none, some, List, [], ◌∷◌, ◌++◌,
  append-nil, Bool-cases, Option-cases, inl, inr, ◌⊎◌,
}
use codemachine_pipeline.Deployment.{
  PullRequest, RunFiles, RepoConfig, DeploymentContext, DeploymentOptions, load_deployment_context,
  assess_merge_readiness, select_deployment_strategy,
}
use codemachine_pipeline.Deployment.Strategies.{GitHub, GitHubCall, DeploymentOutcome}
use codemachine_pipeline.Deployment.Trigger.{
  DeploymentHistory, holds, unexpected, Persisting, saved, not_saved, lock_kept, Writes, persisted,
  failed, persist_deployment_outcome, Triggered, execute_strategy, deploy, trigger_deployment,
}

-- the outcomes that a call of persistDeploymentOutcome adds to the file
abbrev pub written : Persisting → DeploymentOutcome → List DeploymentOutcome
written not_saved o = []
written _ o = o ∷ []

-- the calls and the outcome of the strategy that is chosen
abbrev pub ran :
    DeploymentContext
    → PullRequest
    → GitHub
    → DeploymentOptions
    → List GitHubCall × DeploymentOutcome
ran context fresh github options =
    let blockers = assess_merge_readiness context fresh in
    execute_strategy (select_deployment_strategy context blockers options) context blockers github
      options

-- The outcome of calls that were made is added and returned; or an error is thrown, and the history has what
-- the write of the outcome and that of the failure leave.
abbrev pub Persists :
    Writes → List DeploymentOutcome → List GitHubCall × DeploymentOutcome → Triggered → Type 0
Persists writes outcomes made t =
    (t.calls ≡ made.0)
    × (((writes.of_outcome ≡ saved)
          × (t.outcome ≡ some made.1)
          × (t.history ≡ holds (outcomes ++ made.1 ∷ [])))
        ⊎ ((writes.of_outcome ≢ saved)
            × (t.outcome ≡ none)
            × (t.history
                ≡ holds (
                    outcomes
                    ++ written writes.of_outcome made.1
                    ++ written writes.of_error unexpected))))

-- A dry run calls nothing, writes nothing and returns no success.
abbrev pub Rehearses : List DeploymentOutcome → Triggered → Type 0
Rehearses outcomes t =
    (t.calls ≡ [])
    × ((o : DeploymentOutcome) × (t.outcome ≡ some o) × (o.success ≡ false))
    × (t.history ≡ holds outcomes)

persist-holds :
    (p : Persisting) (o : DeploymentOutcome) (outcomes : List DeploymentOutcome)
    → (persist_deployment_outcome p o (holds outcomes)).0 ≡ holds (outcomes ++ written p o)
unfolding persist_deployment_outcome
persist-holds saved o outcomes = refl
persist-holds not_saved o outcomes = ap holds (sym (append-nil outcomes))
persist-holds lock_kept o outcomes = refl

persist-saved :
    (o : DeploymentOutcome) (history : DeploymentHistory)
    → (persist_deployment_outcome saved o history).1 ≡ true
unfolding persist_deployment_outcome
persist-saved o history = refl

persist-cases :
    (p : Persisting) (o : DeploymentOutcome) (history : DeploymentHistory)
    → (p ≡ saved) ⊎ ((p ≢ saved) × ((persist_deployment_outcome p o history).1 ≡ false))
unfolding persist_deployment_outcome
persist-cases saved o history = inl refl
persist-cases not_saved o history = inr (λ e. cc, refl)
persist-cases lock_kept o history = inr (λ e. cc, refl)

persisted-Persists :
    (writes : Writes) (outcomes : List DeploymentOutcome)
    (made : List GitHubCall × DeploymentOutcome)
    → Persists writes outcomes made (persisted writes (holds outcomes) made)
unfolding persisted
persisted-Persists writes outcomes made =
    let kept = persist-holds writes.of_outcome made.1 outcomes in
    elim (persist-cases writes.of_outcome made.1 (holds outcomes)) [
      | inl good ↦
          let returned : (persist_deployment_outcome writes.of_outcome made.1 (holds outcomes)).1
              ≡ true =
            rw good (persist-saved made.1 (holds outcomes)) in
          rw returned
            (refl, inl (good, refl, kept ∙ ap (λ p. holds (outcomes ++ written p made.1)) good))
      | inr (bad, threw) ↦ rw threw (
        refl,
        inr (
          bad,
          refl,
          ap (λ h. (persist_deployment_outcome writes.of_error unexpected h).0) kept
              ∙ persist-holds writes.of_error unexpected
                  (outcomes ++ written writes.of_outcome made.1),
        ),
      )
    ]

abbrev pub Leaves :
    DeploymentContext
    → PullRequest
    → GitHub
    → DeploymentOptions
    → Writes
    → List DeploymentOutcome
    → Triggered
    → Type 0
Leaves context fresh github options writes outcomes t =
    ((options.dry_run ≡ true) × Rehearses outcomes t)
    ⊎ ((options.dry_run ≡ false) × Persists writes outcomes (ran context fresh github options) t)

deploy-Leaves :
    (context : DeploymentContext) (fresh : PullRequest) (github : GitHub)
    (options : DeploymentOptions) (writes : Writes) (outcomes : List DeploymentOutcome)
    → Leaves context fresh github options writes outcomes
        (deploy context fresh github options writes (holds outcomes))
unfolding deploy
deploy-Leaves context fresh github options writes outcomes =
    let blockers = assess_merge_readiness context fresh in
    let o : DeploymentOutcome = record {
      strategy = select_deployment_strategy context blockers options;
      success = false;
      blockers = blockers;
      error = none;
    } in
    let rehearsed : Triggered = record { calls = []; history = holds outcomes; outcome = some o } in
    let made = ran context fresh github options in
    elim (Bool-cases options.dry_run) [
      | inl dry ↦
          let e : deploy context fresh github options writes (holds outcomes) ≡ rehearsed =
            simp (deploy, dry) in
          inl (dry, subst (Rehearses outcomes) (sym e) (refl, (o, refl, refl), refl))
      | inr wet ↦
          let e : deploy context fresh github options writes (holds outcomes)
              ≡ persisted writes (holds outcomes) made =
            simp (deploy, wet) in
          inr (
            wet,
            subst (Persists writes outcomes made) (sym e) (persisted-Persists writes outcomes made),
          )
    ]

-- What a deployment returns and leaves of a history that can be read. Where a file or the pull request cannot
-- be read, it makes no call, throws, and adds the failure, if that can be written. A dry run makes no call,
-- returns an outcome that is no success, and leaves the history as it was. Otherwise it makes the calls of the
-- chosen strategy; if their outcome is persisted, exactly that is added and returned. If persisting throws, so
-- does the deployment: then the history has the outcome, where it was written before the error, followed by the
-- failure, where that can be written.
pub trigger_deployment-history :
    (files : RunFiles) (repo : RepoConfig) (fresh : Option PullRequest) (github : GitHub)
    (options : DeploymentOptions) (writes : Writes) (outcomes : List DeploymentOutcome)
    → (let t = trigger_deployment files repo fresh github options writes (holds outcomes) in
        (((load_deployment_context files repo ≡ none) ⊎ (fresh ≡ none))
          × (t.calls ≡ [])
          × (t.outcome ≡ none)
          × (t.history ≡ holds (outcomes ++ written writes.of_error unexpected)))
        ⊎ ((context : DeploymentContext) × (pr : PullRequest) × (load_deployment_context files repo
              ≡ some context)
            × (fresh ≡ some pr)
            × Leaves context pr github options writes outcomes t))
unfolding trigger_deployment
trigger_deployment-history files repo fresh github options writes outcomes =
    let t = trigger_deployment files repo fresh github options writes (holds outcomes) in
    let throws = persist-holds writes.of_error unexpected outcomes in
    elim (Option-cases (load_deployment_context files repo)) [
      | inl unread ↦
          let e : t ≡ failed writes [] (holds outcomes) = simp (trigger_deployment, unread) in
          inl
            (inl unread, ap (λ u. u.calls) e, ap (λ u. u.outcome) e, ap (λ u. u.history) e ∙ throws)
      | inr (context, loaded) ↦ elim (Option-cases fresh) [
        | inl lost ↦
            let e : t ≡ failed writes [] (holds outcomes) =
              simp (trigger_deployment, loaded, lost) in
            inl
              (inr lost, ap (λ u. u.calls) e, ap (λ u. u.outcome) e, ap (λ u. u.history) e ∙ throws)
        | inr (pr, fetched) ↦
            let e : t ≡ deploy context pr github options writes (holds outcomes) =
              simp (trigger_deployment, loaded, fetched) in
            inr (
              context,
              pr,
              loaded,
              fetched,
              subst (Leaves context pr github options writes outcomes) (sym e)
                  (deploy-Leaves context pr github options writes outcomes),
            )
      ]
    ]
