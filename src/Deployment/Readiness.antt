-- ===== src/Deployment/Readiness.antt =====
-- When nothing blocks a deployment.
use codemachine_pipeline.Prelude.{
  ◌≡◌, refl, String, Bool, true, false, not, ◌&&◌, Option, none, some, List, [], ◌∷◌, ◌++◌,
  contains, str_eq, arith, Bool-cases, inl, inr,
}
use codemachine_pipeline.Deployment.{
  Blocker, closed, draft, conflicts, protection, protection_blockers, PullRequest,
  BranchProtectionReport, ApprovalState, DeploymentContext, when, is_false, is_text,
  report_blockers, add_id, id_set, pending_approvals, approval_blockers, assess_merge_readiness,
  is_empty,
}

-- what the branch protection asks for, by the report or, without one, by the state that GitHub gives
abbrev pub protection_satisfied : Option BranchProtectionReport → PullRequest → Bool
protection_satisfied none fresh = not (is_text fresh.mergeable_state "blocked")
protection_satisfied (some r) fresh =
    r.checks_passing && r.reviews_satisfied && not (not r.up_to_date && r.stale_commit)

abbrev pub approvals_satisfied : ApprovalState → Bool
approvals_satisfied a =
    is_empty a.pending && not (a.deploy_approval_required && not a.deploy_approval_granted)

abbrev pub may_merge : DeploymentContext → PullRequest → Bool
may_merge context fresh =
    str_eq fresh.state "open"
    && not fresh.is_draft
    && not (is_false fresh.mergeable)
    && protection_satisfied context.branch_protection fresh
    && approvals_satisfied context.approvals

is_empty-append : {A : Type 0} (xs ys : List A) → is_empty (xs ++ ys) ≡ (is_empty xs && is_empty ys)
is_empty-append [] ys = refl
is_empty-append (x ∷ xs) ys = refl

is_empty-when : (b : Bool) (x : Blocker) → is_empty (when b x) ≡ not b
is_empty-when true x = refl
is_empty-when false x = refl

is_empty-add_id : (id : String) (ids : List String) → is_empty (add_id id ids) ≡ false
is_empty-add_id id [] = refl
is_empty-add_id id (x ∷ ids) = elim (Bool-cases (contains (x ∷ ids) id)) [
  | inl there ↦ rw there refl
  | inr new ↦ rw new refl
]

is_empty-id_set :
    (set ids : List String) → is_empty (id_set set ids) ≡ (is_empty set && is_empty ids)
unfolding id_set
is_empty-id_set set [] = ground arith
is_empty-id_set set (id ∷ ids) =
    ground (arith, is_empty-id_set (add_id id set) ids, is_empty-add_id id set)

is_empty-approval_blockers : (ids : List String) → is_empty (approval_blockers ids) ≡ is_empty ids
is_empty-approval_blockers [] = refl
is_empty-approval_blockers (id ∷ ids) = refl

is_empty-pending_approvals :
    (a : ApprovalState) → is_empty (pending_approvals a) ≡ approvals_satisfied a
unfolding pending_approvals
is_empty-pending_approvals a =
    ground (arith, is_empty-add_id "deploy" (id_set [] a.pending), is_empty-id_set [] a.pending)

is_empty-report_blockers :
    (r : BranchProtectionReport)
    → is_empty (report_blockers r)
      ≡ (r.checks_passing && r.reviews_satisfied && not (not r.up_to_date && r.stale_commit))
unfolding report_blockers
is_empty-report_blockers r = ground arith

is_empty-protection :
    (report : Option BranchProtectionReport) (fresh : PullRequest)
    → is_empty (protection_blockers report fresh) ≡ protection_satisfied report fresh
is_empty-protection none fresh = is_empty-when (is_text fresh.mergeable_state "blocked") protection
is_empty-protection (some r) fresh = is_empty-report_blockers r

-- assessMergeReadiness finds nothing that blocks exactly if the pull request is open, no draft and without
-- conflicts, the branch protection is satisfied, no approval is pending and the deployment is approved where
-- that is required.
pub assess_merge_readiness-may_merge :
    (context : DeploymentContext) (fresh : PullRequest)
    → is_empty (assess_merge_readiness context fresh) ≡ may_merge context fresh
unfolding assess_merge_readiness
assess_merge_readiness-may_merge context fresh =
    let rest = approval_blockers (pending_approvals context.approvals) in
    let guarded = protection_blockers context.branch_protection fresh in
    ground (
      arith,
      is_empty-append (when (not (str_eq fresh.state "open")) (closed fresh.state)) (
          when fresh.is_draft draft
          ++ (when (is_false fresh.mergeable) conflicts ++ (guarded ++ rest))),
      is_empty-append (when fresh.is_draft draft)
          (when (is_false fresh.mergeable) conflicts ++ (guarded ++ rest)),
      is_empty-append (when (is_false fresh.mergeable) conflicts) (guarded ++ rest),
      is_empty-append guarded rest,
      is_empty-when (not (str_eq fresh.state "open")) (closed fresh.state),
      is_empty-when fresh.is_draft draft,
      is_empty-when (is_false fresh.mergeable) conflicts,
      is_empty-protection context.branch_protection fresh,
      is_empty-approval_blockers (pending_approvals context.approvals),
      is_empty-pending_approvals context.approvals,
    )
