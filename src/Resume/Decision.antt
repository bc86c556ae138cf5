-- ===== src/Resume/Decision.antt =====
-- When a run can be resumed.
use codemachine_pipeline.Prelude.{
  ◌≡◌, refl, sym, ◌∙◌, String, Bool, true, false, not, ◌&&◌, ◌||◌, Option, if◌then◌else◌, inl, inr,
  arith, Bool-cases,
}
use codemachine_pipeline.Resume.Types.{
  RunManifest, ResumeOptions, VerificationResult, QueueValidationResult, ResumeAnalysis,
}
use codemachine_pipeline.Resume.Checks.{
  is_fatal, check_run_status, check_pending_approvals, is_set, is_not_off, check_integrity, has_any,
  generate_recommendations,
}
use codemachine_pipeline.Resume.{
  first_analysis, has_blockers, decide, run_checks, analyze_resume_state,
}
use codemachine_pipeline.Resume.Says.{Says, or_false, weaken}
use codemachine_pipeline.Resume.Steps.{
  is_completed, is_failed, is_damaged, approvals-Says, status-Says, forced-Says, unforced-Says,
  files-Says, queue_state-Says, maybe_error-Says,
}

can_resume-decide :
    (options : ResumeOptions) (a : ResumeAnalysis) (can blocked : Bool)
    → Says a can blocked
    → (decide options a).can_resume ≡ can && (is_set options.force || not blocked)
unfolding decide
can_resume-decide options a can blocked h = elim (Bool-cases (has_blockers a.diagnostics)) [
  | inl stopped ↦ rw (decide, stopped) (ground (arith, h.can_is, h.blocked_is, stopped))
  | inr clear ↦ rw (decide, clear) (ground (arith, h.can_is, h.blocked_is, clear))
]

can_resume-generate_recommendations :
    (a : ResumeAnalysis) → (generate_recommendations a).can_resume ≡ a.can_resume
unfolding generate_recommendations
can_resume-generate_recommendations a = refl

-- what blocks a run
abbrev pub is_blocked :
    Option VerificationResult → QueueValidationResult → ResumeOptions → RunManifest → Bool
is_blocked integrity queue options m =
    ((is_failed m.status && is_fatal m.execution.last_error) || has_any m.pending_approvals)
    || (not (is_set options.skip_hash_verification)
        && not (is_set options.force)
        && is_damaged integrity)
    || (is_not_off options.validate_queue && not queue.valid)

module _ (to_lower_case : String → String) (integrity : Option VerificationResult)
    (queue : QueueValidationResult) (options : ResumeOptions) (m : RunManifest) where
  start-Says : Says (first_analysis m) true false
  unfolding first_analysis has_blockers
  start-Says = record { can_is = refl; blocked_is = refl }

  abbrev approved : ResumeAnalysis
  approved = check_pending_approvals m (check_run_status m (first_analysis m))

  abbrev by_status : Bool
  by_status = (is_failed m.status && is_fatal m.execution.last_error) || has_any m.pending_approvals

  approved-Says : Says approved (not (is_completed m.status)) by_status
  approved-Says =
      approvals-Says m (check_run_status m (first_analysis m)) (not (is_completed m.status))
        (is_failed m.status && is_fatal m.execution.last_error)
        (status-Says m m.status (first_analysis m) refl start-Says)

  abbrev verified : ResumeAnalysis
  verified =
      if is_set options.skip_hash_verification
      then approved
      else check_integrity integrity options approved

  abbrev damage : Bool
  damage =
      not (is_set options.skip_hash_verification)
      && not (is_set options.force)
      && is_damaged integrity

  verified-Says : Says verified (not (is_completed m.status)) (by_status || damage)
  verified-Says = elim (Bool-cases (is_set options.skip_hash_verification)) [
    | inl skip ↦ rw skip (weaken approved-Says (sym (or_false by_status)))
    | inr check ↦ elim (Bool-cases (is_set options.force)) [
      | inl forced ↦
          rw (check, forced)
            (weaken (forced-Says options approved _ _ approved-Says integrity forced)
              (sym (or_false by_status)))
      | inr unforced ↦
          rw (check, unforced) (unforced-Says options approved _ _ approved-Says integrity unforced)
    ]
  ]

  run_checks-Says :
      Says
        (run_checks to_lower_case integrity queue options m)
        (not (is_completed m.status))
        (is_blocked integrity queue options m)
  unfolding run_checks
  run_checks-Says = files-Says queue options _ _ _ (
      queue_state-Says m _ _ _
        (maybe_error-Says to_lower_case m.execution.last_error verified _ _ verified-Says))

  -- A run can be resumed exactly if it is not completed and either nothing blocks it or resuming is
  -- forced. It is blocked by a failure that is not recoverable, by pending approvals, by damaged or missing
  -- artifacts unless their hashes are not verified or resuming is forced, and by an invalid queue unless
  -- its validation is turned off.
  pub can_resume-analyze_resume_state :
      (analyze_resume_state to_lower_case integrity queue options m).can_resume
      ≡ not (is_completed m.status)
        && (is_set options.force || not (is_blocked integrity queue options m))
  unfolding analyze_resume_state
  can_resume-analyze_resume_state =
      can_resume-generate_recommendations
        (decide options (run_checks to_lower_case integrity queue options m))
      ∙ can_resume-decide options (run_checks to_lower_case integrity queue options m) _ _
          run_checks-Says
