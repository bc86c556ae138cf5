-- ===== src/Resume/Remembers.antt =====
-- What the checks leave of the manifest in an analysis.
use codemachine_pipeline.Prelude.{
  ◌≡◌, refl, ◌∙◌, String, Bool, true, false, Option, none, some, if◌then◌else◌, nonempty, arith,
}
use codemachine_pipeline.Resume.Types.{
  RunManifest, RunError, ResumeOptions, VerificationResult, QueueValidationResult, ResumeAnalysis,
}
use codemachine_pipeline.Resume.Checks.{
  push_diagnostic, check_run_status, check_pending_approvals, analyze_last_error, check_queue_state,
  is_set, check_integrity, check_queue_files, has_any, generate_recommendations,
}
use codemachine_pipeline.Resume.{first_analysis, decide, run_checks, analyze_resume_state}

-- The analysis has the last error and the last step of the manifest.
pub record Remembers (m : RunManifest) (a : ResumeAnalysis) : Type 0 where
  pub error_is : a.last_error ≡ m.execution.last_error
  pub step_is : a.last_step ≡ nonempty m.execution.last_step

module _ (m : RunManifest) where
  if-Remembers :
      (test : Bool) (x y : ResumeAnalysis)
      → Remembers m x
      → Remembers m y
      → Remembers m (if test then x else y)
  if-Remembers true x y h k = h
  if-Remembers false x y h k = k

  same_fields :
      (a b : ResumeAnalysis)
      → b.last_error ≡ a.last_error
      → b.last_step ≡ a.last_step
      → Remembers m a
      → Remembers m b
  same_fields a b e s h = record { error_is = e ∙ h.error_is; step_is = s ∙ h.step_is }

  status-Remembers : (a : ResumeAnalysis) → Remembers m a → Remembers m (check_run_status m a)
  unfolding check_run_status push_diagnostic
  status-Remembers a h = record {
    error_is = ground (arith, h.error_is);
    step_is = ground (arith, h.step_is);
  }

  approvals-Remembers :
      (a : ResumeAnalysis) → Remembers m a → Remembers m (check_pending_approvals m a)
  unfolding check_pending_approvals push_diagnostic
  approvals-Remembers a h =
      if-Remembers (has_any m.pending_approvals) _ _ (same_fields a _ refl refl h) h

  queue_state-Remembers : (a : ResumeAnalysis) → Remembers m a → Remembers m (check_queue_state m a)
  unfolding check_queue_state push_diagnostic
  queue_state-Remembers a h = record {
    error_is = ground (arith, h.error_is);
    step_is = ground (arith, h.step_is);
  }

  integrity-Remembers :
      (r : Option VerificationResult) (options : ResumeOptions) (a : ResumeAnalysis)
      → Remembers m a
      → Remembers m (check_integrity r options a)
  unfolding check_integrity push_diagnostic
  integrity-Remembers none options a h = same_fields a _ refl refl h
  integrity-Remembers (some r) options a h = record {
    error_is = ground (arith, h.error_is);
    step_is = ground (arith, h.step_is);
  }

  error-Remembers :
      (lower : String → String) (o : Option RunError) (a : ResumeAnalysis)
      → Remembers m a
      → Remembers m (elim o [ none ↦ a | some e ↦ analyze_last_error lower e a ])
  unfolding analyze_last_error push_diagnostic
  error-Remembers lower none a h = h
  error-Remembers lower (some e) a h = same_fields a _ refl refl h

  files-Remembers :
      (queue : QueueValidationResult) (options : ResumeOptions) (a : ResumeAnalysis)
      → Remembers m a
      → Remembers m (check_queue_files queue options a)
  unfolding check_queue_files push_diagnostic
  files-Remembers queue options a h = record {
    error_is = ground (arith, h.error_is);
    step_is = ground (arith, h.step_is);
  }

  module _ (to_lower_case : String → String) (integrity : Option VerificationResult)
      (queue : QueueValidationResult) (options : ResumeOptions) where
    first-Remembers : Remembers m (first_analysis m)
    unfolding first_analysis
    first-Remembers = record { error_is = refl; step_is = refl }

    run_checks-Remembers : Remembers m (run_checks to_lower_case integrity queue options m)
    unfolding run_checks
    run_checks-Remembers =
        let approved =
          approvals-Remembers (check_run_status m (first_analysis m))
            (status-Remembers (first_analysis m) first-Remembers) in
        files-Remembers queue options _ (
          queue_state-Remembers _ (
            error-Remembers to_lower_case m.execution.last_error _ (
              if-Remembers (is_set options.skip_hash_verification) _ _ approved
                (integrity-Remembers integrity options _ approved))))

    decide-Remembers :
        (a : ResumeAnalysis)
        → Remembers m a
        → Remembers m (generate_recommendations (decide options a))
    unfolding decide generate_recommendations
    decide-Remembers a h = record {
      error_is = ground (arith, h.error_is);
      step_is = ground (arith, h.step_is);
    }

    pub analyze-Remembers :
        Remembers m (analyze_resume_state to_lower_case integrity queue options m)
    unfolding analyze_resume_state
    analyze-Remembers = decide-Remembers _ run_checks-Remembers
