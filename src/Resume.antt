-- ===== src/Resume.antt =====
-- src/workflows/resumeCoordinator.ts: whether a run can be resumed, and what resuming prepares.
pub mod Remembers
pub mod Steps
pub mod Types
pub mod Checks
pub mod Says
pub mod Decision
pub mod Again
pub mod Tasks
mod Tests
use codemachine_pipeline.Prelude.{
  ℕ, String, Bool, true, false, not, ◌&&◌, ◌||◌, Option, none, some, List, [], ◌∷◌, str_eq,
  if◌then◌else◌, ◌⊎◌, inl, inr, any, nonempty,
}
use codemachine_pipeline.Resume.Types.{
  RunStatus, RunManifest, RunError, DiagnosticSeverity, blocker, ResumeDiagnostic, ResumeOptions,
  VerificationResult, QueueValidationResult, ResumeAnalysis,
}
use codemachine_pipeline.Resume.Checks.{
  check_run_status, check_pending_approvals, analyze_last_error, check_queue_state, is_set,
  check_integrity, check_queue_files, severity_eq, of_severity, has_any, generate_recommendations,
}

unfoldable pub first_analysis : RunManifest → ResumeAnalysis
first_analysis m = record {
  can_resume = true;
  feature_id = m.feature_id;
  status = m.status;
  last_step = nonempty m.execution.last_step;
  current_step = nonempty m.execution.current_step;
  last_error = m.execution.last_error;
  pending_approvals = m.pending_approvals;
  queue_pending = m.pending_count;
  queue_completed = m.completed_count;
  queue_failed = m.failed_count;
  queue_validation = none;
  integrity_check = none;
  diagnostics = [];
  recommendations = [];
}

unfoldable pub has_blockers : List ResumeDiagnostic → Bool
unfolding severity_eq
has_blockers ds = any (λ d. severity_eq d.severity blocker) ds

-- `analysis.canResume` by the blockers
unfoldable pub decide : ResumeOptions → ResumeAnalysis → ResumeAnalysis
unfolding has_blockers is_set
decide options a =
    if has_blockers a.diagnostics
    then record a { can_resume = if is_set options.force then a.can_resume else false }
    else a

-- `analysis.lastError?.recoverable && execution.last_error`
unfoldable pub clears_error : ResumeAnalysis → RunManifest → Bool
clears_error a m = elim a.last_error [
  | none ↦ false
  | some e ↦ e.recoverable && (elim m.execution.last_error [ none ↦ false | some _ ↦ true ])
]

-- `analysis.lastStep && execution.current_step !== analysis.lastStep`
unfoldable pub moves_step : ResumeAnalysis → RunManifest → Bool
moves_step a m = elim (nonempty a.last_step) [
  | none ↦ false
  | some step ↦ not (elim m.execution.current_step [ none ↦ false | some c ↦ str_eq c step ])
]

unfoldable pub resumed_manifest : ResumeAnalysis → String → RunManifest → RunManifest
unfolding clears_error moves_step
resumed_manifest a now m =
    let cleared =
      if clears_error a m then record (m.execution) { last_error = none } else m.execution in
    let moved = if moves_step a m then record cleared { current_step = a.last_step } else cleared in
    if clears_error a m || moves_step a m
    then record m { execution = moved; updated_at = now }
    else m

module _ (to_lower_case : String → String) (integrity : Option VerificationResult)
    (queue : QueueValidationResult) (options : ResumeOptions) where
  -- the checks, one after another
  unfoldable pub run_checks : RunManifest → ResumeAnalysis
  unfolding first_analysis check_run_status check_pending_approvals analyze_last_error
      check_queue_state is_set check_integrity check_queue_files
  run_checks m =
      let approved = check_pending_approvals m (check_run_status m (first_analysis m)) in
      let verified =
        if is_set options.skip_hash_verification
        then approved
        else check_integrity integrity options approved in
      let analyzed : ResumeAnalysis = elim m.execution.last_error [
        | none ↦ verified
        | some e ↦ analyze_last_error to_lower_case e verified
      ] in
      check_queue_files queue options (check_queue_state m analyzed)

  unfoldable pub analyze_resume_state : RunManifest → ResumeAnalysis
  unfolding run_checks decide generate_recommendations
  analyze_resume_state m = generate_recommendations (decide options (run_checks m))

  -- It throws the diagnostics that block, or returns the manifest that is then in place.
  unfoldable pub prepare_resume :
      String → RunManifest → List ResumeDiagnostic ⊎ (RunManifest × ResumeAnalysis)
  unfolding analyze_resume_state of_severity resumed_manifest
  prepare_resume now m =
      let a = analyze_resume_state m in
      if a.can_resume
      then inr (resumed_manifest a now m, a)
      else inl (of_severity blocker a.diagnostics)
