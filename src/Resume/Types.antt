-- ===== src/Resume/Types.antt =====
-- src/workflows/resumeTypes.ts, and the part of the manifest of persistence/manifestManager.ts that
-- resuming reads and writes. A diagnostic's code carries what its message and context print.
use codemachine_pipeline.Prelude.{ℕ, String, Bool, Option, List}

pub data RunStatus : Type 0 where
  pending in_progress paused completed failed : RunStatus

pub record RunError : Type 0 where
  pub step : String
  pub message : String
  pub timestamp : String
  pub recoverable : Bool

pub record RunExecution : Type 0 where
  pub last_step : Option String
  pub last_error : Option RunError
  pub current_step : Option String
  pub total_steps : Option ℕ
  pub completed_steps : ℕ

pub record RunManifest : Type 0 where
  pub feature_id : String
  pub status : RunStatus
  pub execution : RunExecution
  pub updated_at : String
  pub pending_approvals : List String
  pub queue_dir : String
  pub pending_count : ℕ
  pub completed_count : ℕ
  pub failed_count : ℕ

pub data DiagnosticSeverity : Type 0 where
  info warning error blocker : DiagnosticSeverity

pub data ErrorClass : Type 0 where
  rate_limit network validation permission corruption git agent unknown : ErrorClass

pub data DiagnosticCode : Type 0 where
  already_completed recoverable_error paused_run unexpected_interrupt not_started : DiagnosticCode
  queue_complete queue_dir_missing integrity_no_manifest : DiagnosticCode
  non_recoverable_error : RunError → DiagnosticCode
  approvals_pending integrity_hash_mismatch integrity_missing_files : List String → DiagnosticCode
  integrity_ok queue_has_failures queue_has_pending queue_validated queue_validation_warnings :
      ℕ → DiagnosticCode
  queue_corrupted : ℕ → ℕ → DiagnosticCode
  last_error_of : ErrorClass → RunError → DiagnosticCode

pub record ResumeDiagnostic : Type 0 where
  pub severity : DiagnosticSeverity
  pub code : DiagnosticCode

pub record ResumeOptions : Type 0 where
  pub force : Option Bool
  pub skip_hash_verification : Option Bool
  pub validate_queue : Option Bool

-- of persistence/hashManifest.ts; a failed file is its path
pub record VerificationResult : Type 0 where
  pub valid : Bool
  pub passed : List String
  pub failed : List String
  pub missing : List String

-- of queue/queueTypes.ts, with the number of its warnings
pub record QueueValidationResult : Type 0 where
  pub valid : Bool
  pub warnings : ℕ
  pub total_tasks : ℕ
  pub corrupted_tasks : ℕ

-- a line of the recommendations, with what it prints
pub data Recommendation : Type 0 where
  resume_is_blocked errors_detected warnings_listed resume_is_safe playbook : Recommendation
  address print : DiagnosticCode → Recommendation
  resume_from : String → Recommendation
  tasks_remain : ℕ → Recommendation

pub record ResumeAnalysis : Type 0 where
  pub can_resume : Bool
  pub feature_id : String
  pub status : RunStatus
  pub last_step : Option String
  pub current_step : Option String
  pub last_error : Option RunError
  pub pending_approvals : List String
  pub queue_pending : ℕ
  pub queue_completed : ℕ
  pub queue_failed : ℕ
  pub queue_validation : Option QueueValidationResult
  pub integrity_check : Option VerificationResult
  pub diagnostics : List ResumeDiagnostic
  pub recommendations : List Recommendation
