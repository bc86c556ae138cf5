-- ===== src/Resume/Tests.antt =====
-- A run that failed and may be resumed, and two tasks of it.
use codemachine_pipeline.Prelude.{
  ◌≡◌, refl, true, false, not, ◌&&◌, ◌||◌, none, some, [], ◌∷◌, arith,
}
use codemachine_pipeline.Prelude.OrderedMap.{OrderedMap}
use codemachine_pipeline.Queue.Types.{ExecutionTask}
use codemachine_pipeline.Queue.Types.{pending, running, completed}
use codemachine_pipeline.Queue.Tests.{task}
use codemachine_pipeline.Engine.Ready.{get_ready_tasks}
use codemachine_pipeline.Resume.Types.{
  RunManifest, failed, VerificationResult, QueueValidationResult, ResumeOptions,
}
use codemachine_pipeline.Resume.Checks.{is_set}
use codemachine_pipeline.Prelude.{inr, String}
use codemachine_pipeline.Resume.Types.{ResumeAnalysis}
use codemachine_pipeline.Resume.{
  run_checks, first_analysis, has_blockers, analyze_resume_state, decide, resumed_manifest,
  prepare_resume,
}
use codemachine_pipeline.Resume.Checks.{
  generate_recommendations, check_run_status, check_pending_approvals, check_integrity,
  analyze_last_error, check_queue_state, check_queue_files, push_diagnostic, is_not_off, is_fatal,
  fatal_code, has_any, severity_eq,
}
use codemachine_pipeline.Resume.Steps.{is_completed}
use codemachine_pipeline.Resume.Decision.{is_blocked, can_resume-analyze_resume_state}
use codemachine_pipeline.Resume.Tasks.{get_resumable_tasks}
use codemachine_pipeline.Resume.Tasks.Filters.{get_resumable_tasks-get_ready_tasks}

abbrev failed_run : RunManifest
failed_run = record {
  feature_id = "f";
  status = failed;
  execution = record {
    last_step = some "plan";
    last_error =
        some
          (record { step = "code"; message = "Network down"; timestamp = "t"; recoverable = true });
    current_step = some "code";
    total_steps = none;
    completed_steps = 2;
  };
  updated_at = "t";
  pending_approvals = [];
  queue_dir = "queue";
  pending_count = 2;
  completed_count = 0;
  failed_count = 0;
}

abbrev damaged : VerificationResult
damaged = record { valid = false; passed = []; failed = "plan.json" ∷ []; missing = [] }

abbrev sound_queue : QueueValidationResult
sound_queue = record { valid = true; warnings = 0; total_tasks = 2; corrupted_tasks = 0 }

abbrev forced : ResumeOptions
forced = record { force = some true; skip_hash_verification = none; validate_queue = none }

can_resume-analyze_resume_state_example :
    (analyze_resume_state (λ s. s) (some damaged) sound_queue forced failed_run).can_resume
    ≡ not (is_completed failed_run.status)
      && (is_set forced.force || not (is_blocked (some damaged) sound_queue forced failed_run))
can_resume-analyze_resume_state_example =
    can_resume-analyze_resume_state (λ s. s) (some damaged) sound_queue forced failed_run

abbrev tasks : OrderedMap ExecutionTask
tasks =
    ("a", task "a" completed [])
    ∷ ("b", task "b" pending ("a" ∷ []))
    ∷ ("c", task "c" running [])
    ∷ []

get_resumable_tasks-get_ready_tasks_example : get_resumable_tasks tasks ≡ get_ready_tasks tasks [] 5
get_resumable_tasks-get_ready_tasks_example =
    get_resumable_tasks-get_ready_tasks tasks 5 ((refl, (refl, tt)), ((refl, tt), (tt, tt)))
      (omega arith)

abbrev lower : String → String
lower s = s

abbrev first_result : RunManifest × ResumeAnalysis
first_result = (
  resumed_manifest (analyze_resume_state lower (some damaged) sound_queue forced failed_run) "t1"
      failed_run,
  analyze_resume_state lower (some damaged) sound_queue forced failed_run,
)

first_goes :
    prepare_resume lower (some damaged) sound_queue forced "t1" failed_run ≡ inr first_result
unfolding prepare_resume analyze_resume_state decide generate_recommendations run_checks
    first_analysis check_run_status check_pending_approvals check_integrity analyze_last_error
    check_queue_state check_queue_files push_diagnostic is_set is_not_off is_fatal fatal_code
    has_any has_blockers severity_eq
first_goes = refl
