-- ===== src/Resume/Steps.antt =====
-- What each check adds to whether an analysis can be resumed and whether it is blocked.
use codemachine_pipeline.Prelude.{
  ◌≡◌, refl, sym, String, Bool, true, false, not, ◌&&◌, ◌||◌, Option, none, some, length,
  if◌then◌else◌, inl, inr, arith, Bool-cases, str_eq, ltb, ◌==◌,
}
use codemachine_pipeline.Resume.Types.{
  RunStatus, pending, in_progress, paused, completed, failed, RunManifest, RunError, info, warning,
  error, blocker, already_completed, queue_validated, queue_validation_warnings, queue_corrupted,
  integrity_ok, integrity_hash_mismatch, integrity_missing_files, ResumeOptions, VerificationResult,
  QueueValidationResult, ResumeAnalysis,
}
use codemachine_pipeline.Resume.Checks.{
  is_fatal, check_run_status, check_pending_approvals, analyze_last_error, check_queue_state,
  is_set, is_not_off, check_integrity, check_queue_files, severity_eq, has_any,
}
use codemachine_pipeline.Resume.Says.{
  Says, block-Says, checked, choose-Says, if-Says, note-Says, or_false, or_true,
  push_diagnostic-Says, validated, weaken,
}

abbrev pub is_completed : RunStatus → Bool
is_completed completed = true
is_completed _ = false

abbrev pub is_failed : RunStatus → Bool
is_failed failed = true
is_failed _ = false

pub status-Says :
    (m : RunManifest) (status : RunStatus) (a : ResumeAnalysis)
    → m.status ≡ status
    → Says a true false
    → Says
        (check_run_status m a)
        (not (is_completed status))
        (is_failed status && is_fatal m.execution.last_error)
unfolding check_run_status severity_eq
status-Says m completed a e h =
    rw (check_run_status, e)
      (record {
        can_is = refl;
        blocked_is = (note-Says info already_completed a true false refl h).blocked_is;
      })
status-Says m failed a e h = elim (Bool-cases (is_fatal m.execution.last_error)) [
  | inl fatal ↦ rw (check_run_status, e, fatal) (push_diagnostic-Says blocker _ a true false h)
  | inr mild ↦ rw (check_run_status, e, mild) (note-Says warning _ a true false refl h)
]
status-Says m paused a e h = rw (check_run_status, e) (note-Says info _ a true false refl h)
status-Says m in_progress a e h = rw (check_run_status, e) (note-Says warning _ a true false refl h)
status-Says m pending a e h = rw (check_run_status, e) (note-Says info _ a true false refl h)

pub approvals-Says :
    (m : RunManifest) (a : ResumeAnalysis) (can blocked : Bool)
    → Says a can blocked
    → Says (check_pending_approvals m a) can (blocked || has_any m.pending_approvals)
unfolding check_pending_approvals
approvals-Says m a can blocked h = elim (Bool-cases (has_any m.pending_approvals)) [
  | inl waiting ↦
      rw (check_pending_approvals, waiting)
        (let b = block-Says _ a can blocked h in (weaken b (sym (or_true blocked))))
  | inr free ↦ rw (check_pending_approvals, free) (weaken h (sym (or_false blocked)))
]

pub queue_state-Says :
    (m : RunManifest) (a : ResumeAnalysis) (can blocked : Bool)
    → Says a can blocked
    → Says (check_queue_state m a) can blocked
unfolding check_queue_state severity_eq
queue_state-Says m a can blocked h =
    let counted =
      if-Says (m.pending_count == 0 && m.failed_count == 0 && ltb 0 m.completed_count) _ _ can
        blocked (note-Says info _ a can blocked refl h)
        (if-Says (ltb 0 m.failed_count) _ _ can blocked (note-Says warning _ a can blocked refl h) (
          if-Says (ltb 0 m.pending_count) _ _ can blocked (note-Says info _ a can blocked refl h)
            h)) in
    if-Says (str_eq m.queue_dir "") _ _ can blocked (note-Says error _ _ can blocked refl counted)
      counted

last_error-Says :
    (lower : String → String) (e : RunError) (a : ResumeAnalysis) (can blocked : Bool)
    → Says a can blocked
    → Says (analyze_last_error lower e a) can blocked
unfolding analyze_last_error severity_eq
last_error-Says lower e a can blocked h = elim (Bool-cases e.recoverable) [
  | inl again ↦ rw (analyze_last_error, again) (note-Says warning _ a can blocked refl h)
  | inr never ↦ rw (analyze_last_error, never) (note-Says error _ a can blocked refl h)
]

pub maybe_error-Says :
    (lower : String → String) (o : Option RunError) (a : ResumeAnalysis) (can blocked : Bool)
    → Says a can blocked
    → Says (elim o [ none ↦ a | some e ↦ analyze_last_error lower e a ]) can blocked
maybe_error-Says lower none a can blocked h = h
maybe_error-Says lower (some e) a can blocked h = last_error-Says lower e a can blocked h

files_blocked :
    (asked valid blocked : Bool)
    → (if not asked then blocked else if not valid then true else blocked)
      ≡ blocked || (asked && not valid)
files_blocked asked valid blocked = ground arith

pub files-Says :
    (queue : QueueValidationResult) (options : ResumeOptions) (a : ResumeAnalysis)
    (can blocked : Bool)
    → Says a can blocked
    → Says
        (check_queue_files queue options a)
        can
        (blocked || (is_not_off options.validate_queue && not queue.valid))
unfolding check_queue_files severity_eq
files-Says queue options a can blocked h =
    let noted =
      note-Says info (queue_validated queue.total_tasks) _ can blocked refl (validated queue h) in
    let warned =
      if-Says (ltb 0 queue.warnings) _ _ can blocked
        (note-Says warning (queue_validation_warnings queue.warnings) _ can blocked refl noted)
        noted in
    weaken
      (choose-Says (not (is_not_off options.validate_queue)) _ _ can _ _ h (
        choose-Says (not queue.valid) _ _ can _ _
          (block-Says (queue_corrupted queue.corrupted_tasks queue.total_tasks) _ can blocked
            (validated queue h))
          warned))
      (files_blocked (is_not_off options.validate_queue) queue.valid blocked)

-- what the integrity verification finds wrong
abbrev pub is_damaged : Option VerificationResult → Bool
is_damaged none = false
is_damaged (some r) = not r.valid && (has_any r.failed || has_any r.missing)

integrity_blocked :
    (valid mismatch missing blocked : Bool)
    → (if valid then blocked else if missing then true else if mismatch then true else blocked)
      ≡ blocked || (not valid && (mismatch || missing))
integrity_blocked valid mismatch missing blocked = ground arith

module _ (options : ResumeOptions) (a : ResumeAnalysis) (can blocked : Bool)
    (h : Says a can blocked) where
  pub forced-Says :
      (integrity : Option VerificationResult)
      → is_set options.force ≡ true
      → Says (check_integrity integrity options a) can blocked
  unfolding check_integrity severity_eq
  forced-Says none forced = note-Says warning _ a can blocked refl h
  forced-Says (some r) forced =
      let mismatched =
        if-Says (has_any r.failed) _ _ can blocked
          (note-Says warning _ _ can blocked refl (checked r h)) (checked r h) in
      rw (check_integrity, forced)
        (if-Says r.valid _ _ can blocked (note-Says info _ _ can blocked refl (checked r h)) (
          if-Says (has_any r.missing) _ _ can blocked
            (note-Says warning _ _ can blocked refl mismatched) mismatched))

  pub unforced-Says :
      (integrity : Option VerificationResult)
      → is_set options.force ≡ false
      → Says (check_integrity integrity options a) can (blocked || is_damaged integrity)
  unfolding check_integrity severity_eq
  unforced-Says none unforced =
      let k = note-Says warning _ a can blocked refl h in (weaken k (sym (or_false blocked)))
  unforced-Says (some r) unforced =
      let mismatched =
        choose-Says (has_any r.failed) _ _ can _ _
          (block-Says (integrity_hash_mismatch r.failed) _ can blocked (checked r h))
          (checked r h) in
      rw (check_integrity, unforced)
        (weaken
          (choose-Says r.valid _ _ can _ _
            (note-Says info (integrity_ok (length r.passed)) _ can blocked refl (checked r h))
            (choose-Says (has_any r.missing) _ _ can _ _
              (block-Says (integrity_missing_files r.missing) _ can _ mismatched) mismatched))
          (integrity_blocked r.valid (has_any r.failed) (has_any r.missing) blocked))
