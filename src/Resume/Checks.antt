-- ===== src/Resume/Checks.antt =====
-- src/workflows/runStateVerifier.ts, resumeIntegrityChecker.ts and checkQueueFiles of
-- resumeQueueRecovery.ts. What the integrity verification and the queue validation find are arguments,
-- and so is the conversion to lower case.
use Prim.Native.Char.{code as char_code}
use codemachine_pipeline.Prelude.{
  String, Bool, true, false, not, ◌&&◌, ◌||◌, Option, none, some, List, [], ◌∷◌, ◌++◌, ltb, ◌==◌,
  str_eq, if◌then◌else◌, filter, length, map, nonempty,
}
use codemachine_pipeline.Resume.Types.{
  pending, in_progress, paused, completed, failed, RunError, RunManifest, DiagnosticSeverity, info,
  warning, error, blocker, ErrorClass, rate_limit, network, validation, permission, corruption, git,
  agent, unknown, DiagnosticCode, already_completed, recoverable_error, paused_run,
  unexpected_interrupt, not_started, queue_complete, queue_dir_missing, integrity_no_manifest,
  non_recoverable_error, approvals_pending, integrity_hash_mismatch, integrity_missing_files,
  integrity_ok, queue_has_failures, queue_has_pending, queue_validated, queue_validation_warnings,
  queue_corrupted, last_error_of, ResumeDiagnostic, ResumeOptions, VerificationResult,
  QueueValidationResult, ResumeAnalysis, resume_is_blocked, errors_detected, warnings_listed,
  resume_is_safe, playbook, address, print, resume_from, tasks_remain,
}

-- `analysis.diagnostics.push({ severity, code })`
unfoldable pub push_diagnostic :
    DiagnosticSeverity → DiagnosticCode → ResumeAnalysis → ResumeAnalysis
push_diagnostic severity code a = record a {
  diagnostics = a.diagnostics ++ (record { severity = severity; code = code }) ∷ [];
}

unfoldable pub is_fatal : Option RunError → Bool
is_fatal none = false
is_fatal (some e) = not e.recoverable

unfoldable pub fatal_code : Option RunError → DiagnosticCode
fatal_code none = recoverable_error
fatal_code (some e) = non_recoverable_error e

unfoldable pub check_run_status : RunManifest → ResumeAnalysis → ResumeAnalysis
unfolding push_diagnostic is_fatal fatal_code
check_run_status m a = elim m.status [
  | completed ↦ record (push_diagnostic info already_completed a) { can_resume = false }
  | failed ↦
      if is_fatal m.execution.last_error
      then push_diagnostic blocker (fatal_code m.execution.last_error) a
      else push_diagnostic warning recoverable_error a
  | paused ↦ push_diagnostic info paused_run a
  | in_progress ↦ push_diagnostic warning unexpected_interrupt a
  | pending ↦ push_diagnostic info not_started a
]

-- `list.length > 0`
unfoldable pub has_any {ℓ} : {A : Type ℓ} → List A → Bool
has_any [] = false
has_any (x ∷ xs) = true

unfoldable pub check_pending_approvals : RunManifest → ResumeAnalysis → ResumeAnalysis
unfolding push_diagnostic has_any
check_pending_approvals m a =
    if has_any m.pending_approvals
    then push_diagnostic blocker (approvals_pending m.pending_approvals) a
    else a

unfoldable starts_with : String → String → Bool
starts_with String.[] s = true
starts_with (String.◌∷◌ c p) String.[] = false
starts_with (String.◌∷◌ c p) (String.◌∷◌ d s) = char_code c == char_code d && starts_with p s

-- `text.includes(part)`
unfoldable includes_text : String → String → Bool
unfolding starts_with
includes_text part String.[] = starts_with part ""
includes_text part (String.◌∷◌ c s) = starts_with part (String.◌∷◌ c s) || includes_text part s

unfoldable pub classify_error_message : (String → String) → String → ErrorClass
unfolding includes_text
classify_error_message to_lower_case message =
    let lower = to_lower_case message in
    if includes_text "rate limit" lower || includes_text "quota exceeded" lower
    then rate_limit
    else if includes_text "network" lower
        || includes_text "timeout" lower
        || includes_text "econnrefused" lower
    then network
    else if includes_text "validation" lower || includes_text "invalid" lower
    then validation
    else if includes_text "permission" lower || includes_text "unauthorized" lower
    then permission
    else if includes_text "corrupt" lower || includes_text "integrity" lower
    then corruption
    else if includes_text "git" lower || includes_text "merge conflict" lower
    then git
    else if includes_text "agent" lower || includes_text "llm" lower
    then agent
    else unknown

unfoldable pub analyze_last_error : (String → String) → RunError → ResumeAnalysis → ResumeAnalysis
unfolding push_diagnostic classify_error_message
analyze_last_error to_lower_case e a =
    push_diagnostic (if e.recoverable then warning else error)
      (last_error_of (classify_error_message to_lower_case e.message) e) a

unfoldable pub check_queue_state : RunManifest → ResumeAnalysis → ResumeAnalysis
unfolding push_diagnostic
check_queue_state m a =
    let counted =
      if m.pending_count == 0 && m.failed_count == 0 && ltb 0 m.completed_count
      then push_diagnostic info queue_complete a
      else if ltb 0 m.failed_count
      then push_diagnostic warning (queue_has_failures m.failed_count) a
      else if ltb 0 m.pending_count
      then push_diagnostic info (queue_has_pending m.pending_count) a
      else a in
    if str_eq m.queue_dir "" then push_diagnostic error queue_dir_missing counted else counted

-- `options.flag === true` and `if (options.flag)`, and `options.flag !== false`
unfoldable pub is_set : Option Bool → Bool
is_set none = false
is_set (some b) = b

unfoldable pub is_not_off : Option Bool → Bool
is_not_off none = true
is_not_off (some b) = b

-- The first argument is what `verifyRunDirectoryIntegrity` gives, none where it throws.
unfoldable pub check_integrity :
    Option VerificationResult → ResumeOptions → ResumeAnalysis → ResumeAnalysis
unfolding push_diagnostic is_set has_any
check_integrity none options a = push_diagnostic warning integrity_no_manifest a
check_integrity (some r) options a =
    let checked = record a { integrity_check = some r } in
    let severity = if is_set options.force then warning else blocker in
    let mismatched =
      if has_any r.failed
      then push_diagnostic severity (integrity_hash_mismatch r.failed) checked
      else checked in
    if r.valid
    then push_diagnostic info (integrity_ok (length r.passed)) checked
    else if has_any r.missing
    then push_diagnostic severity (integrity_missing_files r.missing) mismatched
    else mismatched

unfoldable pub check_queue_files :
    QueueValidationResult → ResumeOptions → ResumeAnalysis → ResumeAnalysis
unfolding push_diagnostic is_not_off
check_queue_files v options a =
    let checked = record a { queue_validation = some v } in
    let validated = push_diagnostic info (queue_validated v.total_tasks) checked in
    if not (is_not_off options.validate_queue)
    then a
    else if not v.valid
    then push_diagnostic blocker (queue_corrupted v.corrupted_tasks v.total_tasks) checked
    else if ltb 0 v.warnings
    then push_diagnostic warning (queue_validation_warnings v.warnings) validated
    else validated

unfoldable pub severity_eq : DiagnosticSeverity → DiagnosticSeverity → Bool
severity_eq info info = true
severity_eq warning warning = true
severity_eq error error = true
severity_eq blocker blocker = true
severity_eq _ _ = false

unfoldable pub of_severity : DiagnosticSeverity → List ResumeDiagnostic → List ResumeDiagnostic
unfolding severity_eq
of_severity severity ds = filter (λ d. severity_eq d.severity severity) ds

-- the warnings that have a recommendation
unfoldable pub has_advice : DiagnosticCode → Bool
has_advice (queue_validation_warnings n) = true
has_advice (last_error_of rate_limit e) = true
has_advice (last_error_of network e) = true
has_advice (queue_has_failures n) = true
has_advice _ = false

unfoldable pub generate_recommendations : ResumeAnalysis → ResumeAnalysis
unfolding of_severity has_advice has_any
generate_recommendations a =
    let blockers = of_severity blocker a.diagnostics in
    let errors = of_severity error a.diagnostics in
    let warnings = of_severity warning a.diagnostics in
    let on_blockers =
      if has_any blockers then resume_is_blocked ∷ map (λ d. address d.code) blockers else [] in
    let on_errors =
      if has_any errors then errors_detected ∷ map (λ d. print d.code) errors else [] in
    let on_warnings =
      if has_any warnings && not (has_any blockers)
      then warnings_listed ∷ map (λ d. address d.code) (filter (λ d. has_advice d.code) warnings)
      else [] in
    let safe =
      if a.can_resume && not (has_any blockers) && not (has_any errors)
      then resume_is_safe
        ∷ ((elim (nonempty a.last_step) [ none ↦ [] | some step ↦ resume_from step ∷ [] ])
            ++ (if ltb 0 a.queue_pending then tasks_remain a.queue_pending ∷ [] else []))
      else [] in
    record a {
      recommendations =
          a.recommendations
          ++ (on_blockers ++ (on_errors ++ (on_warnings ++ (safe ++ playbook ∷ []))));
    }
