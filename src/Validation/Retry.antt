-- ===== src/Validation/Retry.antt =====
-- The retries of one command: executeValidationWithAutoFix of src/workflows/autoFixEngine.ts. What a shell
-- command exits with is given by the number of the attempts that were recorded before it; the wait between two
-- attempts and the rendering of templates are left out.
use codemachine_pipeline.Prelude.{
  ℕ, zero, suc, ◌+◌, Bool, ◌&&◌, Option, none, some, List, leb, if◌then◌else◌, length, nonempty,
}
use codemachine_pipeline.Prelude.Int.{ℤ, pos, negsuc}
use codemachine_pipeline.Queue.Types.{or_else}
use codemachine_pipeline.Validation.{
  ValidationCommandType, ValidationCommandConfig, ValidationAttempt, ValidationLedger, passed,
  record_validation_attempt, attempts_of, find_command, has_exceeded_retry_limit,
}

pub record AutoFixOptions : Type 0 where
  pub enable_auto_fix : Bool
  pub respect_retry_limits : Bool
  pub max_retries_override : Option ℤ

-- `retries + 1`; the loop runs no round for a number below 1
unfoldable pub attempts_for : ℤ → ℕ
attempts_for (pos n) = n + 1
attempts_for (negsuc n) = 0

unfoldable pub max_attempts : ValidationCommandConfig → AutoFixOptions → ℕ
unfolding attempts_for
max_attempts command options =
    if options.respect_retry_limits
    then command.max_retries + 1
    else elim options.max_retries_override [
      | none ↦ command.max_retries + 1
      | some retries ↦ attempts_for retries
    ]

pub data AutoFixError : Type 0 where
  command_not_found : ValidationCommandType → AutoFixError
  exceeded_retry_limit : ValidationCommandType → ℕ → ℕ → AutoFixError
  no_recorded_attempt : ValidationCommandType → AutoFixError

pub data ValidationOutcome : Type 0 where
  validated : ValidationAttempt → ValidationOutcome
  refused : AutoFixError → ValidationOutcome

module _ (exit_code : ℕ → ℤ) where
  -- the attempt that executeValidationCommand makes
  unfoldable pub attempt_command :
      ValidationCommandConfig → ℕ → Bool → ValidationLedger → ValidationAttempt
  attempt_command command attempt_number is_auto_fix ledger = record {
    command_type = command.type;
    attempt_number = attempt_number;
    exit_code = exit_code (length ledger.attempts);
    auto_fix_attempted = is_auto_fix;
    command_template =
        if is_auto_fix
        then or_else (nonempty command.auto_fix_command) command.command
        else command.command;
  }

  -- the retry loop, which has `remaining` attempts left after `done` of them; `last` is `lastResult`
  unfoldable pub retry_loop :
      ValidationCommandConfig
      → AutoFixOptions
      → ℕ
      → ℕ
      → Option ValidationAttempt
      → ValidationLedger
      → ValidationLedger × ValidationOutcome
  unfolding attempt_command record_validation_attempt
  retry_loop command options zero done last ledger = (
    ledger,
    elim last [
      | some attempt ↦ validated attempt
      | none ↦ refused (no_recorded_attempt command.type)
    ],
  )
  retry_loop command options (suc remaining) done last ledger =
      let is_auto_fix = leb 1 done && options.enable_auto_fix && command.supports_auto_fix in
      let attempt = attempt_command command (done + 1) is_auto_fix ledger in
      let recorded = record_validation_attempt attempt ledger in
      let rest = retry_loop command options remaining (done + 1) (some attempt) recorded in
      if passed attempt then (recorded, validated attempt) else rest

  unfoldable pub execute_validation_with_auto_fix :
      List ValidationCommandConfig
      → ValidationCommandType
      → AutoFixOptions
      → ValidationLedger
      → ValidationLedger × ValidationOutcome
  unfolding find_command has_exceeded_retry_limit retry_loop max_attempts
  execute_validation_with_auto_fix commands type options ledger =
      elim (find_command type commands) [
        | none ↦ (ledger, refused (command_not_found type))
        | some command ↦
            if options.respect_retry_limits && has_exceeded_retry_limit command ledger
            then (
              ledger,
              refused (
                  exceeded_retry_limit type (length (attempts_of type ledger.attempts))
                    (command.max_retries + 1)),
            )
            else retry_loop command options (max_attempts command options) 0 none ledger
      ]
