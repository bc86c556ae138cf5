-- ===== src/Validation/Tests.antt =====
-- A lint command with one retry that fails once and then passes.
use codemachine_pipeline.Prelude.{
  ℕ, zero, suc, ◌≡◌, refl, true, false, none, some, List, [], ◌∷◌, ◌++◌, All,
}
use codemachine_pipeline.Prelude.Int.{ℤ, pos, int_eq}
use codemachine_pipeline.Queue.Types.{or_else}
use codemachine_pipeline.Validation.{
  lint, ValidationCommandConfig, ValidationAttempt, ValidationLedger, new_ledger, find_command,
  type_eq, has_exceeded_retry_limit, attempts_of, record_validation_attempt,
}
use codemachine_pipeline.Validation.Retry.{
  AutoFixOptions, exceeded_retry_limit, refused, execute_validation_with_auto_fix, retry_loop,
  max_attempts, attempt_command,
}
use codemachine_pipeline.Validation.Suite.{
  AutoFixResult, execute_all_validations, run_suite, add_result, set_result, is_success,
  required_types,
}
use codemachine_pipeline.Validation.Commands.{IsLimited, calls, calls-IsLimited}
use codemachine_pipeline.Validation.Calls.{has_passed}
use codemachine_pipeline.Validation.Success.{execute_all_validations-success}

abbrev lint_command : ValidationCommandConfig
lint_command = record {
  type = lint;
  command = "npm run lint";
  required = true;
  max_retries = 1;
  backoff_ms = 500;
  supports_auto_fix = true;
  auto_fix_command = some "npm run lint:fix";
}

abbrev commands : List ValidationCommandConfig
commands = lint_command ∷ []

abbrev careful : AutoFixOptions
careful = record {
  enable_auto_fix = true;
  respect_retry_limits = true;
  max_retries_override = none;
}

-- Only the first attempt of all fails.
abbrev exits : ℕ → ℤ
exits zero = pos 1
exits (suc n) = pos 0

abbrev attempt : ℕ → ℤ → ValidationAttempt
attempt number code = record {
  command_type = lint;
  attempt_number = number;
  exit_code = code;
  auto_fix_attempted = false;
  command_template = "npm run lint";
}

abbrev fixing : ValidationAttempt
fixing = record (attempt 2 (pos 0)) {
  auto_fix_attempted = true;
  command_template = "npm run lint:fix";
}

abbrev full : ValidationLedger
full = (execute_validation_with_auto_fix exits commands lint careful new_ledger).0

-- The second attempt runs the fixing command and passes.
lint-attempts : full.attempts ≡ attempt 1 (pos 1) ∷ fixing ∷ []
unfolding execute_validation_with_auto_fix find_command type_eq has_exceeded_retry_limit attempts_of
    retry_loop max_attempts attempt_command record_validation_attempt int_eq
lint-attempts = refl

-- The next validation is refused, although the last attempt passed.
lint-refused :
    (execute_validation_with_auto_fix exits commands lint careful full).1
    ≡ refused (exceeded_retry_limit lint 2 2)
unfolding execute_validation_with_auto_fix find_command type_eq has_exceeded_retry_limit attempts_of
    retry_loop max_attempts attempt_command record_validation_attempt int_eq
lint-refused = refl

calls-IsLimited_example :
    IsLimited commands (calls exits commands careful (lint ∷ lint ∷ []) new_ledger)
calls-IsLimited_example = calls-IsLimited exits commands careful (lint ∷ lint ∷ []) refl

abbrev suite : AutoFixResult
suite = record {
  success = true;
  results = (lint, fixing) ∷ [];
  total_attempts = 2;
  auto_fix_successes = 1;
  exceeded_retry_limits = [];
}

execute_all_validations-success_example :
    (made : List ValidationAttempt) × ((execute_all_validations exits commands careful none
        new_ledger).0.attempts
      ≡ [] ++ made)
    × All (λ type. has_passed type made ≡ true) (or_else none (required_types commands))
unfolding execute_all_validations run_suite add_result set_result is_success
    execute_validation_with_auto_fix find_command type_eq has_exceeded_retry_limit attempts_of
    retry_loop max_attempts attempt_command record_validation_attempt int_eq
execute_all_validations-success_example =
    execute_all_validations-success exits commands careful none new_ledger suite refl refl
