-- ===== src/Validation/Suite.antt =====
-- All commands in a row: executeAllValidations of src/workflows/autoFixEngine.ts.
use codemachine_pipeline.Prelude.{
  ℕ, ◌+◌, Bool, true, false, ◌&&◌, Option, List, [], ◌∷◌, ◌++◌, if◌then◌else◌, all,
}
use codemachine_pipeline.Prelude.Int.{ℤ}
use codemachine_pipeline.Queue.Types.{or_else}
use codemachine_pipeline.Validation.{
  ValidationCommandType, type_eq, ValidationCommandConfig, ValidationAttempt, ValidationLedger,
  passed,
}
use codemachine_pipeline.Validation.Retry.{
  AutoFixOptions, AutoFixError, exceeded_retry_limit, validated, refused,
  execute_validation_with_auto_fix,
}

-- what executeAllValidations returns, but the text of its summary; the results are by command type
pub record AutoFixResult : Type 0 where
  pub success : Bool
  pub results : List (ValidationCommandType × ValidationAttempt)
  pub total_attempts : ℕ
  pub auto_fix_successes : ℕ
  pub exceeded_retry_limits : List ValidationCommandType

pub data SuiteOutcome : Type 0 where
  finished : AutoFixResult → SuiteOutcome
  threw : AutoFixError → SuiteOutcome

-- `results.set(commandType, result)`
unfoldable pub set_result :
    ValidationCommandType
    → ValidationAttempt
    → List (ValidationCommandType × ValidationAttempt)
    → List (ValidationCommandType × ValidationAttempt)
unfolding type_eq
set_result type a [] = (type, a) ∷ []
set_result type a ((t, b) ∷ results) =
    if type_eq t type then (t, a) ∷ results else (t, b) ∷ set_result type a results

-- `results.get(cmd)?.success ?? false`
unfoldable pub is_success :
    List (ValidationCommandType × ValidationAttempt) → ValidationCommandType → Bool
unfolding type_eq
is_success [] type = false
is_success ((t, a) ∷ results) type = if type_eq t type then passed a else is_success results type

abbrev pub no_result : AutoFixResult
no_result = record {
  success = true;
  results = [];
  total_attempts = 0;
  auto_fix_successes = 0;
  exceeded_retry_limits = [];
}

abbrev pub required_types : List ValidationCommandConfig → List ValidationCommandType
required_types [] = []
required_types (c ∷ cs) = if c.required then c.type ∷ required_types cs else required_types cs

unfoldable pub add_result :
    ValidationCommandType → ValidationAttempt → AutoFixResult → AutoFixResult
unfolding set_result
add_result type attempt r = record r {
  results = set_result type attempt r.results;
  total_attempts = r.total_attempts + attempt.attempt_number;
  auto_fix_successes =
      if attempt.auto_fix_attempted && passed attempt
      then r.auto_fix_successes + 1
      else r.auto_fix_successes;
}

-- `success` of what the loop found
abbrev pub judge :
    List ValidationCommandType → ValidationLedger × SuiteOutcome → ValidationLedger × SuiteOutcome
judge types (ledger, finished r) =
    (ledger, finished (record r { success = all (is_success r.results) types }))
judge types (ledger, threw error) = (ledger, threw error)

module _ (exit_code : ℕ → ℤ) (commands : List ValidationCommandConfig)
    (options : AutoFixOptions) where
  -- the loop over the commands
  unfoldable pub run_suite :
      List ValidationCommandType
      → ValidationLedger
      → AutoFixResult
      → ValidationLedger × SuiteOutcome
  unfolding execute_validation_with_auto_fix add_result
  run_suite [] ledger r = (ledger, finished r)
  run_suite (type ∷ types) ledger r =
      let (after_it, outcome) =
        execute_validation_with_auto_fix exit_code commands type options ledger in
      elim outcome [
        | validated attempt ↦ run_suite types after_it (add_result type attempt r)
        | refused (exceeded_retry_limit t n m) ↦
            run_suite types after_it
              (record r { exceeded_retry_limits = r.exceeded_retry_limits ++ type ∷ [] })
        | refused error ↦ (after_it, threw error)
      ]

  unfoldable pub execute_all_validations :
      Option (List ValidationCommandType) → ValidationLedger → ValidationLedger × SuiteOutcome
  unfolding run_suite is_success
  execute_all_validations command_types ledger =
      let targets = or_else command_types (required_types commands) in
      elim targets [
        | [] ↦ (ledger, finished no_result)
        | t ∷ ts ↦ judge (t ∷ ts) (run_suite (t ∷ ts) ledger no_result)
      ]
