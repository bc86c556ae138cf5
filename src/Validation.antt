-- ===== src/Validation.antt =====
-- The validation commands and the ledger of their attempts: src/workflows/validationRegistry.ts with
-- the files of validationStore.ts. Times, outputs and telemetry are left out.
pub mod Attempts
pub mod Commands
pub mod Retry
pub mod Suite
pub mod Calls
pub mod Success
mod Tests
use codemachine_pipeline.Prelude.{
  ℕ, zero, suc, ◌+◌, String, Bool, true, false, not, ◌&&◌, Option, none, some, List, [], ◌∷◌, ◌++◌,
  leb, if◌then◌else◌, length, filter, all, nonempty,
}
use codemachine_pipeline.Prelude.Int.{ℤ, pos, negsuc, int_eq}
use codemachine_pipeline.Queue.Types.{or_else}

pub data ValidationCommandType : Type 0 where
  lint test typecheck build : ValidationCommandType

-- `===` on command types
unfoldable pub type_eq : ValidationCommandType → ValidationCommandType → Bool
type_eq lint lint = true
type_eq test test = true
type_eq typecheck typecheck = true
type_eq build build = true
type_eq _ _ = false

pub record ValidationCommandConfig : Type 0 where
  pub type : ValidationCommandType
  pub command : String
  pub required : Bool
  pub max_retries : ℕ
  pub backoff_ms : ℕ
  pub supports_auto_fix : Bool
  pub auto_fix_command : Option String

pub record ValidationAttempt : Type 0 where
  pub command_type : ValidationCommandType
  pub attempt_number : ℕ
  pub exit_code : ℤ
  pub auto_fix_attempted : Bool
  -- `metadata.command_template`
  pub command_template : String

pub record LedgerSummary : Type 0 where
  pub total_attempts : ℕ
  pub successful_attempts : ℕ
  pub failed_attempts : ℕ
  pub auto_fix_successes : ℕ

pub record ValidationLedger : Type 0 where
  pub attempts : List ValidationAttempt
  pub summary : LedgerSummary

-- the ledger of a run without a ledger file
abbrev pub new_ledger : ValidationLedger
new_ledger = record {
  attempts = [];
  summary = record {
    total_attempts = 0;
    successful_attempts = 0;
    failed_attempts = 0;
    auto_fix_successes = 0;
  };
}

abbrev pub passed : ValidationAttempt → Bool
passed a = int_eq a.exit_code (pos 0)

unfoldable pub summary_of : List ValidationAttempt → LedgerSummary
summary_of attempts = record {
  total_attempts = length attempts;
  successful_attempts = length (filter passed attempts);
  failed_attempts = length (filter (λ a. not (passed a)) attempts);
  auto_fix_successes = length (filter (λ a. a.auto_fix_attempted && passed a) attempts);
}

unfoldable pub record_validation_attempt : ValidationAttempt → ValidationLedger → ValidationLedger
unfolding summary_of
record_validation_attempt attempt ledger =
    let attempts = ledger.attempts ++ attempt ∷ [] in
    record { attempts = attempts; summary = summary_of attempts }

unfoldable pub attempts_of : ValidationCommandType → List ValidationAttempt → List ValidationAttempt
unfolding type_eq
attempts_of type attempts = filter (λ a. type_eq a.command_type type) attempts

unfoldable pub find_command :
    ValidationCommandType → List ValidationCommandConfig → Option ValidationCommandConfig
unfolding type_eq
find_command type [] = none
find_command type (c ∷ cs) = if type_eq c.type type then some c else find_command type cs

-- `hasExceededRetryLimit`, for a command that was found
unfoldable pub has_exceeded_retry_limit : ValidationCommandConfig → ValidationLedger → Bool
unfolding attempts_of
has_exceeded_retry_limit command ledger =
    leb (command.max_retries + 1) (length (attempts_of command.type ledger.attempts))
