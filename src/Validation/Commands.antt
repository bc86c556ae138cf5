-- ===== src/Validation/Commands.antt =====
-- How many attempts the ledger may come to hold.
use codemachine_pipeline.Prelude.{
  ℕ, ◌+◌, ◌-◌, ◌*◌, ◌≤◌, ◌≡◌, refl, sym, ap, ◌∙◌, subst, true, none, some, List, [], ◌∷◌,
  if◌then◌else◌, length, length-append, filter-append, arith, Bool-cases, Option-cases, inl, inr,
}
use codemachine_pipeline.Prelude.Int.{ℤ}
use codemachine_pipeline.Validation.{
  ValidationCommandType, lint, test, typecheck, build, type_eq, ValidationCommandConfig,
  ValidationAttempt, ValidationLedger, new_ledger, attempts_of, find_command,
}
use codemachine_pipeline.Validation.Retry.{
  AutoFixOptions, max_attempts, ValidationOutcome, refused, command_not_found,
  execute_validation_with_auto_fix,
}
use codemachine_pipeline.Validation.Attempts.{
  IsRun, Validates, max_attempts-respects, execute_validation_with_auto_fix-cases, under-length,
}

pub type_eq-eq : (a b : ValidationCommandType) → type_eq a b ≡ true → a ≡ b
unfolding type_eq
type_eq-eq lint lint h = refl
type_eq-eq test test h = refl
type_eq-eq typecheck typecheck h = refl
type_eq-eq build build h = refl
type_eq-eq _ _ h = cc

pub type_eq_refl : (a : ValidationCommandType) → type_eq a a ≡ true
unfolding type_eq
type_eq_refl lint = refl
type_eq_refl test = refl
type_eq_refl typecheck = refl
type_eq_refl build = refl

pub find_command-type :
    (type : ValidationCommandType) (commands : List ValidationCommandConfig)
    (c : ValidationCommandConfig)
    → find_command type commands ≡ some c
    → c.type ≡ type
unfolding find_command
find_command-type type [] c e = cc
find_command-type type (b ∷ commands) c e = elim (Bool-cases (type_eq b.type type)) [
  | inl same ↦
      let it : b ≡ c = cc (rw same at e) in ap (λ k. k.type) (sym it) ∙ type_eq-eq b.type type same
  | inr other ↦ find_command-type type commands c (rw other at e)
]

-- A run makes no more attempts than it has, all of its own command.
IsRun-length :
    (exit_code : ℕ → ℤ) (command : ValidationCommandConfig) (options : AutoFixOptions)
    (n done at : ℕ) (attempts : List ValidationAttempt)
    → IsRun exit_code command options n done at attempts
    → (type : ValidationCommandType)
    → length (attempts_of type attempts) ≤ (if type_eq command.type type then n else 0)
unfolding attempts_of
IsRun-length exit_code command options n done at [] h type = ground arith
IsRun-length exit_code command options n done at (a ∷ attempts) (one, tried, inl (_, empty)) type =
    ground (
      arith,
      one,
      ap (λ k. type_eq k type) tried.type_is,
      ap (λ l. length (attempts_of type l)) empty,
    )
IsRun-length exit_code command options n done at (a ∷ attempts) (one, tried, inr (_, rest)) type =
    ground (
      arith,
      one,
      ap (λ k. type_eq k type) tried.type_is,
      IsRun-length exit_code command options (n - 1) (done + 1) (at + 1) attempts rest type,
    )

-- One call with retry limits, of any command of the registry.
abbrev call :
    (ℕ → ℤ)
    → List ValidationCommandConfig
    → AutoFixOptions
    → ValidationCommandType
    → ValidationLedger
    → ValidationLedger
call exit_code commands options type ledger =
    (execute_validation_with_auto_fix exit_code commands type options ledger).0

abbrev pub calls :
    (ℕ → ℤ)
    → List ValidationCommandConfig
    → AutoFixOptions
    → List ValidationCommandType
    → ValidationLedger
    → ValidationLedger
calls exit_code commands options [] ledger = ledger
calls exit_code commands options (type ∷ types) ledger =
    calls exit_code commands options types (call exit_code commands options type ledger)

-- Each command of the registry has at most as many attempts as twice its retries and one more.
abbrev pub IsLimited : List ValidationCommandConfig → ValidationLedger → Type 0
IsLimited commands ledger =
    (type : ValidationCommandType) (command : ValidationCommandConfig)
    → find_command type commands ≡ some command
    → length (attempts_of type ledger.attempts) ≤ 2 * command.max_retries + 1

pub call_absent :
    (exit_code : ℕ → ℤ) (commands : List ValidationCommandConfig) (options : AutoFixOptions)
    (type : ValidationCommandType) (ledger : ValidationLedger)
    → find_command type commands ≡ none
    → execute_validation_with_auto_fix exit_code commands type options ledger
      ≡ (ledger, refused (command_not_found type))
unfolding execute_validation_with_auto_fix
call_absent exit_code commands options type ledger absent =
    simp (execute_validation_with_auto_fix, absent)

-- The attempts of a call are added to those of its command.
Validates-length :
    (exit_code : ℕ → ℤ) (command : ValidationCommandConfig) (options : AutoFixOptions)
    (ledger : ValidationLedger) (r : ValidationLedger × ValidationOutcome)
    → options.respect_retry_limits ≡ true
    → Validates exit_code command options ledger r
    → (type : ValidationCommandType)
    → length (attempts_of type r.0.attempts)
      ≤ length (attempts_of type ledger.attempts)
        + (if type_eq command.type type then command.max_retries + 1 else 0)
unfolding attempts_of
Validates-length exit_code command options ledger r limits v type =
    let shape =
      ap (λ l. length (attempts_of type l)) v.recorded
      ∙ ap length (filter-append (λ a. type_eq a.command_type type) ledger.attempts v.made)
      ∙ length-append (attempts_of type ledger.attempts) (attempts_of type v.made) in
    let made =
      IsRun-length exit_code command options (max_attempts command options) 0
        (length ledger.attempts) v.made v.run type in
    let most = max_attempts-respects command options limits in
    elim (Bool-cases (type_eq command.type type)) [
      | inl same ↦ rw same (omega (arith, shape, rw same at made, most))
      | inr other ↦ rw other (omega (arith, shape, rw other at made))
    ]

call-IsLimited :
    (exit_code : ℕ → ℤ) (commands : List ValidationCommandConfig) (options : AutoFixOptions)
    (called : ValidationCommandType) (ledger : ValidationLedger)
    → options.respect_retry_limits ≡ true
    → IsLimited commands ledger
    → IsLimited commands (call exit_code commands options called ledger)
call-IsLimited exit_code commands options called ledger limits h type command found =
    elim (Option-cases (find_command called commands)) [
      | inl absent ↦
          subst (λ r. length (attempts_of type r.0.attempts) ≤ 2 * command.max_retries + 1)
            (sym (call_absent exit_code commands options called ledger absent))
            (h type command found)
      | inr (c, there) ↦
          elim (execute_validation_with_auto_fix-cases exit_code commands called options ledger c
            there limits) [
              | inl (_, e) ↦
                  subst (λ r. length (attempts_of type r.0.attempts) ≤ 2 * command.max_retries + 1)
                    (sym e) (h type command found)
              | inr (under, v) ↦
                  let added = Validates-length exit_code c options ledger _ limits v type in
                  elim (Bool-cases (type_eq c.type type)) [
                    | inl same ↦
                        let it : called ≡ type =
                          sym (find_command-type called commands c there)
                          ∙ type_eq-eq c.type type same in
                        let one : c ≡ command = cc (there, found, it) in
                        let count =
                          ap (λ k. length (attempts_of k ledger.attempts))
                            (type_eq-eq c.type type same) in
                        omega (
                          arith,
                          rw same at added,
                          under-length c ledger under,
                          count,
                          ap (λ k. k.max_retries) one,
                        )
                    | inr other ↦ omega (arith, rw other at added, h type command found)
                  ]
            ]
    ]

-- However often commands are validated with retry limits, from an empty ledger, each command has at most as
-- many attempts as twice its retries and one more: a call that begins below the limit makes all of its own.
pub calls-IsLimited :
    (exit_code : ℕ → ℤ) (commands : List ValidationCommandConfig) (options : AutoFixOptions)
    (types : List ValidationCommandType)
    → options.respect_retry_limits ≡ true
    → IsLimited commands (calls exit_code commands options types new_ledger)
unfolding attempts_of
calls-IsLimited exit_code commands options types limits =
    go types new_ledger (λ type command found. omega arith)
  where
    go :
        (types : List ValidationCommandType) (ledger : ValidationLedger)
        → IsLimited commands ledger
        → IsLimited commands (calls exit_code commands options types ledger)
    go [] ledger h = h
    go (type ∷ types) ledger h =
        go types (call exit_code commands options type ledger)
          (call-IsLimited exit_code commands options type ledger limits h)
