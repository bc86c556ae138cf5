-- ===== src/Validation/Calls.antt =====
-- What one call adds to the ledger, whatever its options.
use codemachine_pipeline.Prelude.{
  ℕ, ◌+◌, ◌-◌, ◌≡◌, refl, sym, ap, subst, Bool, true, ◌&&◌, ◌||◌, Option, none, some, List, [], ◌∷◌,
  ◌++◌, append-nil, length, any, arith, Bool-cases, Option-cases, inl, inr, ◌⊎◌,
}
use codemachine_pipeline.Prelude.Int.{ℤ}
use codemachine_pipeline.Validation.{
  ValidationCommandType, type_eq, ValidationCommandConfig, ValidationAttempt, ValidationLedger,
  passed, attempts_of, find_command, has_exceeded_retry_limit,
}
use codemachine_pipeline.Validation.Retry.{
  AutoFixOptions, max_attempts, AutoFixError, exceeded_retry_limit, command_not_found,
  ValidationOutcome, validated, refused, retry_loop, execute_validation_with_auto_fix,
}
use codemachine_pipeline.Validation.Attempts.{
  IsRun, last_of, ending_with, IsSummarised, Loop, retry_loop-Loop,
}
use codemachine_pipeline.Validation.Commands.{type_eq_refl, find_command-type, call_absent}

-- The ledger holds a passed attempt of a command.
abbrev pub has_passed : ValidationCommandType → List ValidationAttempt → Bool
has_passed type = any (λ a. type_eq a.command_type type && passed a)

pub has_passed-append :
    (type : ValidationCommandType) (xs ys : List ValidationAttempt)
    → has_passed type (xs ++ ys) ≡ (has_passed type xs || has_passed type ys)
has_passed-append type [] ys = refl
has_passed-append type (x ∷ xs) ys = ground (arith, has_passed-append type xs ys)

-- The last attempt of a run is among its attempts.
IsRun-has_passed :
    (exit_code : ℕ → ℤ) (command : ValidationCommandConfig) (options : AutoFixOptions)
    (n done at : ℕ) (last : Option ValidationAttempt) (made : List ValidationAttempt)
    (a : ValidationAttempt)
    → IsRun exit_code command options n done at made
    → last_of last made ≡ some a
    → passed a ≡ true
    → (last ≡ some a) ⊎ (has_passed command.type made ≡ true)
IsRun-has_passed exit_code command options n done at last [] a run e good = inl e
IsRun-has_passed exit_code command options n done at last (b ∷ made) a (_, tried, inl (good_b, _)) e
      good =
    inr (
      ground
        (arith, good_b, ap (λ k. type_eq k command.type) tried.type_is, type_eq_refl command.type))
IsRun-has_passed exit_code command options n done at last (b ∷ made) a (_, tried, inr (bad, rest)) e
      good =
    elim (IsRun-has_passed exit_code command options (n - 1) (done + 1) (at + 1) (some b) made a
      rest e good) [
        | inl same ↦ absurd (cc (same, bad, good))
        | inr found ↦ inr (ground (arith, found))
      ]

-- What a call does to the ledger, whatever its options.
pub record Call (type : ValidationCommandType) (ledger : ValidationLedger)
    (r : ValidationLedger × ValidationOutcome) : Type 0 where
  pub made : List ValidationAttempt
  pub recorded : r.0.attempts ≡ ledger.attempts ++ made
  pub summarised : IsSummarised ledger → IsSummarised r.0
  pub result :
      (a : ValidationAttempt) → r.1 ≡ validated a → passed a ≡ true → has_passed type made ≡ true

Call-refused :
    (type : ValidationCommandType) (ledger : ValidationLedger) (error : AutoFixError)
    → Call type ledger (ledger, refused error)
Call-refused type ledger error = record {
  made = [];
  recorded = sym (append-nil ledger.attempts);
  summarised = λ h. h;
  result = λ a e good. cc;
}

Loop-Call :
    (exit_code : ℕ → ℤ) (command : ValidationCommandConfig) (options : AutoFixOptions) (n : ℕ)
    (ledger : ValidationLedger) (r : ValidationLedger × ValidationOutcome)
    → Loop exit_code command options n 0 none ledger r
    → Call command.type ledger r
Loop-Call exit_code command options n ledger r h = record {
  made = h.made;
  recorded = h.recorded;
  summarised = h.summarised;
  result = λ a e good. elim (Option-cases (last_of none h.made)) [
    | inl nothing ↦ absurd (cc (e, h.outcome, ap (ending_with command.type) nothing))
    | inr (b, last) ↦
        let same : b ≡ a = cc (e, h.outcome, ap (ending_with command.type) last) in
        elim (IsRun-has_passed exit_code command options n 0 (length ledger.attempts) none h.made b
          h.run last (rw same good)) [ inl absent ↦ absurd (cc absent) | inr found ↦ found ]
  ];
}

module _ (exit_code : ℕ → ℤ) (commands : List ValidationCommandConfig)
    (options : AutoFixOptions) where
  pub execute-Call :
      (type : ValidationCommandType) (ledger : ValidationLedger)
      → Call type ledger (execute_validation_with_auto_fix exit_code commands type options ledger)
  unfolding execute_validation_with_auto_fix
  execute-Call type ledger = elim (Option-cases (find_command type commands)) [
    | inl absent ↦
        subst (Call type ledger) (sym (call_absent exit_code commands options type ledger absent))
          (Call-refused type ledger (command_not_found type))
    | inr (c, found) ↦
        elim (Bool-cases (options.respect_retry_limits && has_exceeded_retry_limit c ledger)) [
          | inl over ↦
              let e : execute_validation_with_auto_fix exit_code commands type options ledger ≡ (
                ledger,
                refused (
                    exceeded_retry_limit type (length (attempts_of type ledger.attempts))
                      (c.max_retries + 1)),
              ) =
                simp (execute_validation_with_auto_fix, found, over) in
              subst (Call type ledger) (sym e) (Call-refused type ledger _)
          | inr under ↦
              let e : execute_validation_with_auto_fix exit_code commands type options ledger
                  ≡ retry_loop exit_code c options (max_attempts c options) 0 none ledger =
                simp (execute_validation_with_auto_fix, found, under) in
              subst (Call type ledger) (sym e) (
                subst
                  (λ k.
                    Call k ledger
                      (retry_loop exit_code c options (max_attempts c options) 0 none ledger))
                  (find_command-type type commands c found)
                  (Loop-Call exit_code c options (max_attempts c options) ledger _
                    (retry_loop-Loop exit_code c options (max_attempts c options) 0 none ledger)))
        ]
  ]
