-- ===== src/Validation/Success.antt =====
-- What the success of a suite of validations means.
use codemachine_pipeline.Prelude.{
  ℕ, ◌≡◌, refl, sym, ap, ◌∙◌, Bool, true, false, Option, List, [], ◌∷◌, ◌++◌, if◌then◌else◌,
  append-nil, append_assoc, all, All, arith, Bool-cases, inl, inr,
}
use codemachine_pipeline.Prelude.Int.{ℤ}
use codemachine_pipeline.Queue.Types.{or_else}
use codemachine_pipeline.Validation.{
  ValidationCommandType, type_eq, ValidationCommandConfig, ValidationAttempt, ValidationLedger,
  passed,
}
use codemachine_pipeline.Validation.Retry.{
  AutoFixOptions, exceeded_retry_limit, command_not_found, no_recorded_attempt, ValidationOutcome,
  validated, refused, execute_validation_with_auto_fix,
}
use codemachine_pipeline.Validation.Suite.{
  AutoFixResult, SuiteOutcome, finished, threw, set_result, is_success, add_result, run_suite,
  judge, no_result, execute_all_validations, required_types,
}
use codemachine_pipeline.Validation.Commands.{type_eq-eq}
use codemachine_pipeline.Validation.Calls.{has_passed, has_passed-append, Call, execute-Call}

-- Each success among the results is a passed attempt among those that were made.
abbrev Evidence : AutoFixResult → List ValidationAttempt → Type 0
Evidence r made =
    (type : ValidationCommandType) → is_success r.results type ≡ true → has_passed type made ≡ true

is_success-set_result :
    (type t : ValidationCommandType) (a : ValidationAttempt)
    (results : List (ValidationCommandType × ValidationAttempt))
    → is_success (set_result type a results) t
      ≡ (if type_eq type t then passed a else is_success results t)
unfolding is_success set_result
is_success-set_result type t a [] = refl
is_success-set_result type t a ((u, b) ∷ results) = elim (Bool-cases (type_eq u type)) [
  | inl same ↦ let it : u ≡ type = type_eq-eq u type same in rw same (rw it (ground arith))
  | inr other ↦ elim (Bool-cases (type_eq u t)) [
    | inl here ↦
        let apart : type_eq type t ≡ false = elim (Bool-cases (type_eq type t)) [
          | inl e ↦ absurd (cc (type_eq-eq type t e, here, other))
          | inr e ↦ e
        ] in
        rw (other, here, apart) refl
    | inr there ↦ rw (other, there) (is_success-set_result type t a results)
  ]
]

add_result-Evidence :
    (type : ValidationCommandType) (a : ValidationAttempt) (r : AutoFixResult)
    (before more : List ValidationAttempt)
    → (passed a ≡ true → has_passed type more ≡ true)
    → Evidence r before
    → Evidence (add_result type a r) (before ++ more)
unfolding add_result
add_result-Evidence type a r before more good h t success =
    let grown = has_passed-append t before more in
    let set = is_success-set_result type t a r.results in
    elim (Bool-cases (type_eq type t)) [
      | inl same ↦
          let found = good (ground (arith, success, set, same)) in
          ground (arith, grown, ap (λ k. has_passed k more) (type_eq-eq type t same), found)
      | inr other ↦ ground (arith, grown, h t (ground (arith, success, set, other)))
    ]

keep-Evidence :
    (r q : AutoFixResult) (before more : List ValidationAttempt)
    → q.results ≡ r.results
    → Evidence r before
    → Evidence q (before ++ more)
keep-Evidence r q before more same h t success =
    ground
      (arith, has_passed-append t before more, h t (ap (λ l. is_success l t) (sym same) ∙ success))

-- What a suite that ended says is true of the attempts that it made.
abbrev Holds : ValidationLedger → ValidationLedger × SuiteOutcome → Type 0
Holds base (ledger, finished r) =
    (made : List ValidationAttempt) × (ledger.attempts ≡ base.attempts ++ made) × Evidence r made
Holds base (ledger, threw error) = Unit

module _ (exit_code : ℕ → ℤ) (commands : List ValidationCommandConfig) (options : AutoFixOptions)
    (base : ValidationLedger) where
  -- what is to be shown of the rest of the loop, after some attempts
  abbrev Goal : List ValidationCommandType → Type 0
  Goal types =
      (ledger : ValidationLedger) (r : AutoFixResult) (before : List ValidationAttempt)
      → ledger.attempts ≡ base.attempts ++ before
      → Evidence r before
      → Holds base (run_suite exit_code commands options types ledger r)

  round-Goal :
      (type : ValidationCommandType) (types : List ValidationCommandType)
      → Goal types
      → (ledger : ValidationLedger) (r : AutoFixResult) (before : List ValidationAttempt)
      → ledger.attempts ≡ base.attempts ++ before
      → Evidence r before
      → (o : ValidationLedger × ValidationOutcome) → Call type ledger o
      → execute_validation_with_auto_fix exit_code commands type options ledger ≡ o
      → Holds base (run_suite exit_code commands options (type ∷ types) ledger r)
  unfolding run_suite
  round-Goal type types rest ledger r before so_far h (after_it, validated a) c e =
      rw (run_suite, e, ap (λ o. o.0) e)
        (rest after_it (add_result type a r) (before ++ c.made)
          (c.recorded ∙ ap (λ l. l ++ c.made) so_far ∙ append_assoc base.attempts before c.made)
          (add_result-Evidence type a r before c.made (c.result a refl) h))
  round-Goal type types rest ledger r before so_far h
        (after_it, refused (exceeded_retry_limit t n m)) c e =
      rw (run_suite, e, ap (λ o. o.0) e)
        (rest after_it (record r { exceeded_retry_limits = r.exceeded_retry_limits ++ type ∷ [] })
          (before ++ c.made)
          (c.recorded ∙ ap (λ l. l ++ c.made) so_far ∙ append_assoc base.attempts before c.made)
          (keep-Evidence r
            (record r { exceeded_retry_limits = r.exceeded_retry_limits ++ type ∷ [] }) before
            c.made refl h))
  round-Goal type types rest ledger r before so_far h (after_it, refused (command_not_found t)) c
        e =
      rw (run_suite, e) tt
  round-Goal type types rest ledger r before so_far h (after_it, refused (no_recorded_attempt t)) c
        e =
      rw (run_suite, e) tt

  run_suite-Goal : (types : List ValidationCommandType) → Goal types
  unfolding run_suite
  run_suite-Goal [] ledger r before so_far h = (before, so_far, h)
  run_suite-Goal (type ∷ types) ledger r before so_far h =
      round-Goal type types (run_suite-Goal types) ledger r before so_far h
        (execute_validation_with_auto_fix exit_code commands type options ledger)
        (execute-Call exit_code commands options type ledger) refl

all-All :
    (p q : ValidationCommandType → Bool)
    → ((t : ValidationCommandType) → p t ≡ true → q t ≡ true)
    → (types : List ValidationCommandType) → all p types ≡ true
    → All (λ t. q t ≡ true) types
all-All p q f [] h = tt
all-All p q f (t ∷ types) h = (f t (ground (arith, h)), all-All p q f types (ground (arith, h)))

judge-All :
    (base : ValidationLedger) (types : List ValidationCommandType)
    (o : ValidationLedger × SuiteOutcome) (r : AutoFixResult)
    → Holds base o
    → (judge types o).1 ≡ finished r
    → r.success ≡ true
    → (made : List ValidationAttempt) × ((judge types o).0.attempts ≡ base.attempts ++ made)
      × All (λ type. has_passed type made ≡ true) types
judge-All base types (ledger, finished q) r (made, recorded, h) e success =
    let judged : all (is_success q.results) types ≡ true = cc (e, success) in
    (made, recorded, all-All (is_success q.results) (λ t. has_passed t made) h types judged)
judge-All base types (ledger, threw error) r h e success = cc

-- When a suite of validations, of the commands that are asked for or of all required ones, reports success,
-- the attempts that it recorded hold a passed one of each of these commands.
pub execute_all_validations-success :
    (exit_code : ℕ → ℤ) (commands : List ValidationCommandConfig) (options : AutoFixOptions)
    (command_types : Option (List ValidationCommandType)) (ledger : ValidationLedger)
    (r : AutoFixResult)
    → (execute_all_validations exit_code commands options command_types ledger).1 ≡ finished r
    → r.success ≡ true
    → (made : List ValidationAttempt) × ((execute_all_validations exit_code commands options
          command_types ledger).0.attempts
        ≡ ledger.attempts ++ made)
      × All (λ type. has_passed type made ≡ true) (or_else command_types (required_types commands))
unfolding execute_all_validations
execute_all_validations-success exit_code commands options command_types ledger r e success =
    go (or_else command_types (required_types commands)) refl
  where
    go :
        (targets : List ValidationCommandType)
        → or_else command_types (required_types commands) ≡ targets
        → (made : List ValidationAttempt) × ((execute_all_validations exit_code commands options
              command_types ledger).0.attempts
            ≡ ledger.attempts ++ made)
          × All (λ type. has_passed type made ≡ true) targets
    go [] same = rw (execute_all_validations, same) ([], sym (append-nil ledger.attempts), tt)
    go (t ∷ ts) same =
        rw (execute_all_validations, same)
          (judge-All ledger (t ∷ ts)
            (run_suite exit_code commands options (t ∷ ts) ledger no_result) r
            (run_suite-Goal exit_code commands options ledger (t ∷ ts) ledger no_result []
              (sym (append-nil ledger.attempts)) (λ k h. cc))
            (rw (execute_all_validations, same) at e) success)
