-- ===== src/Validation/Attempts.antt =====
-- The retries of one validation command, and the ledger of its attempts.
use codemachine_pipeline.Prelude.{
  ℕ, zero, suc, ◌+◌, ◌-◌, ◌≤◌, ◌≡◌, refl, sym, ap, ◌∙◌, subst, true, false, ◌&&◌, Option, none,
  some, List, [], ◌∷◌, ◌++◌, append-nil, append_assoc, leb, length, length-append, arith, String,
  Bool, ◌≢◌, nonempty, str_eq, eq_iff, if◌then◌else◌, Bool-cases, inl, inr, ◌⊎◌,
}
use codemachine_pipeline.Prelude.Int.{ℤ}
use codemachine_pipeline.Queue.Types.{or_else}
use codemachine_pipeline.Validation.{
  ValidationCommandType, ValidationCommandConfig, ValidationAttempt, ValidationLedger, passed,
  summary_of, record_validation_attempt, attempts_of, find_command, has_exceeded_retry_limit,
}
use codemachine_pipeline.Validation.Retry.{
  AutoFixOptions, max_attempts, exceeded_retry_limit, no_recorded_attempt, ValidationOutcome,
  validated, refused, attempt_command, retry_loop, execute_validation_with_auto_fix,
}

-- A text that is run: the fixing command where an attempt is to fix and one that is not empty is configured,
-- and else the command.
abbrev pub Fixes : Option String → String → String → Type 0
Fixes none plain text = text ≡ plain
Fixes (some fix) plain text = ((fix ≢ "") × (text ≡ fix)) ⊎ ((fix ≡ "") × (text ≡ plain))

abbrev pub IsText : ValidationCommandConfig → Bool → String → Type 0
IsText command false text = text ≡ command.command
IsText command true text = Fixes command.auto_fix_command command.command text

-- The attempt after `done` of one call and `at` of the ledger: what it runs, and how that ended.
pub record IsAttempt (exit_code : ℕ → ℤ) (command : ValidationCommandConfig)
    (options : AutoFixOptions) (done at : ℕ) (a : ValidationAttempt) : Type 0 where
  pub type_is : a.command_type ≡ command.type
  pub number_is : a.attempt_number ≡ done + 1
  pub fix_is :
      a.auto_fix_attempted ≡ (leb 1 done && options.enable_auto_fix && command.supports_auto_fix)
  pub text_is : IsText command a.auto_fix_attempted a.command_template
  pub exit_is : a.exit_code ≡ exit_code at

-- The attempts of one call, with `n` left after `done` of them and `at` of the ledger: numbered in order, after
-- the first one with the fixing command where that is enabled and supported, until one passes or none is left.
abbrev pub IsRun :
    (ℕ → ℤ) → ValidationCommandConfig → AutoFixOptions → ℕ → ℕ → ℕ → List ValidationAttempt → Type 0
IsRun exit_code command options n done at [] = n ≡ 0
IsRun exit_code command options n done at (a ∷ attempts) =
    (1 ≤ n)
    × IsAttempt exit_code command options done at a
    × (((passed a ≡ true) × (attempts ≡ []))
        ⊎ ((passed a ≡ false)
            × IsRun exit_code command options (n - 1) (done + 1) (at + 1) attempts))

abbrev pub last_of : Option ValidationAttempt → List ValidationAttempt → Option ValidationAttempt
last_of last [] = last
last_of last (a ∷ attempts) = last_of (some a) attempts

abbrev pub ending_with : ValidationCommandType → Option ValidationAttempt → ValidationOutcome
ending_with type none = refused (no_recorded_attempt type)
ending_with type (some a) = validated a

-- The summary of the ledger is that of its attempts.
abbrev pub IsSummarised : ValidationLedger → Type 0
IsSummarised ledger = ledger.summary ≡ summary_of ledger.attempts

-- What a loop leaves: the attempts of a run are added, and the last one is the result.
pub record Loop (exit_code : ℕ → ℤ) (command : ValidationCommandConfig) (options : AutoFixOptions)
    (n done : ℕ) (last : Option ValidationAttempt) (ledger : ValidationLedger)
    (r : ValidationLedger × ValidationOutcome) : Type 0 where
  pub made : List ValidationAttempt
  pub recorded : r.0.attempts ≡ ledger.attempts ++ made
  pub run : IsRun exit_code command options n done (length ledger.attempts) made
  pub outcome : r.1 ≡ ending_with command.type (last_of last made)
  pub summarised : IsSummarised ledger → IsSummarised r.0

length-snoc :
    (attempts : List ValidationAttempt) (a : ValidationAttempt)
    → length (attempts ++ a ∷ []) ≡ length attempts + 1
length-snoc attempts a = length-append attempts (a ∷ [])

fixes_lem : (fix : Option String) (plain : String) → Fixes fix plain (or_else (nonempty fix) plain)
fixes_lem none plain = refl
fixes_lem (some fix) plain = elim (Bool-cases (str_eq fix "")) [
  | inl empty ↦ inr ((eq_iff fix "").0 empty, ground (arith, empty))
  | inr filled ↦ inl (λ e. cc, ground (arith, filled))
]

text_lem :
    (command : ValidationCommandConfig) (fix : Bool)
    → IsText command fix (
        if fix
        then or_else (nonempty command.auto_fix_command) command.command
        else command.command)
text_lem command false = refl
text_lem command true = fixes_lem command.auto_fix_command command.command

module _ (exit_code : ℕ → ℤ) (command : ValidationCommandConfig) (options : AutoFixOptions) where
  -- the attempt of a round
  attempt_command-IsAttempt :
      (done : ℕ) (ledger : ValidationLedger)
      → IsAttempt exit_code command options done (length ledger.attempts) (
          attempt_command exit_code command
            (done + 1)
            (leb 1 done && options.enable_auto_fix && command.supports_auto_fix)
            ledger)
  unfolding attempt_command
  attempt_command-IsAttempt done ledger = record {
    type_is = refl;
    number_is = refl;
    fix_is = refl;
    text_is = text_lem command _;
    exit_is = refl;
  }

  pub retry_loop-Loop :
      (n done : ℕ) (last : Option ValidationAttempt) (ledger : ValidationLedger)
      → Loop exit_code command options n done last ledger
          (retry_loop exit_code command options n done last ledger)
  unfolding retry_loop record_validation_attempt attempt_command
  retry_loop-Loop zero done none ledger = record {
    made = [];
    recorded = sym (append-nil ledger.attempts);
    run = refl;
    outcome = refl;
    summarised = λ h. h;
  }
  retry_loop-Loop zero done (some a) ledger = record {
    made = [];
    recorded = sym (append-nil ledger.attempts);
    run = refl;
    outcome = refl;
    summarised = λ h. h;
  }
  retry_loop-Loop (suc n) done last ledger =
      let fix = leb 1 done && options.enable_auto_fix && command.supports_auto_fix in
      let a = attempt_command exit_code command (done + 1) fix ledger in
      let h = retry_loop-Loop n (done + 1) (some a) (record_validation_attempt a ledger) in
      let less : suc n - 1 ≡ n = omega arith in
      let tried = attempt_command-IsAttempt done ledger in
      elim (Bool-cases (passed a)) [
        | inl good ↦ rw good (record {
          made = a ∷ [];
          recorded = refl;
          run = (omega arith, tried, inl (good, refl));
          outcome = refl;
          summarised = λ s. refl;
        })
        | inr bad ↦ rw bad (record {
          made = a ∷ h.made;
          recorded = h.recorded ∙ append_assoc ledger.attempts (a ∷ []) h.made;
          run =
              (omega arith, tried, inr (bad, rw (less, sym (length-snoc ledger.attempts a)) h.run));
          outcome = h.outcome;
          summarised = λ s. h.summarised refl;
        })
      ]

-- How often a call may try a command: once, and once more for each retry.
pub max_attempts-respects :
    (command : ValidationCommandConfig) (options : AutoFixOptions)
    → options.respect_retry_limits ≡ true
    → max_attempts command options ≡ command.max_retries + 1
unfolding max_attempts
max_attempts-respects command options h = rw h refl

-- What one call does when the command is found and is not refused.
pub record Validates (exit_code : ℕ → ℤ) (command : ValidationCommandConfig)
    (options : AutoFixOptions) (ledger : ValidationLedger)
    (r : ValidationLedger × ValidationOutcome) : Type 0 where
  pub made : List ValidationAttempt
  pub recorded : r.0.attempts ≡ ledger.attempts ++ made
  pub run :
      IsRun exit_code command options (max_attempts command options) 0 (length ledger.attempts) made
  pub result : (a : ValidationAttempt) × (r.1 ≡ validated a) × (last_of none made ≡ some a)

last_of-cons :
    (last : ValidationAttempt) (later : List ValidationAttempt)
    → (a : ValidationAttempt) × (last_of (some last) later ≡ some a)
last_of-cons last [] = (last, refl)
last_of-cons last (a ∷ later) = last_of-cons a later

Loop-Validates :
    (exit_code : ℕ → ℤ) (command : ValidationCommandConfig) (options : AutoFixOptions) (n : ℕ)
    (ledger : ValidationLedger) (r : ValidationLedger × ValidationOutcome)
    → max_attempts command options ≡ suc n
    → Loop exit_code command options (max_attempts command options) 0 none ledger r
    → Validates exit_code command options ledger r
Loop-Validates exit_code command options n ledger r some_left h = elim (list-cases h.made) [
  | inl empty ↦ absurd (omega (arith, some_left, rw empty at h.run))
  | inr (a, later, e) ↦
      let (b, last) = last_of-cons a later in
      let whole : last_of none h.made ≡ some b = ap (last_of none) e ∙ last in
      record {
        made = h.made;
        recorded = h.recorded;
        run = h.run;
        result = (b, h.outcome ∙ ap (ending_with command.type) whole, whole);
      }
]
  where
    list-cases :
        (later : List ValidationAttempt)
        → (later ≡ [])
          ⊎ ((b : ValidationAttempt) × (others : List ValidationAttempt) × (later ≡ b ∷ others))
    list-cases [] = inl refl
    list-cases (b ∷ others) = inr (b, others, refl)

-- The two cases of a call under retry limits.
pub execute_validation_with_auto_fix-cases :
    (exit_code : ℕ → ℤ) (commands : List ValidationCommandConfig) (type : ValidationCommandType)
    (options : AutoFixOptions) (ledger : ValidationLedger) (command : ValidationCommandConfig)
    → find_command type commands ≡ some command
    → options.respect_retry_limits ≡ true
    → (has_exceeded_retry_limit command ledger ≡ true)
        × (execute_validation_with_auto_fix exit_code commands type options ledger ≡ (
          ledger,
          refused (
              exceeded_retry_limit type
                (length (attempts_of type ledger.attempts))
                (command.max_retries + 1)),
        ))
      ⊎ (has_exceeded_retry_limit command ledger ≡ false)
        × Validates exit_code command options ledger
            (execute_validation_with_auto_fix exit_code commands type options ledger)
unfolding execute_validation_with_auto_fix
execute_validation_with_auto_fix-cases exit_code commands type options ledger command found limits =
    elim (Bool-cases (has_exceeded_retry_limit command ledger)) [
      | inl over ↦ inl (over, simp (execute_validation_with_auto_fix, found, limits, over))
      | inr under ↦
          let ran : execute_validation_with_auto_fix exit_code commands type options ledger
              ≡ retry_loop exit_code command options (max_attempts command options) 0 none ledger =
            simp (execute_validation_with_auto_fix, found, limits, under) in
          inr (
            under,
            subst (Validates exit_code command options ledger) (sym ran) (
                Loop-Validates exit_code command options command.max_retries ledger _
                  (max_attempts-respects command options limits ∙ omega arith)
                  (retry_loop-Loop exit_code command options (max_attempts command options) 0 none
                    ledger)),
          )
    ]

pub under-length :
    (command : ValidationCommandConfig) (ledger : ValidationLedger)
    → has_exceeded_retry_limit command ledger ≡ false
    → length (attempts_of command.type ledger.attempts) ≤ command.max_retries
unfolding has_exceeded_retry_limit
under-length command ledger h = ground (arith, h)
