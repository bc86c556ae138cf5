-- ===== src/Resume/Says.antt =====
-- Whether an analysis can be resumed and whether it is blocked, after each diagnostic.
use codemachine_pipeline.Prelude.{
  ◌≡◌, ap, ◌∙◌, Bool, true, false, ◌||◌, some, List, [], ◌∷◌, ◌++◌, if◌then◌else◌, arith,
}
use codemachine_pipeline.Resume.Types.{
  DiagnosticSeverity, blocker, DiagnosticCode, ResumeDiagnostic, VerificationResult,
  QueueValidationResult, ResumeAnalysis,
}
use codemachine_pipeline.Resume.Checks.{push_diagnostic, severity_eq}
use codemachine_pipeline.Resume.{has_blockers}

-- An analysis so far: whether it can be resumed, and whether it is blocked.
pub record Says (a : ResumeAnalysis) (can blocked : Bool) : Type 0 where
  pub can_is : a.can_resume ≡ can
  pub blocked_is : has_blockers a.diagnostics ≡ blocked

pub weaken :
    {a : ResumeAnalysis} {can blocked other : Bool}
    → Says a can blocked
    → blocked ≡ other
    → Says a can other
weaken h e = record { can_is = h.can_is; blocked_is = h.blocked_is ∙ e }

-- The results of the checks stand beside what decides.
pub checked :
    {a : ResumeAnalysis} {can blocked : Bool} (r : VerificationResult)
    → Says a can blocked
    → Says (record a { integrity_check = some r }) can blocked
checked r h = record { can_is = h.can_is; blocked_is = h.blocked_is }

pub validated :
    {a : ResumeAnalysis} {can blocked : Bool} (v : QueueValidationResult)
    → Says a can blocked
    → Says (record a { queue_validation = some v }) can blocked
validated v h = record { can_is = h.can_is; blocked_is = h.blocked_is }

has_blockers-append :
    (ds : List ResumeDiagnostic) (d : ResumeDiagnostic)
    → has_blockers (ds ++ d ∷ []) ≡ has_blockers ds || severity_eq d.severity blocker
unfolding has_blockers
has_blockers-append [] d = ground arith
has_blockers-append (x ∷ ds) d = ground (arith, has_blockers-append ds d)

pub push_diagnostic-Says :
    (severity : DiagnosticSeverity) (code : DiagnosticCode) (a : ResumeAnalysis)
    (can blocked : Bool)
    → Says a can blocked
    → Says (push_diagnostic severity code a) can (blocked || severity_eq severity blocker)
unfolding push_diagnostic
push_diagnostic-Says severity code a can blocked h = record {
  can_is = h.can_is;
  blocked_is =
      has_blockers-append a.diagnostics (record { severity = severity; code = code })
      ∙ ap (λ b. b || severity_eq severity blocker) h.blocked_is;
}

-- a diagnostic that does not block
pub or_false : (b : Bool) → b || false ≡ b
or_false b = ground arith

pub note-Says :
    (severity : DiagnosticSeverity) (code : DiagnosticCode) (a : ResumeAnalysis)
    (can blocked : Bool)
    → severity_eq severity blocker ≡ false
    → Says a can blocked
    → Says (push_diagnostic severity code a) can blocked
note-Says severity code a can blocked mild h =
    let pushed = push_diagnostic-Says severity code a can blocked h in
    weaken pushed (rw mild (or_false blocked))

pub if-Says :
    (test : Bool) (x y : ResumeAnalysis) (can blocked : Bool)
    → Says x can blocked
    → Says y can blocked
    → Says (if test then x else y) can blocked
if-Says true x y can blocked h k = h
if-Says false x y can blocked h k = k

pub choose-Says :
    (test : Bool) (x y : ResumeAnalysis) (can b c : Bool)
    → Says x can b
    → Says y can c
    → Says (if test then x else y) can (if test then b else c)
choose-Says true x y can b c h k = h
choose-Says false x y can b c h k = k

pub or_true : (b : Bool) → b || true ≡ true
or_true b = ground arith

pub block-Says :
    (code : DiagnosticCode) (a : ResumeAnalysis) (can blocked : Bool)
    → Says a can blocked
    → Says (push_diagnostic blocker code a) can true
unfolding severity_eq
block-Says code a can blocked h =
    let pushed = push_diagnostic-Says blocker code a can blocked h in
    weaken pushed (or_true blocked)
