-- ===== src/Resume/Again.antt =====
-- Preparing a resume a second time.
use codemachine_pipeline.Prelude.{
  ◌≡◌, sym, ap, subst, ◌∙◌, String, Bool, true, false, not, ◌&&◌, ◌||◌, Option, none, List,
  if◌then◌else◌, ◌⊎◌, inl, inr, nonempty, arith, Bool-cases, Option-cases, eq_iff,
}
use codemachine_pipeline.Resume.Types.{
  RunStatus, RunManifest, blocker, ResumeOptions, VerificationResult, QueueValidationResult,
  ResumeAnalysis,
}
use codemachine_pipeline.Resume.Checks.{is_fatal, is_set, is_not_off, of_severity, has_any}
use codemachine_pipeline.Resume.{
  analyze_resume_state, clears_error, moves_step, resumed_manifest, prepare_resume,
}
use codemachine_pipeline.Resume.Steps.{is_completed, is_failed, is_damaged}
use codemachine_pipeline.Resume.Decision.{can_resume-analyze_resume_state}
use codemachine_pipeline.Resume.Remembers.{Remembers, analyze-Remembers}

inr_injective {ℓ κ} :
    {A : Type ℓ} {B : Type κ} (p : A ⊎ B) (x y : B) → p ≡ inr x → p ≡ inr y → x ≡ y
inr_injective p x y h k = ground (arith, h, k)

settled :
    (b : ResumeAnalysis) (later : String) (m : RunManifest)
    → clears_error b m ≡ false
    → moves_step b m ≡ false
    → resumed_manifest b later m ≡ m
unfolding resumed_manifest
settled b later m clear still = rw (resumed_manifest, clear, still)

module _ (a : ResumeAnalysis) (now : String) (m : RunManifest) where
  resumed-error :
      (resumed_manifest a now m).execution.last_error
      ≡ (if clears_error a m then none else m.execution.last_error)
  unfolding resumed_manifest
  resumed-error = ground arith

  resumed-step :
      (resumed_manifest a now m).execution.current_step
      ≡ (if moves_step a m then a.last_step else m.execution.current_step)
  unfolding resumed_manifest
  resumed-step = ground arith

  resumed-last : (resumed_manifest a now m).execution.last_step ≡ m.execution.last_step
  unfolding resumed_manifest
  resumed-last = ground arith

  resumed-rest :
      ((resumed_manifest a now m).status ≡ m.status)
      × ((resumed_manifest a now m).pending_approvals ≡ m.pending_approvals)
  unfolding resumed_manifest
  resumed-rest = (ground arith, ground arith)

  resumed-fatal :
      Remembers m a
      → is_fatal (resumed_manifest a now m).execution.last_error ≡ is_fatal m.execution.last_error
  unfolding is_fatal clears_error
  resumed-fatal h = ground (arith, resumed-error, h.error_is)

  clears-again :
      (b : ResumeAnalysis)
      → Remembers m a
      → Remembers (resumed_manifest a now m) b
      → clears_error b (resumed_manifest a now m) ≡ false
  unfolding clears_error
  clears-again b h k = ground (arith, resumed-error, h.error_is, k.error_is)

  moves-again :
      (b : ResumeAnalysis)
      → Remembers m a
      → Remembers (resumed_manifest a now m) b
      → moves_step b (resumed_manifest a now m) ≡ false
  unfolding moves_step
  moves-again b h k =
      let same : b.last_step ≡ a.last_step = k.step_is ∙ ap nonempty resumed-last ∙ sym h.step_is in
      elim (Option-cases a.last_step) [
        | inl stepless ↦ ground (arith, stepless, same)
        | inr (step, e) ↦ ground (arith, e, same, resumed-step, eq_iff step step)
      ]

  -- A manifest that is prepared is left as it is.
  resumed-again :
      (b : ResumeAnalysis) (later : String)
      → Remembers m a
      → Remembers (resumed_manifest a now m) b
      → resumed_manifest b later (resumed_manifest a now m) ≡ resumed_manifest a now m
  resumed-again b later h k =
      settled b later (resumed_manifest a now m) (clears-again b h k) (moves-again b h k)

module _ (to_lower_case : String → String) (integrity : Option VerificationResult)
    (queue : QueueValidationResult) (options : ResumeOptions) (now later : String)
    (m : RunManifest) where
  abbrev analysis : RunManifest → ResumeAnalysis
  analysis = analyze_resume_state to_lower_case integrity queue options

  abbrev prepared : RunManifest
  prepared = resumed_manifest (analysis m) now m

  -- what decides, by the status, the pending approvals and whether the last error is fatal
  abbrev verdict : RunStatus → List String → Bool → Bool
  verdict status approvals fatal =
      not (is_completed status)
      && (is_set options.force
          || not (
              ((is_failed status && fatal) || has_any approvals)
              || (not (is_set options.skip_hash_verification)
                  && not (is_set options.force)
                  && is_damaged integrity)
              || (is_not_off options.validate_queue && not queue.valid)))

  can_resume-again : (analysis prepared).can_resume ≡ (analysis m).can_resume
  can_resume-again =
      let rest = resumed-rest (analysis m) now m in
      let fatal =
        resumed-fatal (analysis m) now m
          (analyze-Remembers m to_lower_case integrity queue options) in
      can_resume-analyze_resume_state to_lower_case integrity queue options prepared
      ∙ ap (λ st. verdict st prepared.pending_approvals (is_fatal prepared.execution.last_error))
          rest.0
      ∙ ap (λ ps. verdict m.status ps (is_fatal prepared.execution.last_error)) rest.1
      ∙ ap (verdict m.status m.pending_approvals) fatal
      ∙ sym (can_resume-analyze_resume_state to_lower_case integrity queue options m)

  prepare_resume-goes :
      (at : String) (n : RunManifest)
      → (analysis n).can_resume ≡ true
      → prepare_resume to_lower_case integrity queue options at n
        ≡ inr (resumed_manifest (analysis n) at n, analysis n)
  unfolding prepare_resume
  prepare_resume-goes at n can = simp (prepare_resume, can)

  prepare_resume-throws :
      (at : String) (n : RunManifest)
      → (analysis n).can_resume ≡ false
      → prepare_resume to_lower_case integrity queue options at n
        ≡ inl (of_severity blocker (analysis n).diagnostics)
  unfolding prepare_resume
  prepare_resume-throws at n cannot = simp (prepare_resume, cannot)

  prepared-again :
      (analysis m).can_resume ≡ true
      → prepare_resume to_lower_case integrity queue options later prepared
        ≡ inr (prepared, analysis prepared)
  prepared-again can =
      prepare_resume-goes later prepared (can_resume-again ∙ can)
      ∙ ap (λ n. inr (n, analysis prepared))
          (resumed-again (analysis m) now m (analysis prepared) later
            (analyze-Remembers m to_lower_case integrity queue options)
            (analyze-Remembers prepared to_lower_case integrity queue options))

  -- Preparing a resume again, with the same findings of the verifications, is allowed where it was
  -- allowed, and leaves the manifest as the first preparation left it.
  pub prepare_resume-again :
      (r : RunManifest × ResumeAnalysis)
      → prepare_resume to_lower_case integrity queue options now m ≡ inr r
      → prepare_resume to_lower_case integrity queue options later r.0 ≡ inr (r.0, analysis r.0)
  prepare_resume-again r h = elim (Bool-cases (analysis m).can_resume) [
    | inl can ↦
        let e : (prepared, analysis m) ≡ r =
          inr_injective (prepare_resume to_lower_case integrity queue options now m) _ _
            (prepare_resume-goes now m can) h in
        subst
          (λ n. prepare_resume to_lower_case integrity queue options later n ≡ inr (n, analysis n))
          (ap (λ (q : RunManifest × ResumeAnalysis). q.0) e) (prepared-again can)
    | inr cannot ↦ absurd (cc (sym (prepare_resume-throws now m cannot), h))
  ]
