-- ===== src/Approvals/Append.antt =====
-- What a record that is appended last changes of the specification's state.
use codemachine_pipeline.Prelude.{
  ℕ, ◌<◌, ◌≤◌, ◌≡◌, refl, ap, ◌∙◌, String, false, some, [], ◌∷◌, ◌++◌, inl, inr, All, All-map,
  All-append, arith, Bool-cases,
}
use codemachine_pipeline.Approvals.Records.{
  ApprovalRecord, ApprovalGateType, gate_eq, approved, Registry,
}
use codemachine_pipeline.Approvals.{
  is_for_gate, is_approved_for_gate, find_latest_approval_for_gate, find_latest_approved_for_gate,
}
use codemachine_pipeline.Approvals.Latest.{
  IsLatest, find_latest_approval-append, find_latest_approved-append,
}
use codemachine_pipeline.Approvals.Life.{Gates, set_gate, hash_of, hash_some, Agrees}

-- An appended record, made after all others.
module _ (now : ℕ) (g : Registry) (s : Gates) (agree : Agrees now g s) (r : ApprovalRecord)
    (later : now < r.approved_at) where
  pub is_latest : IsLatest r g.approvals
  is_latest = All-map _ _ (λ a h. omega (arith, h, later)) g.approvals agree.older

  pub older_after : All (λ a. a.approved_at ≤ r.approved_at) (g.approvals ++ r ∷ [])
  older_after =
      All-append _ g.approvals (r ∷ [])
        (All-map _ _ (λ a h. omega (arith, h, later)) g.approvals agree.older) (omega arith, tt)

  pub latest_after :
      (gate : ApprovalGateType)
      → hash_of (find_latest_approval_for_gate (g.approvals ++ r ∷ []) gate)
        ≡ set_gate s.latest r.gate_type (some r.artifact_hash) gate
  unfolding is_for_gate
  latest_after gate =
      ap hash_of (find_latest_approval-append g.approvals r gate is_latest)
      ∙ (elim (Bool-cases (gate_eq r.gate_type gate)) [
        | inl same ↦ rw same refl
        | inr other ↦ rw other (agree.latest gate)
      ])

  pub approval_kept :
      (gate : ApprovalGateType)
      → is_approved_for_gate gate r ≡ false
      → hash_of (find_latest_approved_for_gate (g.approvals ++ r ∷ []) gate)
        ≡ hash_some (s.approval gate)
  approval_kept gate h =
      ap hash_of (find_latest_approved-append g.approvals r gate is_latest)
      ∙ rw h (agree.approval gate)

  pub approval_after :
      (hash : String) (gate : ApprovalGateType)
      → r.verdict ≡ approved
      → r.artifact_hash ≡ some hash
      → hash_of (find_latest_approved_for_gate (g.approvals ++ r ∷ []) gate)
        ≡ hash_some (set_gate s.approval r.gate_type (some hash) gate)
  unfolding is_approved_for_gate is_for_gate
  approval_after hash gate v e =
      ap hash_of (find_latest_approved-append g.approvals r gate is_latest)
      ∙ (elim (Bool-cases (gate_eq r.gate_type gate)) [
        | inl same ↦ rw (same, v) (ap some e)
        | inr other ↦ rw other (agree.approval gate)
      ])
