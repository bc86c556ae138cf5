-- ===== src/Approvals/Tests.antt =====
-- A plan that is requested, approved and then denied.
use codemachine_pipeline.Prelude.{ℕ, ◌≡◌, refl, String, true, none, List, [], ◌∷◌}
use codemachine_pipeline.Approvals.Records.{
  plan, gate_eq, RequestApprovalOptions, GrantApprovalOptions, DenyApprovalOptions,
}
use codemachine_pipeline.Approvals.{
  has_hash, grant_approval, is_hash, includes, validate_approval_for_transition,
}
use codemachine_pipeline.Approvals.Life.{
  Event, requested, granted, denied, IsProper, AreProper, perform_all, next_all,
}
use codemachine_pipeline.Approvals.Validity.{
  no_gates, new_registry, is_granted, refusal, expected_refusal, perform_all-validity,
  grant_approval-refusal,
}

abbrev iso : ℕ → String
iso now = "2026-01-01T00:00:00.000Z"

abbrev hash : String
hash = "0123456789abcdef0123456789abcdef0123456789abcdef0123456789abcdef"

abbrev request : RequestApprovalOptions
request = record { artifact_path = "plan.json"; artifact_hash = hash; metadata = [] }

abbrev grant : GrantApprovalOptions
grant = record {
  signer = "s";
  signer_name = none;
  rationale = none;
  artifact_path = none;
  metadata = [];
}

abbrev deny : DenyApprovalOptions
deny = record { signer = "s"; signer_name = none; reason = "no"; metadata = [] }

abbrev events : List (Event × ℕ)
events =
    (requested "plan-1" plan request, 5)
    ∷ (granted "plan-2" plan hash grant, 5)
    ∷ (denied "plan-3" plan deny, 5)
    ∷ []

events-AreProper : AreProper events
unfolding is_hash
events-AreProper = ((refl, refl), ((refl, refl, refl), ((refl, refl), tt)))

perform_all-validity_example :
    ((validate_approval_for_transition plan hash
        (perform_all iso events 0 (new_registry "f" 0))).valid
      ≡ is_granted ((next_all events no_gates).approval plan) hash)
    × (includes (perform_all iso events 0 (new_registry "f" 0)).pending plan
        ≡ (next_all events no_gates).waits plan)
perform_all-validity_example = perform_all-validity iso "f" events 0 plan hash refl events-AreProper

-- The denied plan is still valid.
denied_is_granted : is_granted ((next_all events no_gates).approval plan) hash ≡ true
unfolding gate_eq has_hash
denied_is_granted = refl

regrant-IsProper : IsProper (granted "plan-4" plan hash grant)
unfolding is_hash
regrant-IsProper = (refl, refl, refl)

grant_approval-refusal_example :
    refusal (
      grant_approval iso "plan-4" plan hash grant 99
        (perform_all iso events 0 (new_registry "f" 0)))
    ≡ expected_refusal ((next_all events no_gates).latest plan) hash
grant_approval-refusal_example =
    grant_approval-refusal iso "f" events 0 99 "plan-4" plan hash grant refl events-AreProper
      regrant-IsProper
