-- ===== src/Approvals/Agree.antt =====
-- Grants, and waiting, keep the registry in agreement with the specification.
use codemachine_pipeline.Prelude.{
  ℕ, ◌<◌, ◌≡◌, refl, sym, ap, ◌∙◌, String, Bool, true, false, not, ◌||◌, Option, none, some, List,
  [], ◌∷◌, ◌++◌, str_eq, eq_iff, filter, inl, inr, All-map, arith, Bool-cases, Option-cases,
}
use codemachine_pipeline.Approvals.Records.{
  ApprovalRecord, ApprovalGateType, gate_eq, Registry, GrantApprovalOptions,
}
use codemachine_pipeline.Approvals.{
  is_hash, find_latest_approval_for_gate, includes, to_set, has_hash, grant_record, complete_gate,
  grant_approval,
}
use codemachine_pipeline.Approvals.Gates.{includes-append, includes-filter, includes-to_set}
use codemachine_pipeline.Approvals.Life.{
  granted, Gates, set_gate, next_gates, IsProper, perform, has_some, Agrees,
}
use codemachine_pipeline.Approvals.Append.{older_after, latest_after, approval_after}
use codemachine_pipeline.Approvals.Asked.{
  append_approval_record_lem, grant_record-parse, with_record,
}

is_hash_empty : is_hash 64 "" ≡ false
unfolding is_hash
is_hash_empty = refl

is_hash_nonempty : (hash : String) → is_hash 64 hash ≡ true → str_eq hash "" ≡ false
is_hash_nonempty hash h = elim (Bool-cases (str_eq hash "")) [
  | inl empty ↦ absurd (cc (h, ap (is_hash 64) ((eq_iff hash "").0 empty), is_hash_empty))
  | inr filled ↦ filled
]

includes-nil : (b : Bool) (x : ApprovalGateType) → includes [] x || b ≡ b
unfolding includes
includes-nil b x = ground arith

completed_now :
    (gates : List ApprovalGateType) (approval : ApprovalGateType → Option String)
    (gate x : ApprovalGateType) (hash : String)
    → includes gates x ≡ has_some (approval x)
    → includes (to_set [] (gates ++ gate ∷ [])) x ≡ has_some (set_gate approval gate (some hash) x)
completed_now gates approval gate x hash h =
    includes-to_set [] (gates ++ gate ∷ []) x
    ∙ includes-nil (includes (gates ++ gate ∷ []) x) x
    ∙ includes-append gates gate x
    ∙ (elim (Bool-cases (gate_eq gate x)) [
      | inl same ↦ rw same (ground arith)
      | inr other ↦ rw other (ground (arith, h))
    ])

waits_no_more :
    (gates : List ApprovalGateType) (waits : ApprovalGateType → Bool) (gate x : ApprovalGateType)
    → includes gates x ≡ waits x
    → includes (filter (λ p. not (gate_eq p gate)) gates) x ≡ set_gate waits gate false x
waits_no_more gates waits gate x h =
    includes-filter gates gate x ∙ (elim (Bool-cases (gate_eq gate x)) [
      | inl same ↦ rw same (ground arith)
      | inr other ↦ rw other (ground (arith, h))
    ])

granted_hash-nonempty :
    (approval : ApprovalGateType → Option String) (gate x : ApprovalGateType) (hash h : String)
    → str_eq hash "" ≡ false
    → (approval x ≡ some h → str_eq h "" ≡ false)
    → set_gate approval gate (some hash) x ≡ some h
    → str_eq h "" ≡ false
granted_hash-nonempty approval gate x hash h filled before e = elim (Bool-cases (gate_eq gate x)) [
  | inl same ↦ ground (arith, e, same, filled)
  | inr other ↦ before (sym (rw other refl) ∙ e)
]

wait-Agrees : (now at : ℕ) (g : Registry) (s : Gates) → now < at → Agrees now g s → Agrees at g s
wait-Agrees now at g s later agree = record {
  named = agree.named;
  older = All-map _ _ (λ a h. omega (arith, h, later)) g.approvals agree.older;
  latest = agree.latest;
  approval = agree.approval;
  complete = agree.complete;
  waiting = agree.waiting;
  real = agree.real;
}

module _ (iso : ℕ → String) (id : String) (gate : ApprovalGateType) (hash : String)
    (options : GrantApprovalOptions) (now at : ℕ) (g : Registry) (s : Gates)
    (proper : IsProper (granted id gate hash options)) (later : now < at)
    (agree : Agrees now g s) where
  granted-Agrees :
      (existing : Option ApprovalRecord)
      → Agrees at
          (complete_gate gate at
            (with_record (grant_record iso id gate hash options at existing g) g))
          (record {
            latest = set_gate s.latest gate (some (some hash));
            approval = set_gate s.approval gate (some hash);
            waits = set_gate s.waits gate false;
          })
  unfolding complete_gate grant_record
  granted-Agrees existing =
      let r = grant_record iso id gate hash options at existing g in
      record {
        named = agree.named;
        older = older_after now g s agree r later;
        latest = latest_after now g s agree r later;
        approval = λ x. approval_after now g s agree r later hash x refl refl;
        complete = λ x. completed_now g.completed s.approval gate x hash (agree.complete x);
        waiting = λ x. waits_no_more g.pending s.waits gate x (agree.waiting x);
        real = λ x h.
            granted_hash-nonempty s.approval gate x hash h (is_hash_nonempty hash proper.2)
              (agree.real x h);
      }

  pub grant-Agrees :
      Agrees at
        (perform iso (granted id gate hash options) at g)
        (next_gates (granted id gate hash options) s)
  unfolding grant_approval
  grant-Agrees = elim (Option-cases (find_latest_approval_for_gate g.approvals gate)) [
    | inl unknown ↦
        rw
          (
            grant_approval,
            unknown,
            sym (agree.latest gate),
            unknown,
            append_approval_record_lem _ g
                (grant_record-parse iso id gate at g agree.named hash options none proper),
          )
          (granted-Agrees none)
    | inr (r, found) ↦ elim (Bool-cases (has_hash r.artifact_hash hash)) [
      | inl fits ↦
          rw
            (
              grant_approval,
              found,
              sym (agree.latest gate),
              found,
              fits,
              append_approval_record_lem _ g
                  (grant_record-parse iso id gate at g agree.named hash options (some r) proper),
            )
            (granted-Agrees (some r))
      | inr differs ↦
          rw (grant_approval, found, sym (agree.latest gate), found, differs)
            (wait-Agrees now at g s later agree)
    ]
  ]
