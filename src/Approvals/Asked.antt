-- ===== src/Approvals/Asked.antt =====
-- Requests and denials keep the registry in agreement with the specification.
use codemachine_pipeline.Prelude.{
  ℕ, ◌+◌, ◌<◌, ◌≡◌, refl, subst, ◌∙◌, String, Bool, true, false, Option, some, List, [], ◌∷◌, ◌++◌,
  str_eq, length, inl, inr, arith, Bool-cases,
}
use codemachine_pipeline.Approvals.Records.{
  ApprovalRecord, ApprovalGateType, gate_eq, Registry, RequestApprovalOptions, GrantApprovalOptions,
  DenyApprovalOptions,
}
use codemachine_pipeline.Approvals.{
  parse_approval_record, append_approval_record, is_approved_for_gate, includes, request_record,
  request_approval, grant_record, deny_record, deny_approval,
}
use codemachine_pipeline.Approvals.Gates.{gate_eq_iff, includes-append}
use codemachine_pipeline.Approvals.Life.{
  requested, granted, denied, Gates, set_gate, next_gates, IsProper, perform, Agrees,
}
use codemachine_pipeline.Approvals.Append.{older_after, latest_after, approval_kept}

-- The records of proper events pass the schema.
module _ (iso : ℕ → String) (id : String) (gate : ApprovalGateType) (now : ℕ) (g : Registry)
    (named : str_eq g.feature_id "" ≡ false) where
  request_record-parse :
      (options : RequestApprovalOptions)
      → IsProper (requested id gate options)
      → parse_approval_record (request_record iso id gate options now g) ≡ true
  unfolding parse_approval_record request_record
  request_record-parse options h = rw (h.0, named, h.1) refl

  pub grant_record-parse :
      (hash : String) (options : GrantApprovalOptions) (existing : Option ApprovalRecord)
      → IsProper (granted id gate hash options)
      → parse_approval_record (grant_record iso id gate hash options now existing g) ≡ true
  unfolding parse_approval_record grant_record
  grant_record-parse hash options existing h = rw (h.0, named, h.1, h.2) refl

  deny_record-parse :
      (options : DenyApprovalOptions)
      → IsProper (denied id gate options)
      → parse_approval_record (deny_record iso id gate options now g) ≡ true
  unfolding parse_approval_record deny_record
  deny_record-parse options h = rw (h.0, named, h.1) refl

abbrev pub with_record : ApprovalRecord → Registry → Registry
with_record r g = record g {
  approvals = g.approvals ++ r ∷ [];
  total_approvals = length g.approvals + 1;
}

pub append_approval_record_lem :
    (r : ApprovalRecord) (g : Registry)
    → parse_approval_record r ≡ true
    → append_approval_record r g ≡ some (with_record r g)
unfolding append_approval_record
append_approval_record_lem r g h = rw h refl

asked_again :
    (gates : List ApprovalGateType) (waits : ApprovalGateType → Bool) (gate x : ApprovalGateType)
    → includes gates gate ≡ true
    → includes gates x ≡ waits x
    → includes gates x ≡ set_gate waits gate true x
asked_again gates waits gate x there h = elim (Bool-cases (gate_eq gate x)) [
  | inl same ↦ rw same (subst (λ y. includes gates y ≡ true) ((gate_eq_iff gate x).0 same) there)
  | inr other ↦ rw other h
]

asked_first :
    (gates : List ApprovalGateType) (waits : ApprovalGateType → Bool) (gate x : ApprovalGateType)
    → includes gates x ≡ waits x
    → includes (gates ++ gate ∷ []) x ≡ set_gate waits gate true x
asked_first gates waits gate x h =
    includes-append gates gate x ∙ (elim (Bool-cases (gate_eq gate x)) [
      | inl same ↦ rw same (ground arith)
      | inr other ↦ rw other (ground (arith, h))
    ])

pub request-Agrees :
    (iso : ℕ → String) (id : String) (gate : ApprovalGateType) (options : RequestApprovalOptions)
    (now at : ℕ) (g : Registry) (s : Gates)
    → IsProper (requested id gate options)
    → now < at
    → Agrees now g s
    → Agrees at
        (perform iso (requested id gate options) at g)
        (next_gates (requested id gate options) s)
unfolding request_approval request_record is_approved_for_gate
request-Agrees iso id gate options now at g s proper later agree =
    let r = request_record iso id gate options at g in
    let e =
      append_approval_record_lem r g
        (request_record-parse iso id gate at g agree.named options proper) in
    elim (Bool-cases (includes g.pending gate)) [
      | inl there ↦
          rw (request_approval, e, there)
            (record {
              named = agree.named;
              older = older_after now g s agree r later;
              latest = latest_after now g s agree r later;
              approval = λ x. approval_kept now g s agree r later x (ground arith);
              complete = agree.complete;
              waiting = λ x. asked_again g.pending s.waits gate x there (agree.waiting x);
              real = agree.real;
            })
      | inr absent ↦
          rw (request_approval, e, absent)
            (record {
              named = agree.named;
              older = older_after now g s agree r later;
              latest = latest_after now g s agree r later;
              approval = λ x. approval_kept now g s agree r later x (ground arith);
              complete = agree.complete;
              waiting = λ x. asked_first g.pending s.waits gate x (agree.waiting x);
              real = agree.real;
            })
    ]

pub deny-Agrees :
    (iso : ℕ → String) (id : String) (gate : ApprovalGateType) (options : DenyApprovalOptions)
    (now at : ℕ) (g : Registry) (s : Gates)
    → IsProper (denied id gate options)
    → now < at
    → Agrees now g s
    → Agrees at (perform iso (denied id gate options) at g) (next_gates (denied id gate options) s)
unfolding deny_approval deny_record is_approved_for_gate
deny-Agrees iso id gate options now at g s proper later agree =
    let r = deny_record iso id gate options at g in
    rw
      (
        deny_approval,
        append_approval_record_lem r g
            (deny_record-parse iso id gate at g agree.named options proper),
      )
      (record {
        named = agree.named;
        older = older_after now g s agree r later;
        latest = latest_after now g s agree r later;
        approval = λ x. approval_kept now g s agree r later x (ground arith);
        complete = agree.complete;
        waiting = agree.waiting;
        real = agree.real;
      })
