-- ===== src/Approvals.antt =====
-- src/workflows/approvalRegistry.ts, and the record of core/models/ApprovalRecord.ts. The approvals file and
-- the approvals of the manifest are one value, changed under the run directory's lock; an instant is a
-- number of milliseconds, and how one is written as a date, the ids and the clock are arguments.
pub mod Asked
pub mod Records
pub mod Latest
pub mod Gates
pub mod Life
pub mod Append
pub mod Agree
pub mod Validity
mod Tests
use Prim.Native.Char.{code as char_code}
use codemachine_pipeline.Prelude.{
  ℕ, zero, suc, ◌+◌, String, Bool, true, false, not, ◌&&◌, ◌||◌, Option, none, some, List, [], ◌∷◌,
  ◌++◌, ltb, leb, str_eq, if◌then◌else◌, filter, length, head?, any, nonempty, ◌⊎◌, inl, inr,
}
use codemachine_pipeline.Prelude.OrderedMap
use codemachine_pipeline.Prelude.OrderedMap.{OrderedMap}
use codemachine_pipeline.Queue.Types.{Json, text, or_else, or_keep}
use codemachine_pipeline.Approvals.Records.{
  ApprovalGateType, prd, spec, plan, code, pr, deploy, other, ApprovalVerdict, approved, rejected,
  requested_changes, gate_eq, ApprovalRecord, Registry, RequestApprovalOptions,
  GrantApprovalOptions, DenyApprovalOptions, ApprovalError, hash_mismatch, invalid_record,
  ValidationError, no_completed_approval, no_approved_record, approval_hash_mismatch,
  ApprovalValidationResult,
}

-- `/^[a-f0-9]{64}$/`, a character at a time
unfoldable is_hex : ℕ → Bool
is_hex c = (leb b'a' c && leb c b'f') || (leb b'0' c && leb c b'9')

unfoldable is_hash : ℕ → String → Bool
unfolding is_hex
is_hash zero String.[] = true
is_hash zero (String.◌∷◌ c s) = false
is_hash (suc n) String.[] = false
is_hash (suc n) (String.◌∷◌ c s) = is_hex (char_code c) && is_hash n s

-- `parseApprovalRecord`: what the schema asks beyond the types
unfoldable pub parse_approval_record : ApprovalRecord → Bool
unfolding is_hash
parse_approval_record r =
    not (str_eq r.approval_id "")
    && not (str_eq r.feature_id "")
    && not (str_eq r.signer "")
    && (elim r.artifact_hash [ none ↦ true | some hash ↦ is_hash 64 hash ])

unfoldable pub append_approval_record : ApprovalRecord → Registry → Option Registry
append_approval_record r g =
    if parse_approval_record r
    then some
        (record g { approvals = g.approvals ++ r ∷ []; total_approvals = length g.approvals + 1 })
    else none

-- `approvals.sort`, the latest first: of two at one instant the earlier one in the file stands first
unfoldable pub insert_latest : ApprovalRecord → List ApprovalRecord → List ApprovalRecord
insert_latest r [] = r ∷ []
insert_latest r (a ∷ rs) =
    let rest = insert_latest r rs in
    if ltb r.approved_at a.approved_at then a ∷ rest else r ∷ a ∷ rs

unfoldable pub sort_latest : List ApprovalRecord → List ApprovalRecord
unfolding insert_latest
sort_latest [] = []
sort_latest (a ∷ rs) = insert_latest a (sort_latest rs)

unfoldable pub is_for_gate : ApprovalGateType → ApprovalRecord → Bool
unfolding gate_eq
is_for_gate gate a = gate_eq a.gate_type gate

unfoldable pub is_approved_for_gate : ApprovalGateType → ApprovalRecord → Bool
unfolding is_for_gate
is_approved_for_gate gate a = is_for_gate gate a && (elim a.verdict [ approved ↦ true | _ ↦ false ])

unfoldable pub find_latest_approval_for_gate :
    List ApprovalRecord → ApprovalGateType → Option ApprovalRecord
unfolding sort_latest is_for_gate
find_latest_approval_for_gate approvals gate =
    head? (sort_latest (filter (is_for_gate gate) approvals))

unfoldable pub find_latest_approved_for_gate :
    List ApprovalRecord → ApprovalGateType → Option ApprovalRecord
unfolding sort_latest is_approved_for_gate
find_latest_approved_for_gate approvals gate =
    head? (sort_latest (filter (is_approved_for_gate gate) approvals))

-- `gates.includes(gate)`
unfoldable pub includes : List ApprovalGateType → ApprovalGateType → Bool
unfolding gate_eq
includes gates gate = any (λ g. gate_eq g gate) gates

-- `Array.from(set)` where the set is made of a list: each gate at its first place
unfoldable pub to_set : List ApprovalGateType → List ApprovalGateType → List ApprovalGateType
unfolding includes
to_set seen [] = seen
to_set seen (g ∷ gates) = to_set (if includes seen g then seen else seen ++ g ∷ []) gates

-- the approvals of the manifest after a grant
unfoldable pub complete_gate : ApprovalGateType → ℕ → Registry → Registry
unfolding gate_eq to_set
complete_gate gate now g = record g {
  pending = filter (λ p. not (gate_eq p gate)) g.pending;
  completed = to_set [] (g.completed ++ gate ∷ []);
  updated_at = now;
}

-- `artifact_hash === hash`
unfoldable pub has_hash : Option String → String → Bool
has_hash stored hash = elim stored [ none ↦ false | some h ↦ str_eq h hash ]

module _ (iso : ℕ → String) where
  -- `{ ...metadata, <when>: now, status }`
  unfoldable pub stamped_metadata : String → String → ℕ → OrderedMap Json → OrderedMap Json
  stamped_metadata when status now metadata =
      OrderedMap.set "status" (text status) (OrderedMap.set when (text (iso now)) metadata)

  unfoldable pub request_record :
      String → ApprovalGateType → RequestApprovalOptions → ℕ → Registry → ApprovalRecord
  unfolding stamped_metadata
  request_record id gate options now g = record {
    approval_id = id;
    feature_id = g.feature_id;
    gate_type = gate;
    verdict = requested_changes;
    signer = "system";
    signer_name = none;
    approved_at = now;
    artifact_hash = some options.artifact_hash;
    artifact_path = some options.artifact_path;
    rationale = some "Approval requested - awaiting human review";
    metadata = some (stamped_metadata "requested_at" "pending" now options.metadata);
  }

  unfoldable pub request_approval :
      String
      → ApprovalGateType
      → RequestApprovalOptions
      → ℕ
      → Registry
      → ApprovalError ⊎ (Registry × ApprovalRecord)
  unfolding append_approval_record request_record includes
  request_approval id gate options now g =
      let r = request_record id gate options now g in
      elim (append_approval_record r g) [
        | none ↦ inl invalid_record
        | some after ↦ inr (
          if includes g.pending gate
              then after
              else record after { pending = g.pending ++ gate ∷ []; updated_at = now },
          r,
        )
      ]

  unfoldable pub grant_record :
      String
      → ApprovalGateType
      → String
      → GrantApprovalOptions
      → ℕ
      → Option ApprovalRecord
      → Registry
      → ApprovalRecord
  unfolding stamped_metadata
  grant_record id gate hash options now existing g = record {
    approval_id = id;
    feature_id = g.feature_id;
    gate_type = gate;
    verdict = approved;
    signer = options.signer;
    signer_name = nonempty options.signer_name;
    approved_at = now;
    artifact_hash = some hash;
    artifact_path =
        or_keep (nonempty options.artifact_path)
          (elim existing [ none ↦ none | some r ↦ nonempty r.artifact_path ]);
    rationale = nonempty options.rationale;
    metadata = some (stamped_metadata "approved_at" "approved" now options.metadata);
  }

  unfoldable pub grant_approval :
      String
      → ApprovalGateType
      → String
      → GrantApprovalOptions
      → ℕ
      → Registry
      → ApprovalError ⊎ (Registry × ApprovalRecord)
  unfolding find_latest_approval_for_gate append_approval_record grant_record complete_gate
  grant_approval id gate hash options now g =
      let existing = find_latest_approval_for_gate g.approvals gate in
      let r = grant_record id gate hash options now existing g in
      let granted : ApprovalError ⊎ (Registry × ApprovalRecord) =
        elim (append_approval_record r g) [
          | none ↦ inl invalid_record
          | some after ↦ inr (complete_gate gate now after, r)
        ] in
      elim existing [
        | none ↦ granted
        | some e ↦
            if has_hash e.artifact_hash hash
            then granted
            else inl (hash_mismatch e.artifact_hash hash)
      ]

  unfoldable pub deny_record :
      String → ApprovalGateType → DenyApprovalOptions → ℕ → Registry → ApprovalRecord
  unfolding stamped_metadata
  deny_record id gate options now g = record {
    approval_id = id;
    feature_id = g.feature_id;
    gate_type = gate;
    verdict = rejected;
    signer = options.signer;
    signer_name = nonempty options.signer_name;
    approved_at = now;
    artifact_hash = none;
    artifact_path = none;
    rationale = some options.reason;
    metadata = some (stamped_metadata "rejected_at" "rejected" now options.metadata);
  }

  unfoldable pub deny_approval :
      String
      → ApprovalGateType
      → DenyApprovalOptions
      → ℕ
      → Registry
      → ApprovalError ⊎ (Registry × ApprovalRecord)
  unfolding append_approval_record deny_record
  deny_approval id gate options now g =
      let r = deny_record id gate options now g in
      elim (append_approval_record r g) [ none ↦ inl invalid_record | some after ↦ inr (after, r) ]

-- `approval.artifact_hash && approval.artifact_hash !== hash`
unfoldable pub is_other_hash : Option String → String → Bool
is_other_hash stored hash = elim (nonempty stored) [ none ↦ false | some h ↦ not (str_eq h hash) ]

unfoldable pub validate_approval_for_transition :
    ApprovalGateType → String → Registry → ApprovalValidationResult
unfolding includes find_latest_approved_for_gate is_other_hash
validate_approval_for_transition gate hash g =
    if includes g.completed gate
    then elim (find_latest_approved_for_gate g.approvals gate) [
      | none ↦ record { valid = false; approval = none; errors = no_approved_record gate ∷ [] }
      | some a ↦
          if is_other_hash a.artifact_hash hash
          then record {
            valid = false;
            approval = some a;
            errors = approval_hash_mismatch gate a.artifact_hash hash ∷ [];
          }
          else record { valid = true; approval = some a; errors = [] }
    ]
    else record { valid = false; approval = none; errors = no_completed_approval gate ∷ [] }
