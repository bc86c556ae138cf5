-- ===== src/Approvals/Records.antt =====
-- The records of src/workflows/approvalRegistry.ts and core/models/ApprovalRecord.ts, and its errors.
use codemachine_pipeline.Prelude.{ℕ, String, Bool, true, false, Option, List}
use codemachine_pipeline.Prelude.OrderedMap.{OrderedMap}
use codemachine_pipeline.Queue.Types.{Json}

pub data ApprovalGateType : Type 0 where
  prd spec plan code pr deploy other : ApprovalGateType

-- `a === b` on gates
unfoldable pub gate_eq : ApprovalGateType → ApprovalGateType → Bool
gate_eq prd prd = true
gate_eq spec spec = true
gate_eq plan plan = true
gate_eq code code = true
gate_eq pr pr = true
gate_eq deploy deploy = true
gate_eq other other = true
gate_eq _ _ = false

pub data ApprovalVerdict : Type 0 where
  approved rejected requested_changes : ApprovalVerdict

pub record ApprovalRecord : Type 0 where
  pub approval_id : String
  pub feature_id : String
  pub gate_type : ApprovalGateType
  pub verdict : ApprovalVerdict
  pub signer : String
  pub signer_name : Option String
  pub approved_at : ℕ
  pub artifact_hash : Option String
  pub artifact_path : Option String
  pub rationale : Option String
  pub metadata : Option (OrderedMap Json)

-- approvals.json, and the part of the manifest that the registry reads and writes
pub record Registry : Type 0 where
  pub feature_id : String
  pub approvals : List ApprovalRecord
  pub total_approvals : ℕ
  pub pending : List ApprovalGateType
  pub completed : List ApprovalGateType
  pub updated_at : ℕ

pub record RequestApprovalOptions : Type 0 where
  pub artifact_path : String
  pub artifact_hash : String
  pub metadata : OrderedMap Json

pub record GrantApprovalOptions : Type 0 where
  pub signer : String
  pub signer_name : Option String
  pub rationale : Option String
  pub artifact_path : Option String
  pub metadata : OrderedMap Json

pub record DenyApprovalOptions : Type 0 where
  pub signer : String
  pub signer_name : Option String
  pub reason : String
  pub metadata : OrderedMap Json

-- what an operation throws
pub data ApprovalError : Type 0 where
  hash_mismatch : Option String → String → ApprovalError
  invalid_record : ApprovalError

pub data ValidationError : Type 0 where
  no_completed_approval no_approved_record : ApprovalGateType → ValidationError
  approval_hash_mismatch : ApprovalGateType → Option String → String → ValidationError

pub record ApprovalValidationResult : Type 0 where
  pub valid : Bool
  pub approval : Option ApprovalRecord
  pub errors : List ValidationError
