-- ===== src/Approvals/Life.antt =====
-- The registry against a specification that remembers two hashes of each gate.
use codemachine_pipeline.Prelude.{
  ℕ, ◌+◌, ◌≤◌, ◌≡◌, String, Bool, true, false, Option, none, some, List, [], ◌∷◌, str_eq,
  if◌then◌else◌, ◌⊎◌, inl, inr, All,
}
use codemachine_pipeline.Approvals.Records.{
  ApprovalRecord, ApprovalGateType, gate_eq, Registry, RequestApprovalOptions, GrantApprovalOptions,
  DenyApprovalOptions, ApprovalError,
}
use codemachine_pipeline.Approvals.{
  is_hash, find_latest_approval_for_gate, find_latest_approved_for_gate, includes, request_approval,
  has_hash, grant_approval, deny_approval,
}

-- what a process asks of the registry
pub data Event : Type 0 where
  requested : String → ApprovalGateType → RequestApprovalOptions → Event
  granted : String → ApprovalGateType → String → GrantApprovalOptions → Event
  denied : String → ApprovalGateType → DenyApprovalOptions → Event

-- Of each gate: the hash of its latest record, which a denial does not have; the hash of its latest
-- approval; whether it is pending.
pub record Gates : Type 0 where
  pub latest : ApprovalGateType → Option (Option String)
  pub approval : ApprovalGateType → Option String
  pub waits : ApprovalGateType → Bool

abbrev pub set_gate {ℓ} :
    {A : Type ℓ} → (ApprovalGateType → A) → ApprovalGateType → A → ApprovalGateType → A
set_gate f g x h = if gate_eq g h then x else f h

-- a grant is accepted where there is no record, or the latest one has the hash
abbrev pub accepts : Option (Option String) → String → Bool
accepts none hash = true
accepts (some latest) hash = has_hash latest hash

abbrev pub next_gates : Event → Gates → Gates
next_gates (requested id gate options) s = record s {
  latest = set_gate s.latest gate (some (some options.artifact_hash));
  waits = set_gate s.waits gate true;
}
next_gates (granted id gate hash options) s =
    if accepts (s.latest gate) hash
    then record {
      latest = set_gate s.latest gate (some (some hash));
      approval = set_gate s.approval gate (some hash);
      waits = set_gate s.waits gate false;
    }
    else s
next_gates (denied id gate options) s = record s { latest = set_gate s.latest gate (some none) }

-- The record that the event makes passes the schema.
abbrev pub IsProper : Event → Type 0
IsProper (requested id gate options) =
    (str_eq id "" ≡ false) × (is_hash 64 options.artifact_hash ≡ true)
IsProper (granted id gate hash options) =
    (str_eq id "" ≡ false) × (str_eq options.signer "" ≡ false) × (is_hash 64 hash ≡ true)
IsProper (denied id gate options) = (str_eq id "" ≡ false) × (str_eq options.signer "" ≡ false)

abbrev pub registry_after : ApprovalError ⊎ (Registry × ApprovalRecord) → Registry → Registry
registry_after (inl error) g = g
registry_after (inr (g', r)) g = g'

abbrev pub perform : (ℕ → String) → Event → ℕ → Registry → Registry
perform iso (requested id gate options) now g =
    registry_after (request_approval iso id gate options now g) g
perform iso (granted id gate hash options) now g =
    registry_after (grant_approval iso id gate hash options now g) g
perform iso (denied id gate options) now g =
    registry_after (deny_approval iso id gate options now g) g

-- events one after another, each a while after the one before
abbrev pub perform_all : (ℕ → String) → List (Event × ℕ) → ℕ → Registry → Registry
perform_all iso [] now g = g
perform_all iso ((e, ms) ∷ es) now g =
    perform_all iso es (now + ms + 1) (perform iso e (now + ms + 1) g)

abbrev pub next_all : List (Event × ℕ) → Gates → Gates
next_all [] s = s
next_all ((e, ms) ∷ es) s = next_all es (next_gates e s)

abbrev pub AreProper : List (Event × ℕ) → Type 0
AreProper [] = Unit
AreProper ((e, ms) ∷ es) = IsProper e × AreProper es

abbrev pub hash_of : Option ApprovalRecord → Option (Option String)
hash_of none = none
hash_of (some r) = some r.artifact_hash

abbrev pub hash_some : Option String → Option (Option String)
hash_some none = none
hash_some (some h) = some (some h)

abbrev pub has_some : Option String → Bool
has_some none = false
has_some (some h) = true

pub record Agrees (now : ℕ) (g : Registry) (s : Gates) : Type 0 where
  pub named : str_eq g.feature_id "" ≡ false
  pub older : All (λ a. a.approved_at ≤ now) g.approvals
  pub latest :
      (gate : ApprovalGateType)
      → hash_of (find_latest_approval_for_gate g.approvals gate) ≡ s.latest gate
  pub approval :
      (gate : ApprovalGateType)
      → hash_of (find_latest_approved_for_gate g.approvals gate) ≡ hash_some (s.approval gate)
  pub complete : (gate : ApprovalGateType) → includes g.completed gate ≡ has_some (s.approval gate)
  pub waiting : (gate : ApprovalGateType) → includes g.pending gate ≡ s.waits gate
  pub real : (gate : ApprovalGateType) (h : String) → s.approval gate ≡ some h → str_eq h "" ≡ false
