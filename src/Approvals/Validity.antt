-- ===== src/Approvals/Validity.antt =====
-- What is valid and what is refused, by the specification.
use codemachine_pipeline.Prelude.{
  ℕ, ◌+◌, ◌<◌, ◌≡◌, refl, sym, ap, ◌∙◌, String, Bool, false, Option, none, some, List, [], ◌∷◌,
  str_eq, if◌then◌else◌, ◌⊎◌, inl, inr, arith, Bool-cases, Option-cases,
}
use codemachine_pipeline.Approvals.Records.{
  ApprovalRecord, ApprovalGateType, Registry, GrantApprovalOptions, ApprovalError, hash_mismatch,
}
use codemachine_pipeline.Approvals.{
  sort_latest, find_latest_approval_for_gate, find_latest_approved_for_gate, includes, has_hash,
  grant_approval, is_other_hash, validate_approval_for_transition,
}
use codemachine_pipeline.Approvals.Life.{
  Event, requested, granted, denied, Gates, next_gates, IsProper, perform, perform_all, next_all,
  AreProper, hash_of, hash_some, has_some, Agrees,
}
use codemachine_pipeline.Approvals.Agree.{grant-Agrees}
use codemachine_pipeline.Approvals.Asked.{
  append_approval_record_lem, grant_record-parse, request-Agrees, deny-Agrees,
}

abbrev pub no_gates : Gates
no_gates = record { latest = λ gate. none; approval = λ gate. none; waits = λ gate. false }

-- the registry of a feature that begins
abbrev pub new_registry : String → ℕ → Registry
new_registry feature_id now = record {
  feature_id = feature_id;
  approvals = [];
  total_approvals = 0;
  pending = [];
  completed = [];
  updated_at = now;
}

new_registry-Agrees :
    (feature_id : String) (now : ℕ)
    → str_eq feature_id "" ≡ false
    → Agrees now (new_registry feature_id now) no_gates
unfolding find_latest_approval_for_gate find_latest_approved_for_gate sort_latest includes
new_registry-Agrees feature_id now named = record {
  named = named;
  older = tt;
  latest = λ gate. refl;
  approval = λ gate. refl;
  complete = λ gate. refl;
  waiting = λ gate. refl;
  real = λ gate h e. ground (arith, e);
}

perform-Agrees :
    (iso : ℕ → String) (e : Event) (now at : ℕ) (g : Registry) (s : Gates)
    → IsProper e
    → now < at
    → Agrees now g s
    → Agrees at (perform iso e at g) (next_gates e s)
perform-Agrees iso (requested id gate options) now at g s p l a =
    request-Agrees iso id gate options now at g s p l a
perform-Agrees iso (granted id gate hash options) now at g s p l a =
    grant-Agrees iso id gate hash options now at g s p l a
perform-Agrees iso (denied id gate options) now at g s p l a =
    deny-Agrees iso id gate options now at g s p l a

abbrev pub end_of : List (Event × ℕ) → ℕ → ℕ
end_of [] now = now
end_of ((e, ms) ∷ es) now = end_of es (now + ms + 1)

perform_all-Agrees :
    (iso : ℕ → String) (es : List (Event × ℕ)) (now : ℕ) (g : Registry) (s : Gates)
    → AreProper es
    → Agrees now g s
    → Agrees (end_of es now) (perform_all iso es now g) (next_all es s)
perform_all-Agrees iso [] now g s p a = a
perform_all-Agrees iso ((e, ms) ∷ es) now g s p a =
    perform_all-Agrees iso es (now + ms + 1) (perform iso e (now + ms + 1) g) (next_gates e s) p.1
      (perform-Agrees iso e now (now + ms + 1) g s p.0 (omega arith) a)

-- the hash of the latest accepted grant
abbrev pub is_granted : Option String → String → Bool
is_granted none hash = false
is_granted (some k) hash = str_eq k hash

some_injective {ℓ} : {A : Type ℓ} {a b : A} → some a ≡ some b → a ≡ b
some_injective h = ground (arith, h)

validate_lem :
    (now : ℕ) (g : Registry) (s : Gates) (gate : ApprovalGateType) (hash : String)
    → Agrees now g s
    → (validate_approval_for_transition gate hash g).valid ≡ is_granted (s.approval gate) hash
unfolding validate_approval_for_transition is_other_hash
validate_lem now g s gate hash agree = elim (Option-cases (s.approval gate)) [
  | inl no_grant ↦
      rw (no_grant, validate_approval_for_transition, agree.complete gate ∙ ap has_some no_grant)
  | inr (h, given) ↦ elim (Option-cases (find_latest_approved_for_gate g.approvals gate)) [
    | inl missing ↦ absurd (cc (sym (agree.approval gate), ap hash_of missing, ap hash_some given))
    | inr (r, found) ↦
        let hashed : r.artifact_hash ≡ some h =
          some_injective (sym (ap hash_of found) ∙ agree.approval gate ∙ ap hash_some given) in
        rw
          (
            given,
            validate_approval_for_transition,
            agree.complete gate ∙ ap has_some given,
            found,
            is_other_hash,
            hashed,
            agree.real gate h given,
          )
          (elim (Bool-cases (str_eq h hash)) [
            | inl same ↦ rw same refl
            | inr other ↦ rw other refl
          ])
  ]
]

-- Of a feature that begins, after any proper requests, grants and denials, each a while after the one
-- before: a gate is valid for a hash exactly if the latest accepted grant for the gate had that hash,
-- whatever was denied or requested since; and it is pending exactly if it was requested and no grant
-- was accepted since.
pub perform_all-validity :
    (iso : ℕ → String) (feature_id : String) (es : List (Event × ℕ)) (now : ℕ)
    (gate : ApprovalGateType) (hash : String)
    → str_eq feature_id "" ≡ false
    → AreProper es
    → ((validate_approval_for_transition gate hash
          (perform_all iso es now (new_registry feature_id now))).valid
        ≡ is_granted ((next_all es no_gates).approval gate) hash)
      × (includes (perform_all iso es now (new_registry feature_id now)).pending gate
          ≡ (next_all es no_gates).waits gate)
perform_all-validity iso feature_id es now gate hash named proper =
    let agree =
      perform_all-Agrees iso es now (new_registry feature_id now) no_gates proper
        (new_registry-Agrees feature_id now named) in
    (
      validate_lem (end_of es now) (perform_all iso es now (new_registry feature_id now))
          (next_all es no_gates) gate hash agree,
      agree.waiting gate,
    )

-- what a grant throws
abbrev pub refusal : ApprovalError ⊎ (Registry × ApprovalRecord) → Option ApprovalError
refusal (inl error) = some error
refusal (inr done) = none

-- what it is to throw, by the hash of the gate's latest record
abbrev pub expected_refusal : Option (Option String) → String → Option ApprovalError
expected_refusal none hash = none
expected_refusal (some stored) hash =
    if has_hash stored hash then none else some (hash_mismatch stored hash)

grant-refusal :
    (iso : ℕ → String) (id : String) (gate : ApprovalGateType) (hash : String)
    (options : GrantApprovalOptions) (now at : ℕ) (g : Registry) (s : Gates)
    → IsProper (granted id gate hash options)
    → Agrees now g s
    → refusal (grant_approval iso id gate hash options at g) ≡ expected_refusal (s.latest gate) hash
unfolding grant_approval
grant-refusal iso id gate hash options now at g s proper agree =
    elim (Option-cases (find_latest_approval_for_gate g.approvals gate)) [
      | inl unknown ↦ rw (
        grant_approval,
        unknown,
        sym (agree.latest gate),
        unknown,
        append_approval_record_lem _ g
            (grant_record-parse iso id gate at g agree.named hash options none proper),
      )
      | inr (r, found) ↦ elim (Bool-cases (has_hash r.artifact_hash hash)) [
        | inl fits ↦ rw (
          grant_approval,
          found,
          sym (agree.latest gate),
          found,
          fits,
          append_approval_record_lem _ g
              (grant_record-parse iso id gate at g agree.named hash options (some r) proper),
        )
        | inr differs ↦ rw (grant_approval, found, sym (agree.latest gate), found, differs)
      ]
    ]

-- Of a feature that begins, after any proper requests, grants and denials, a proper grant throws exactly
-- if the gate has a record and the latest one does not have the hash, as a denial has none; what it
-- throws is the mismatch of the two hashes.
pub grant_approval-refusal :
    (iso : ℕ → String) (feature_id : String) (es : List (Event × ℕ)) (now at : ℕ) (id : String)
    (gate : ApprovalGateType) (hash : String) (options : GrantApprovalOptions)
    → str_eq feature_id "" ≡ false
    → AreProper es
    → IsProper (granted id gate hash options)
    → refusal (
        grant_approval iso id gate hash options at
          (perform_all iso es now (new_registry feature_id now)))
      ≡ expected_refusal ((next_all es no_gates).latest gate) hash
grant_approval-refusal iso feature_id es now at id gate hash options named before proper =
    grant-refusal iso id gate hash options (end_of es now) at
      (perform_all iso es now (new_registry feature_id now)) (next_all es no_gates) proper
      (perform_all-Agrees iso es now (new_registry feature_id now) no_gates before
        (new_registry-Agrees feature_id now named))
