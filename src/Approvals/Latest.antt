-- ===== src/Approvals/Latest.antt =====
-- The latest record of a gate, after a record is appended.
use codemachine_pipeline.Prelude.{
  ◌<◌, ◌≡◌, refl, ap, ◌∙◌, Bool, some, List, [], ◌∷◌, ◌++◌, if◌then◌else◌, filter, head?, inl, inr,
  All, All-map, All-filter, filter-append, arith, Bool-cases, append-nil,
}
use codemachine_pipeline.Approvals.Records.{ApprovalRecord, ApprovalGateType}
use codemachine_pipeline.Approvals.{
  insert_latest, sort_latest, is_for_gate, is_approved_for_gate, find_latest_approval_for_gate,
  find_latest_approved_for_gate,
}

-- Each record is older than the given one.
abbrev pub IsLatest : ApprovalRecord → List ApprovalRecord → Type 0
IsLatest r = All (λ a. a.approved_at < r.approved_at)

sort_latest-append :
    (xs : List ApprovalRecord) (r : ApprovalRecord)
    → IsLatest r xs
    → sort_latest (xs ++ r ∷ []) ≡ r ∷ sort_latest xs
unfolding sort_latest insert_latest
sort_latest-append [] r h = refl
sort_latest-append (a ∷ xs) r h =
    ap (insert_latest a) (sort_latest-append xs r h.1) ∙ ground (arith, h.0)

-- the latest of the records that pass a test
latest-append :
    (p : ApprovalRecord → Bool) (xs : List ApprovalRecord) (r : ApprovalRecord)
    → IsLatest r xs
    → head? (sort_latest (filter p (xs ++ r ∷ [])))
      ≡ (if p r then some r else head? (sort_latest (filter p xs)))
latest-append p xs r h = elim (Bool-cases (p r)) [
  | inl chosen ↦
      rw (filter-append p xs (r ∷ []), chosen)
        (ap head?
          (sort_latest-append (filter p xs) r (All-map _ _ (λ a k. k.0) _ (All-filter _ p xs h))))
  | inr left ↦ rw (filter-append p xs (r ∷ []), left, append-nil (filter p xs))
]

pub find_latest_approval-append :
    (xs : List ApprovalRecord) (r : ApprovalRecord) (gate : ApprovalGateType)
    → IsLatest r xs
    → find_latest_approval_for_gate (xs ++ r ∷ []) gate
      ≡ (if is_for_gate gate r then some r else find_latest_approval_for_gate xs gate)
unfolding find_latest_approval_for_gate
find_latest_approval-append xs r gate h = latest-append (is_for_gate gate) xs r h

pub find_latest_approved-append :
    (xs : List ApprovalRecord) (r : ApprovalRecord) (gate : ApprovalGateType)
    → IsLatest r xs
    → find_latest_approved_for_gate (xs ++ r ∷ []) gate
      ≡ (if is_approved_for_gate gate r then some r else find_latest_approved_for_gate xs gate)
unfolding find_latest_approved_for_gate
find_latest_approved-append xs r gate h = latest-append (is_approved_for_gate gate) xs r h
