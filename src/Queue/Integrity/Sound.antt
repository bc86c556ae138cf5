-- ===== src/Queue/Integrity/Sound.antt =====
-- What the fail-fast verification accepts.
use codemachine_pipeline.Prelude.{
  ◌≡◌, ◌≢◌, refl, sym, subst, ◌↔◌, ◌+◌, ℕ, true, Option, none, some, List, [], ◌∷◌, arith,
  Bool-cases, Option-cases, length, ◌∙◌, inl, inr, ltb, ◌==◌,
}
use codemachine_pipeline.Queue.Types.{QueueOperation, QueueSnapshotV2}
use codemachine_pipeline.Queue.Log.{
  Platform, QueueDir, ReadOperationsResult, read_operations_with_stats,
}
use codemachine_pipeline.Queue.Snapshot.{load_snapshot}
use codemachine_pipeline.Queue.Integrity.{
  QueueIntegrityMode, fail_fast, QueueIntegrityResult, verified, thrown, stop_or, check_continuity,
  check_sequence, check_log, unchecked, verify_queue_integrity, snapshot_checksum_mismatch,
  QueueIntegrityErrorKind,
}

thrown_ne : {kind : QueueIntegrityErrorKind} {r : QueueIntegrityResult} → thrown kind ≢ verified r
thrown_ne h = cc

-- Each operation's number is the one after the number before it.
abbrev pub IsConsecutive : ℕ → List QueueOperation → Type 0
IsConsecutive last [] = Unit
IsConsecutive last (op ∷ ops) = (op.seq ≡ last + 1) × IsConsecutive op.seq ops

-- From the snapshot's number on, and else from the first operation's.
abbrev pub Follows : Option QueueSnapshotV2 → List QueueOperation → Type 0
Follows snapshot [] = Unit
Follows none (op ∷ ops) = IsConsecutive op.seq ops
Follows (some s) (op ∷ ops) = IsConsecutive s.snapshot_seq (op ∷ ops)

check_continuity_of_IsConsecutive :
    (mode : QueueIntegrityMode) (r : QueueIntegrityResult) (last : ℕ) (ops : List QueueOperation)
    → IsConsecutive last ops
    → check_continuity mode r last ops ≡ verified r
unfolding check_continuity
check_continuity_of_IsConsecutive mode r last [] h = refl
check_continuity_of_IsConsecutive mode r last (op ∷ ops) h =
    ground (arith, h.0, check_continuity_of_IsConsecutive mode r op.seq ops h.1)

consecutive_step :
    (r s : QueueIntegrityResult) (last : ℕ) (op : QueueOperation) (ops : List QueueOperation)
    → check_continuity fail_fast r last (op ∷ ops) ≡ verified s
    → (op.seq ≡ last + 1) × (check_continuity fail_fast r op.seq ops ≡ verified s)
unfolding check_continuity stop_or
consecutive_step r s last op ops h = (ground arith, ground arith)

check_continuity-IsConsecutive :
    (r s : QueueIntegrityResult) (last : ℕ) (ops : List QueueOperation)
    → check_continuity fail_fast r last ops ≡ verified s
    → IsConsecutive last ops
unfolding check_continuity
check_continuity-IsConsecutive r s last [] h = tt
check_continuity-IsConsecutive r s last (op ∷ ops) h =
    let on = consecutive_step r s last op ops h in
    (on.0, check_continuity-IsConsecutive r s op.seq ops on.1)

check_sequence_of_Follows :
    (mode : QueueIntegrityMode) (r : QueueIntegrityResult) (snapshot : Option QueueSnapshotV2)
    (ops : List QueueOperation)
    → Follows snapshot ops
    → check_sequence mode r snapshot ops ≡ verified r
unfolding check_sequence
check_sequence_of_Follows mode r snapshot [] h = refl
check_sequence_of_Follows mode r none (op ∷ ops) h =
    check_continuity_of_IsConsecutive mode r op.seq ops h
check_sequence_of_Follows mode r (some s) (op ∷ ops) h =
    ground (arith, h.0, check_continuity_of_IsConsecutive mode r op.seq ops h.1)

check_sequence-Follows :
    (r s : QueueIntegrityResult) (snapshot : Option QueueSnapshotV2) (ops : List QueueOperation)
    → check_sequence fail_fast r snapshot ops ≡ verified s
    → Follows snapshot ops
unfolding check_sequence stop_or
check_sequence-Follows r s snapshot [] h = tt
check_sequence-Follows r s none (op ∷ ops) h = check_continuity-IsConsecutive r s op.seq ops h
check_sequence-Follows r s (some t) (op ∷ ops) h =
    elim (Bool-cases (op.seq == t.snapshot_seq + 1)) [
      | inl next ↦ (ground arith, check_continuity-IsConsecutive r s op.seq ops (ground arith))
      | inr other ↦ ground arith
    ]

module _ (r : QueueIntegrityResult) (snapshot : Option QueueSnapshotV2)
    (wal : ReadOperationsResult) where
  -- the result so far, with what was read
  abbrev counted : QueueIntegrityResult
  counted = record r {
    wal_entries_checked = length wal.operations;
    wal_checksum_failures = wal.checksum_failures;
  }

  check_log_of_Follows :
      (mode : QueueIntegrityMode)
      → wal.checksum_failures ≡ 0
      → Follows snapshot wal.operations
      → check_log mode r snapshot wal ≡ verified counted
  unfolding check_log
  check_log_of_Follows mode none_failed h =
      ground (arith, none_failed, check_sequence_of_Follows mode counted snapshot wal.operations h)

  sound_of_check_log :
      (s : QueueIntegrityResult)
      → check_log fail_fast r snapshot wal ≡ verified s
      → (wal.checksum_failures ≡ 0) × Follows snapshot wal.operations
  unfolding check_log stop_or
  sound_of_check_log s h = elim (Bool-cases (ltb 0 wal.checksum_failures)) [
    | inl some_failed ↦ ground arith
    | inr none_failed ↦
        (ground arith, check_sequence-Follows counted s snapshot wal.operations (ground arith))
  ]

module _ (platform : Platform) where
  open platform use {Text}

  -- the operations that the verification reads
  abbrev pub log_after : QueueDir Text → Option QueueSnapshotV2 → ReadOperationsResult
  log_after dir none = read_operations_with_stats platform dir none
  log_after dir (some s) = read_operations_with_stats platform dir (some s.snapshot_seq)

  -- A snapshot file that is there loads, no checksum of the log fails, and the numbers follow.
  pub record IsIntact (dir : QueueDir Text) : Type 0 where
    pub loads : load_snapshot platform dir ≡ none → dir.snapshot ≡ none
    pub no_failures : (log_after dir (load_snapshot platform dir)).checksum_failures ≡ 0
    pub follows :
        Follows (load_snapshot platform dir) (log_after dir (load_snapshot platform dir)).operations

  module _ (dir : QueueDir Text) where
    verify_loaded :
        (mode : QueueIntegrityMode) (s : QueueSnapshotV2)
        → load_snapshot platform dir ≡ some s
        → verify_queue_integrity platform dir mode
          ≡ check_log mode
              (record unchecked { snapshot_valid = some true })
              (some s)
              (log_after dir (some s))
    unfolding verify_queue_integrity
    verify_loaded mode s h = ground (arith, h)

    verify_absent :
        (mode : QueueIntegrityMode)
        → load_snapshot platform dir ≡ none
        → dir.snapshot ≡ none
        → verify_queue_integrity platform dir mode
          ≡ check_log mode unchecked none (log_after dir none)
    unfolding verify_queue_integrity
    verify_absent mode h k = ground (arith, h, k)

    verify_corrupt :
        (text : Text)
        → load_snapshot platform dir ≡ none
        → dir.snapshot ≡ some text
        → verify_queue_integrity platform dir fail_fast ≡ thrown snapshot_checksum_mismatch
    unfolding verify_queue_integrity stop_or
    verify_corrupt text h k = ground (arith, h, k)

    verified-IsIntact :
        (r : QueueIntegrityResult)
        → verify_queue_integrity platform dir fail_fast ≡ verified r
        → IsIntact dir
    verified-IsIntact r h = elim (Option-cases (load_snapshot platform dir)) [
      | inl e ↦ elim (Option-cases dir.snapshot) [
        | inl k ↦
            let sound =
              sound_of_check_log unchecked none (log_after dir none) r
                (sym (verify_absent fail_fast e k) ∙ h) in
            record { loads = λ n. k; no_failures = rw e sound.0; follows = rw e sound.1 }
        | inr (text, k) ↦ elim (thrown_ne (sym (verify_corrupt text e k) ∙ h)) [ ]
      ]
      | inr (s, e) ↦
          let sound =
            sound_of_check_log (record unchecked { snapshot_valid = some true }) (some s)
              (log_after dir (some s)) r (sym (verify_loaded fail_fast s e) ∙ h) in
          record { loads = λ n. cc; no_failures = rw e sound.0; follows = rw e sound.1 }
    ]

    -- What either mode finds in a directory that is intact: a valid result, without gaps and errors.
    pub verify_queue_integrity_of_IsIntact :
        (mode : QueueIntegrityMode)
        → IsIntact dir
        → (r : QueueIntegrityResult) × (verify_queue_integrity platform dir mode ≡ verified r)
          × (r.valid ≡ true)
          × (r.sequence_gaps ≡ [])
          × (r.errors ≡ [])
    verify_queue_integrity_of_IsIntact mode h =
        let failures = λ (x : Option QueueSnapshotV2). (log_after dir x).checksum_failures ≡ 0 in
        let order = λ (x : Option QueueSnapshotV2). Follows x (log_after dir x).operations in
        elim (Option-cases (load_snapshot platform dir)) [
          | inl e ↦ (
            counted unchecked none (log_after dir none),
            verify_absent mode e (h.loads e)
                ∙ check_log_of_Follows unchecked none (log_after dir none) mode
                    (subst failures e h.no_failures) (subst order e h.follows),
            refl,
            refl,
            refl,
          )
          | inr (s, e) ↦
              let r = record unchecked { snapshot_valid = some true } in
              (
                counted r (some s) (log_after dir (some s)),
                verify_loaded mode s e
                    ∙ check_log_of_Follows r (some s) (log_after dir (some s)) mode
                        (subst failures e h.no_failures) (subst order e h.follows),
                refl,
                refl,
                refl,
              )
        ]

    -- The fail-fast verification gives a result exactly if the directory is intact: a snapshot file
    -- that is there loads, no line of the log fails its checksum, and the numbers of the operations
    -- follow one another from the snapshot's on, or from the first one's where there is no snapshot.
    pub verify_queue_integrity_iff :
        ((r : QueueIntegrityResult) × (verify_queue_integrity platform dir fail_fast ≡ verified r))
        ↔ IsIntact dir
    verify_queue_integrity_iff = (
      λ (r, h). verified-IsIntact r h,
      λ h. let found = verify_queue_integrity_of_IsIntact fail_fast h in (found.0, found.1),
    )
