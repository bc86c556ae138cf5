-- ===== src/Queue/Integrity.antt =====
-- src/workflows/queue/queueIntegrity.ts: `verifyQueueIntegrity` on the files of a run directory. An
-- error stands for its message; the run manifest is one that can be read.
pub mod Sound
use codemachine_pipeline.Prelude.{
  ℕ, zero, suc, ◌+◌, ◌-◌, Bool, true, false, Option, none, some, List, [], ◌∷◌, ◌++◌, length, ltb,
  leb, ◌==◌, if◌then◌else◌,
}
use codemachine_pipeline.Queue.Types.{QueueOperation, QueueSnapshotV2}
use codemachine_pipeline.Queue.Log.{
  Platform, QueueDir, ReadOperationsResult, read_operations_with_stats,
}
use codemachine_pipeline.Queue.Snapshot.{load_snapshot}

pub data QueueIntegrityMode : Type 0 where
  fail_fast warn_only : QueueIntegrityMode

pub data QueueIntegrityErrorKind : Type 0 where
  snapshot_checksum_mismatch wal_checksum_mismatch sequence_gap : QueueIntegrityErrorKind
  sequence_non_monotonic : QueueIntegrityErrorKind

pub record QueueIntegrityResult : Type 0 where
  pub valid : Bool
  pub snapshot_valid : Option Bool
  pub wal_entries_checked : ℕ
  pub wal_checksum_failures : ℕ
  pub sequence_gaps : List ℕ
  pub errors : List QueueIntegrityErrorKind

pub data Verdict : Type 0 where
  verified : QueueIntegrityResult → Verdict
  thrown : QueueIntegrityErrorKind → Verdict

-- the numbers from the first on, as many as there are
abbrev pub count_up : ℕ → ℕ → List ℕ
count_up first zero = []
count_up first (suc n) = first ∷ count_up (first + 1) n

-- `valid = false`, the numbers that are missing and the error
unfoldable pub with_error :
    QueueIntegrityResult → QueueIntegrityErrorKind → List ℕ → QueueIntegrityResult
with_error r kind missing = record r {
  valid = false;
  sequence_gaps = r.sequence_gaps ++ missing;
  errors = r.errors ++ kind ∷ [];
}

-- `if (integrityMode === 'fail-fast') throw`, and what is done otherwise
unfoldable pub stop_or : QueueIntegrityMode → QueueIntegrityErrorKind → Verdict → Verdict
stop_or fail_fast kind rest = thrown kind
stop_or warn_only kind rest = rest

-- the loop over the operations after the first, whose number is given
unfoldable pub check_continuity :
    QueueIntegrityMode → QueueIntegrityResult → ℕ → List QueueOperation → Verdict
unfolding with_error
check_continuity mode r expected [] = verified r
check_continuity mode r expected (op ∷ ops) =
    let gap = with_error r sequence_gap (count_up (expected + 1) (op.seq - (expected + 1))) in
    let back = with_error r sequence_non_monotonic [] in
    let after_gap = check_continuity mode gap op.seq ops in
    let after_back = check_continuity mode back op.seq ops in
    let rest = check_continuity mode r op.seq ops in
    if ltb (expected + 1) op.seq
    then stop_or mode sequence_gap after_gap
    else if leb op.seq expected
    then stop_or mode sequence_non_monotonic after_back
    else rest

-- the third part: the first operation against the snapshot, and then the loop
unfoldable pub check_sequence :
    QueueIntegrityMode
    → QueueIntegrityResult
    → Option QueueSnapshotV2
    → List QueueOperation
    → Verdict
unfolding check_continuity
check_sequence mode r snapshot [] = verified r
check_sequence mode r none (op ∷ ops) = check_continuity mode r op.seq ops
check_sequence mode r (some s) (op ∷ ops) =
    let next = s.snapshot_seq + 1 in
    let gap = with_error r sequence_gap (count_up next (op.seq - next)) in
    if op.seq == next
    then check_continuity mode r op.seq ops
    else stop_or mode sequence_gap (check_continuity mode gap op.seq ops)

-- the second part: the operations that are newer than the snapshot, with their checksums
unfoldable pub check_log :
    QueueIntegrityMode
    → QueueIntegrityResult
    → Option QueueSnapshotV2
    → ReadOperationsResult
    → Verdict
unfolding check_sequence
check_log mode r snapshot wal =
    let counted = record r {
      wal_entries_checked = length wal.operations;
      wal_checksum_failures = wal.checksum_failures;
    } in
    let failed = with_error counted wal_checksum_mismatch [] in
    if ltb 0 wal.checksum_failures
    then stop_or mode wal_checksum_mismatch (check_sequence mode failed snapshot wal.operations)
    else check_sequence mode counted snapshot wal.operations

abbrev pub unchecked : QueueIntegrityResult
unchecked = record {
  valid = true;
  snapshot_valid = none;
  wal_entries_checked = 0;
  wal_checksum_failures = 0;
  sequence_gaps = [];
  errors = [];
}

module _ (platform : Platform) where
  open platform use {Text}

  -- The snapshot is loaded; a file that does not load is an error. `afterSeq` is the snapshot's number.
  unfoldable pub verify_queue_integrity : QueueDir Text → QueueIntegrityMode → Verdict
  unfolding check_log
  verify_queue_integrity dir mode = elim (load_snapshot platform dir) [
    | some s ↦
        check_log mode (record unchecked { snapshot_valid = some true }) (some s)
          (read_operations_with_stats platform dir (some s.snapshot_seq))
    | none ↦ elim dir.snapshot [
      | none ↦ check_log mode unchecked none (read_operations_with_stats platform dir none)
      | some text ↦ stop_or mode snapshot_checksum_mismatch (
          check_log mode
            (record (with_error unchecked snapshot_checksum_mismatch []) {
              snapshot_valid = some false;
            })
            none (read_operations_with_stats platform dir none))
    ]
  ]
