-- ===== src/Queue/Tests/Integrity.antt =====
-- The verification of a directory that has a snapshot and an empty log.
use codemachine_pipeline.Prelude.{◌≡◌, ◌↔◌, refl, []}
use codemachine_pipeline.Queue.Types.{completed, create_empty_queue_counts}
use codemachine_pipeline.Queue.Log.{QueueDir, read_operations_with_stats}
use codemachine_pipeline.Queue.Snapshot.{load_snapshot, is_queue_snapshot_v2}
use codemachine_pipeline.Queue.Integrity.{
  fail_fast, QueueIntegrityResult, verified, verify_queue_integrity,
}
use codemachine_pipeline.Queue.Integrity.Sound.{IsIntact, verify_queue_integrity_iff}
use codemachine_pipeline.Queue.Tests.{task}
use codemachine_pipeline.Queue.Tests.Memory.{Line, node, one_dir, parse_snapshot_text}

abbrev saved_dir : QueueDir Line
saved_dir = one_dir (task "a" completed []) create_empty_queue_counts

saved_dir-IsIntact : IsIntact node saved_dir
unfolding load_snapshot is_queue_snapshot_v2 parse_snapshot_text read_operations_with_stats
saved_dir-IsIntact = record { loads = λ e. cc; no_failures = refl; follows = tt }

verify_queue_integrity_iff_example :
    ((r : QueueIntegrityResult) × (verify_queue_integrity node saved_dir fail_fast ≡ verified r))
    ↔ IsIntact node saved_dir
verify_queue_integrity_iff_example = verify_queue_integrity_iff node saved_dir
