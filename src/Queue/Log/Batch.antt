-- ===== src/Queue/Log/Batch.antt =====
-- Appending a batch in one write is appending its operations one by one.
use native.Mathlib.Nat.{add-zero}
use codemachine_pipeline.Prelude.{
  ℕ, suc, ◌+◌, ◌≡◌, refl, sym, ap, ◌∙◌, some, List, [], ◌∷◌, ◌++◌, map, append-nil, append_assoc,
  arith, length,
}
use codemachine_pipeline.Queue.Log.{
  Platform, QueueDir, holds, NewOperation, complete, complete_batch, read_sequence_counter,
  append_line, append_operation, append_operations_batch, last_number,
}

module _ (platform : Platform) where
  open platform use {Text, write_operation}

  -- the operations one by one
  unfoldable pub append_all : QueueDir Text → List NewOperation → QueueDir Text
  append_all dir [] = dir
  append_all dir (op ∷ ops) = append_all (append_operation platform dir op).0 ops

  abbrev with_log : QueueDir Text → List Text → ℕ → QueueDir Text
  with_log dir lines seq = record dir { log = some lines; counter = holds seq }

  append_operation-with_log :
      (dir : QueueDir Text) (lines : List Text) (seq : ℕ) (op : NewOperation)
      → (append_operation platform (with_log dir lines seq) op).0
        ≡ with_log dir (lines ++ write_operation (complete platform (seq + 1) op) ∷ []) (seq + 1)
  unfolding append_operation read_sequence_counter append_line
  append_operation-with_log dir lines seq op = refl

  append_all-nil : (dir : QueueDir Text) → append_all dir [] ≡ dir
  unfolding append_all
  append_all-nil dir = refl

  plus_one : (a b : ℕ) → a + 1 + b ≡ a + suc b
  plus_one a b = omega arith

  append_all-with_log :
      (dir : QueueDir Text) (lines : List Text) (seq : ℕ) (ops : List NewOperation)
      → append_all (with_log dir lines seq) ops
        ≡ with_log dir
            (lines ++ map write_operation (complete_batch platform seq ops))
            (seq + length ops)
  unfolding append_all complete_batch
  append_all-with_log dir lines seq [] = rw (append-nil, add-zero)
  append_all-with_log dir lines seq (op ∷ ops) =
      let line = write_operation (complete platform (seq + 1) op) in
      let rest = map write_operation (complete_batch platform (seq + 1) ops) in
      ap (λ (d : QueueDir Text). append_all d ops) (append_operation-with_log dir lines seq op)
      ∙ append_all-with_log dir (lines ++ line ∷ []) (seq + 1) ops
      ∙ cc (append_assoc lines (line ∷ []) rest, plus_one seq (length ops))

  -- The batch of operations leaves the directory that they leave one by one.
  pub append_operations_batch-eq-append_all :
      (dir : QueueDir Text) (lines : List Text) (last : ℕ) (ops : List NewOperation)
      → dir.log ≡ some lines
      → dir.counter ≡ holds last
      → (append_operations_batch platform dir ops).0 ≡ append_all dir ops
  unfolding append_operations_batch read_sequence_counter
  append_operations_batch-eq-append_all dir lines last [] log counter = sym (append_all-nil dir)
  append_operations_batch-eq-append_all dir lines last (op ∷ ops) log counter =
      rw (log, counter) (sym (append_all-with_log dir lines last (op ∷ ops)))

  pub last_number-complete_batch :
      (seq : ℕ) (ops : List NewOperation)
      → last_number seq (complete_batch platform seq ops) ≡ seq + length ops
  unfolding complete_batch complete
  last_number-complete_batch seq [] = omega arith
  last_number-complete_batch seq (op ∷ ops) =
      omega (arith, last_number-complete_batch (seq + 1) ops)
