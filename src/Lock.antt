-- ===== src/Lock.antt =====
-- src/persistence/lockManager.ts: the lock file of a run directory, and the processes that compete for
-- it. A step is what one process does between two waits; `writeFile` with the flag `wx` creates the
-- file in one step and writes its content in another, as the file system does.
pub mod Exclusion
pub mod Race
mod Tests
use codemachine_pipeline.Prelude.{
  ℕ, ◌+◌, ◌≡◌, ◌≢◌, String, Bool, true, false, not, ltb, ◌==◌, if◌then◌else◌,
}

pub record LockFile : Type 0 where
  pub pid : ℕ
  pub hostname : String
  pub acquired_at : ℕ
  pub operation : String

-- what the file holds: a parsed payload, or what does not parse, such as nothing at all
pub data Content : Type 0 where
  payload : LockFile → Content
  unparsable : Content

-- The path names no file, or a file. A file that is unlinked and one that is created later differ.
pub data LockPath : Type 0 where
  absent : LockPath
  file : ℕ → Content → LockPath

pub data LockFileReadResult : Type 0 where
  valid : LockFile → LockFileReadResult
  missing invalid : LockFileReadResult

pub data ProcessStatus : Type 0 where
  running stopped unknown : ProcessStatus

unfoldable pub read_lock_file : LockPath → LockFileReadResult
read_lock_file absent = missing
read_lock_file (file i (payload l)) = valid l
read_lock_file (file i unparsable) = invalid

abbrev pub stale_lock_threshold_ms : ℕ
stale_lock_threshold_ms = 300000

unfoldable pub is_stopped : ProcessStatus → Bool
is_stopped stopped = true
is_stopped _ = false

-- by the clock and by the process table of the host that asks
unfoldable pub is_lock_data_stale : ℕ → (ℕ → ProcessStatus) → LockFile → Bool
unfolding is_stopped
is_lock_data_stale now is_process_running l =
    if ltb (l.acquired_at + stale_lock_threshold_ms) now
    then true
    else is_stopped (is_process_running l.pid)

unfoldable pub is_lock_stale : ℕ → (ℕ → ProcessStatus) → LockPath → Bool
unfolding read_lock_file is_lock_data_stale
is_lock_stale now is_process_running path = elim (read_lock_file path) [
  | missing ↦ false
  | invalid ↦ true
  | valid l ↦ is_lock_data_stale now is_process_running l
]

unfoldable pub is_locked : ℕ → (ℕ → ProcessStatus) → LockPath → Bool
unfolding is_lock_stale
is_locked now is_process_running absent = false
is_locked now is_process_running (file i c) = not (is_lock_stale now is_process_running (file i c))

-- Where a process stands in `acquireLock`, with the time at which it started to try.
pub data Phase : Type 0 where
  idle : Phase
  -- at the head of the loop
  trying : ℕ → Phase
  -- before the exclusive creation, with the time that the payload will name
  creating : ℕ → ℕ → Phase
  -- the file is created, and its content not yet written
  filling : ℕ → LockFile → Phase
  -- the file was there
  conflicted : ℕ → Phase
  -- the lock was found stale
  removing : ℕ → Phase
  holding : Phase
  timed_out : Phase
  gone : Phase

pub record System : Type 0 where
  pub path : LockPath
  -- the number of the next file
  pub next_file : ℕ
  pub now : ℕ
  -- the process table of each host
  pub status : String → ℕ → ProcessStatus
  pub phase : ℕ → Phase

abbrev pub update {ℓ} : {A : Type ℓ} → (ℕ → A) → ℕ → A → ℕ → A
update f p a q = if p == q then a else f q

abbrev pub moved : System → ℕ → Phase → System
moved s p ph = record s { phase = update s.phase p ph }

-- The write reaches the file that was created, whether or not the path still names it.
unfoldable pub fill_file : ℕ → LockFile → LockPath → LockPath
fill_file i l absent = absent
fill_file i l (file j c) = if i == j then file j (payload l) else file j c

module _ (host : ℕ → String) (pid : ℕ → ℕ) (timeout : ℕ) (operation : String) where
  abbrev pub lock_data : ℕ → ℕ → LockFile
  lock_data p at = record {
    pid = pid p;
    hostname = host p;
    acquired_at = at;
    operation = operation;
  }

  -- `isLockStale`, asked by process p
  abbrev pub finds_stale : System → ℕ → Bool
  finds_stale s p = is_lock_stale s.now (s.status (host p)) s.path

  -- One step of one process, or of the environment.
  pub data Step (s : System) : System → Type 0 where
    begin : (p : ℕ) → s.phase p ≡ idle → Step s (moved s p (trying s.now))
    check :
        (p start : ℕ)
        → s.phase p ≡ trying start
        → ltb s.now (start + timeout) ≡ true
        → Step s (moved s p (creating start s.now))
    give_up :
        (p start : ℕ)
        → s.phase p ≡ trying start
        → ltb s.now (start + timeout) ≡ false
        → Step s (moved s p timed_out)
    create :
        (p start at : ℕ)
        → s.phase p ≡ creating start at
        → s.path ≡ absent
        → Step s (
            moved
              (record s { path = file s.next_file unparsable; next_file = s.next_file + 1 })
              p
              (filling s.next_file (lock_data p at)))
    collide :
        (p start at : ℕ)
        → s.phase p ≡ creating start at
        → s.path ≢ absent
        → Step s (moved s p (conflicted start))
    fill :
        (p i : ℕ) (l : LockFile)
        → s.phase p ≡ filling i l
        → Step s (moved (record s { path = fill_file i l s.path }) p holding)
    judge_fresh :
        (p start : ℕ)
        → s.phase p ≡ conflicted start
        → finds_stale s p ≡ false
        → Step s (moved s p (trying start))
    judge_stale :
        (p start : ℕ)
        → s.phase p ≡ conflicted start
        → finds_stale s p ≡ true
        → Step s (moved s p (removing start))
    -- `removeStaleLock`
    remove :
        (p start : ℕ)
        → s.phase p ≡ removing start
        → Step s (moved (record s { path = absent }) p (trying start))
    -- `releaseLock`
    release : (p : ℕ) → s.phase p ≡ holding → Step s (moved (record s { path = absent }) p idle)
    die :
        (p : ℕ) (status' : String → ℕ → ProcessStatus)
        → Step s (moved (record s { status = status' }) p gone)
    tick : (ms : ℕ) → Step s (record s { now = s.now + ms })
