-- ===== src/Lock/Exclusion.antt =====
-- When the lock excludes, also while locks that dead processes left are taken over.
use codemachine_pipeline.Prelude.{
  ℕ, ◌+◌, ◌≡◌, ◌≢◌, ◌≤◌, refl, ap, String, Bool, true, false, ◌==◌, arith, Bool-cases, inl, inr,
}
use codemachine_pipeline.Lock.{
  LockFile, payload, unparsable, LockPath, absent, file, stale_lock_threshold_ms, is_stopped,
  is_lock_stale, Phase, idle, trying, creating, filling, conflicted, removing, holding, timed_out,
  gone, System, moved, fill_file, finds_stale, Step, begin, check, give_up, create, collide, fill,
  judge_fresh, judge_stale, remove, release, die, tick,
}

-- The process has created the file and not yet released the lock.
abbrev pub owns : Phase → Bool
owns (filling i l) = true
owns holding = true
owns _ = false

abbrev pub removes : Phase → Bool
removes (removing t) = true
removes _ = false

pub record IsExclusive (s : System) : Type 0 where
  pub unique : (p q : ℕ) → owns (s.phase p) ≡ true → owns (s.phase q) ≡ true → p ≡ q
  pub present : (p : ℕ) → owns (s.phase p) ≡ true → s.path ≢ absent
  -- a lock that is about to be removed is nobody's
  pub abandoned : (p q : ℕ) → removes (s.phase p) ≡ true → owns (s.phase q) ≡ true → ⊥

-- A process takes up a phase in which it neither owns the lock nor removes it.
IsExclusive-moved :
    (s : System) (p : ℕ) (ph : Phase)
    → owns ph ≡ false
    → removes ph ≡ false
    → IsExclusive s
    → IsExclusive (moved s p ph)
IsExclusive-moved s p ph free quiet h = record {
  unique = λ a b oa ob. ground (arith, h.unique a b);
  present = λ a oa. ground (arith, h.present a);
  abandoned = λ a b ra ob. ground (arith, h.abandoned a b);
}

-- A process takes a lock for stale that no process owns.
IsExclusive-judge :
    (s : System) (p start : ℕ)
    → ((q : ℕ) → owns (s.phase q) ≡ true → ⊥)
    → IsExclusive s
    → IsExclusive (moved s p (removing start))
IsExclusive-judge s p start nobody h = record {
  unique = λ a b oa ob. ground (arith, h.unique a b);
  present = λ a oa. ground (arith, h.present a);
  abandoned = λ a b ra ob. ground (arith, nobody b);
}

-- It removes the lock.
IsExclusive-remove :
    (s : System) (p start : ℕ)
    → s.phase p ≡ removing start
    → IsExclusive s
    → IsExclusive (moved (record s { path = absent }) p (trying start))
IsExclusive-remove s p start at_p h =
    let remover = ap removes at_p in
    record {
      unique = λ a b oa ob. ground (arith, h.unique a b);
      present = λ a oa. ground (arith, h.abandoned p a, remover);
      abandoned = λ a b ra ob. ground (arith, h.abandoned a b);
    }

IsExclusive-create :
    (s : System) (p i n : ℕ) (l : LockFile)
    → s.path ≡ absent
    → ((q : ℕ) → removes (s.phase q) ≡ false)
    → IsExclusive s
    → IsExclusive (moved (record s { path = file i unparsable; next_file = n }) p (filling i l))
IsExclusive-create s p i n l none_yet quiet h =
    let free = λ (a : ℕ) (oa : owns (s.phase a) ≡ true). h.present a oa none_yet in
    record {
      unique = λ a b oa ob. elim (Bool-cases (p == a)) [
        | inl ea ↦ elim (Bool-cases (p == b)) [
          | inl eb ↦ ground (arith, ea, eb)
          | inr nb ↦ absurd (free b (rw nb at ob))
        ]
        | inr na ↦ absurd (free a (rw na at oa))
      ];
      present = λ a oa. λ e. cc;
      abandoned = λ a b ra ob. ground (arith, quiet a);
    }

fill_file-ne-absent :
    (i : ℕ) (l : LockFile) (path : LockPath) → path ≢ absent → fill_file i l path ≢ absent
unfolding fill_file
fill_file-ne-absent i l absent h = h
fill_file-ne-absent i l (file j c) h = ground arith

IsExclusive-fill :
    (s : System) (p i : ℕ) (l : LockFile)
    → s.phase p ≡ filling i l
    → IsExclusive s
    → IsExclusive (moved (record s { path = fill_file i l s.path }) p holding)
IsExclusive-fill s p i l at_p h =
    let owner = ap owns at_p in
    record {
      unique = λ a b oa ob. ground (arith, h.unique a b, h.unique p b, h.unique a p, owner);
      present = λ a oa. fill_file-ne-absent i l s.path (h.present p owner);
      abandoned = λ a b ra ob. ground (arith, h.abandoned a b, h.abandoned a p, owner);
    }

IsExclusive-release :
    (s : System) (p : ℕ)
    → s.phase p ≡ holding
    → IsExclusive s
    → IsExclusive (moved (record s { path = absent }) p idle)
IsExclusive-release s p at_p h =
    let owner = ap owns at_p in
    record {
      unique = λ a b oa ob. ground (arith, h.unique a b);
      present = λ a oa. ground (arith, h.unique p a, owner);
      abandoned = λ a b ra ob. ground (arith, h.abandoned a b);
    }

module _ (host : ℕ → String) (pid : ℕ → ℕ) (timeout : ℕ) (operation : String) where
  -- The lock that process p meets is written, young, and of a process that is not stopped on the host of p.
  pub record IsHealthy (s : System) (p : ℕ) : Type 0 where
    pub number : ℕ
    pub lock : LockFile
    pub path_is : s.path ≡ file number (payload lock)
    pub young : s.now ≤ lock.acquired_at + stale_lock_threshold_ms
    pub alive : is_stopped (s.status (host p) lock.pid) ≡ false

  finds_stale_of_IsHealthy :
      (s : System) (p : ℕ) → IsHealthy s p → finds_stale host pid timeout operation s p ≡ false
  unfolding is_lock_stale
  finds_stale_of_IsHealthy s p h = rw h.path_is (ground (arith, h.young, h.alive))

  -- What is asked of the steps: a process that judges the lock meets a healthy one as long as
  -- some process owns it, and no process creates a lock while another is about to remove one.
  abbrev pub GoesWell : {s t : System} → Step host pid timeout operation s t → Type 0
  GoesWell {s} (judge_stale p start _ _) = (q : ℕ) → owns (s.phase q) ≡ true → IsHealthy s p
  GoesWell {s} (judge_fresh p start _ _) = (q : ℕ) → owns (s.phase q) ≡ true → IsHealthy s p
  GoesWell {s} (create p start at _ _) = (q : ℕ) → removes (s.phase q) ≡ false
  GoesWell _ = Unit

  pub data HealthyRun (s : System) : System → Type 0 where
    here : HealthyRun s s
    next :
        {t u : System}
        → HealthyRun s t
        → (st : Step host pid timeout operation t u) → GoesWell st
        → HealthyRun s u

  IsExclusive-step :
      {s t : System} (st : Step host pid timeout operation s t)
      → GoesWell st
      → IsExclusive s
      → IsExclusive t
  IsExclusive-step {s} (begin p e) w h = IsExclusive-moved s p (trying s.now) refl refl h
  IsExclusive-step {s} (check p start e lt) w h =
      IsExclusive-moved s p (creating start s.now) refl refl h
  IsExclusive-step {s} (give_up p start e lt) w h = IsExclusive-moved s p timed_out refl refl h
  IsExclusive-step {s} (create p start at e none_yet) w h =
      IsExclusive-create s p s.next_file (s.next_file + 1) _ none_yet w h
  IsExclusive-step {s} (collide p start at e there) w h =
      IsExclusive-moved s p (conflicted start) refl refl h
  IsExclusive-step {s} (fill p i l e) w h = IsExclusive-fill s p i l e h
  IsExclusive-step {s} (judge_fresh p start e f) w h =
      IsExclusive-moved s p (trying start) refl refl h
  IsExclusive-step {s} (judge_stale p start e f) w h =
      IsExclusive-judge s p start (λ q owner. cc (finds_stale_of_IsHealthy s p (w q owner), f)) h
  IsExclusive-step {s} (remove p start e) w h = IsExclusive-remove s p start e h
  IsExclusive-step {s} (release p e) w h = IsExclusive-release s p e h
  IsExclusive-step {s} (die p status) w h =
      IsExclusive-moved (record s { status = status }) p gone refl refl
        (record { unique = h.unique; present = h.present; abandoned = h.abandoned })
  IsExclusive-step {s} (tick ms) w h = record {
    unique = h.unique;
    present = h.present;
    abandoned = h.abandoned;
  }

  run-IsExclusive : {s t : System} → IsExclusive s → HealthyRun s t → IsExclusive t
  run-IsExclusive h here = h
  run-IsExclusive h (next r st w) = IsExclusive-step st w (run-IsExclusive h r)

  -- From a directory without a lock and processes that have not begun, at most one process owns the
  -- lock at any time, whatever the order of the steps, deaths and delays, and whoever takes over what a dead
  -- process left, under two conditions: whenever a process asks whether the lock is stale while some process
  -- owns it, the lock is written, not older than the threshold and of a process that is not stopped on the
  -- host of the one that asks; and no process creates a lock while another, having found one stale, has not
  -- yet removed it.
  pub HealthyRun-excludes :
      {s t : System}
      → s.path ≡ absent
      → ((p : ℕ) → s.phase p ≡ idle)
      → HealthyRun s t
      → (p q : ℕ) → p ≢ q
      → owns (t.phase p) ≡ true
      → owns (t.phase q) ≡ false
  HealthyRun-excludes {s} {t} none_yet rest run p q other owner =
      let start : IsExclusive s = record {
        unique = λ a b oa ob. absurd (cc (ap owns (rest a)));
        present = λ a oa. absurd (cc (ap owns (rest a)));
        abandoned = λ a b ra ob. cc (ap owns (rest b));
      } in
      elim (Bool-cases (owns (t.phase q))) [
        | inl both ↦ absurd (other ((run-IsExclusive start run).unique p q owner both))
        | inr alone ↦ alone
      ]
