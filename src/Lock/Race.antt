-- ===== src/Lock/Race.antt =====
-- When the lock does not exclude: a process meets the file before its content is written.
use codemachine_pipeline.Prelude.{ℕ, ◌+◌, ◌≡◌, ◌≢◌, ◌<◌, refl, String, arith}
use codemachine_pipeline.Lock.{
  LockFile, unparsable, absent, file, is_lock_stale, idle, trying, creating, filling, conflicted,
  removing, holding, System, moved, fill_file, lock_data, Step, begin, check, create, collide, fill,
  judge_stale, remove,
}

module _ (host : ℕ → String) (pid : ℕ → ℕ) (timeout : ℕ) (operation : String) where
  pub data Reach (s : System) : System → Type 0 where
    here : Reach s s
    next : {t u : System} → Reach s t → Step host pid timeout operation t u → Reach s u

  abbrev pub arrived : System → ℕ → System
  arrived s p = moved (moved s p (trying s.now)) p (creating s.now s.now)

  abbrev pub created : System → ℕ → System
  created s p =
      moved (record s { path = file s.next_file unparsable; next_file = s.next_file + 1 }) p
        (filling s.next_file (lock_data host pid timeout operation p s.now))

  abbrev filled : System → ℕ → ℕ → LockFile → System
  filled s p i l = moved (record s { path = fill_file i l s.path }) p holding

  Reach-arrived :
      {s₀ : System} (s : System) (p : ℕ)
      → 0 < timeout
      → Reach s₀ s
      → s.phase p ≡ idle
      → Reach s₀ (arrived s p)
  Reach-arrived s p waits r e =
      next (next r (begin p e)) (check p s.now (ground arith) (ground (arith, waits)))

  module _ (s : System) (p q : ℕ) where
    -- p has created the file
    abbrev first : System
    first = created (arrived s p) p

    -- q has found it and takes it for stale
    abbrev judged : System
    judged = moved (moved (arrived first q) q (conflicted s.now)) q (removing s.now)

    -- p has written the payload and holds the lock
    abbrev held : System
    held = filled judged p s.next_file (lock_data host pid timeout operation p s.now)

    -- q has removed the file of p and tries again
    abbrev removed : System
    removed =
        moved (moved (record held { path = absent }) q (trying s.now)) q (creating s.now s.now)

    abbrev both : System
    both =
        filled (created removed q) q (s.next_file + 1)
          (lock_data host pid timeout operation q s.now)

    module _ (other : p ≢ q) (waits : 0 < timeout) (none_yet : s.path ≡ absent)
        (idle_p : s.phase p ≡ idle) (idle_q : s.phase q ≡ idle) where
      Reach-judged : Reach s judged
      unfolding is_lock_stale
      Reach-judged =
          let made =
            next (Reach-arrived s p waits here idle_p)
              (create p s.now s.now (ground arith) none_yet) in
          let met =
            next (Reach-arrived first q waits made (ground (arith, other, idle_q)))
              (collide q s.now s.now (ground arith) (λ e. cc)) in
          next met (judge_stale q s.now (ground arith) refl)

      Reach-both : Reach s both
      Reach-both =
          let wrote = next Reach-judged (
            fill p s.next_file (lock_data host pid timeout operation p s.now)
              (ground (arith, other))) in
          let away = next wrote (remove q s.now (ground arith)) in
          let again = next away (check q s.now (ground arith) (ground (arith, waits))) in
          let made = next again (create q s.now s.now (ground arith) refl) in
          next made
            (fill q (s.next_file + 1) (lock_data host pid timeout operation q s.now) (ground arith))

      -- Two processes that start to acquire a free lock can both come to hold it, with no process dying
      -- and no time passing: one of them meets the file of the other before its payload is written,
      -- takes it for stale and removes it after the payload was written.
      pub race_for_new_file :
          (t : System) × Reach s t × (t.now ≡ s.now) × (t.phase p ≡ holding) × (t.phase q ≡ holding)
      race_for_new_file = (both, Reach-both, refl, ground (arith, other), ground arith)
