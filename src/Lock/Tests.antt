-- ===== src/Lock/Tests.antt =====
-- Two processes on one host, at a directory without a lock.
use codemachine_pipeline.Prelude.{◌==◌, if◌then◌else◌, ℕ, ◌≡◌, ◌≢◌, refl, String, false, arith}
use codemachine_pipeline.Lock.{
  absent, idle, holding, System, running, stopped, begin, check, create, moved, fill_file,
  lock_data, gone, conflicted, removing, trying, creating, fill, die, collide, judge_stale, remove,
  judge_fresh, is_lock_stale,
}
use codemachine_pipeline.Lock.Exclusion.{owns, HealthyRun, here, next, HealthyRun-excludes}
use codemachine_pipeline.Lock.Race
use codemachine_pipeline.Lock.Race.{race_for_new_file}

abbrev here_host : ℕ → String
here_host p = "host"

abbrev own_pid : ℕ → ℕ
own_pid p = p

abbrev fresh : System
fresh = record {
  path = absent;
  next_file = 0;
  now = 1000;
  status = λ h p. running;
  phase = λ p. idle;
}

seven_ne_eight : ◌≢◌ {A = ℕ} 7 8
seven_ne_eight e = omega arith

abbrev arrived : System → ℕ → System
arrived = Race.arrived here_host own_pid 30000 "op"

abbrev created : System → ℕ → System
created = Race.created here_host own_pid 30000 "op"

abbrev filled : System → ℕ → ℕ → System
filled s p i =
    moved (record s { path = fill_file i (lock_data here_host own_pid 30000 "op" p 1000) s.path }) p
      holding

-- Process 7 takes the lock and dies with it.
abbrev left_behind : System
left_behind =
    moved
      (record (filled (created (arrived fresh 7) 7) 7 0) {
        status = λ h q. if q == 7 then stopped else running;
      })
      7 gone

-- Process 8 finds it stale.
abbrev found_stale : System
found_stale = moved (moved (arrived left_behind 8) 8 (conflicted 1000)) 8 (removing 1000)

-- Process 8 removes it and takes the lock.
abbrev taken_over : System
taken_over =
    filled
      (created
        (moved (moved (record found_stale { path = absent }) 8 (trying 1000)) 8
          (creating 1000 1000))
        8)
      8 1

-- Process 9 meets the lock of process 8 and tries again.
abbrev contended : System
contended = moved (moved (arrived taken_over 9) 9 (conflicted 1000)) 9 (trying 1000)

abbrev Runs : System → Type 0
Runs = HealthyRun here_host own_pid 30000 "op" fresh

run_left_behind : Runs left_behind
run_left_behind =
    next
      (next
        (next (next (next here (begin 7 refl) tt) (check 7 1000 refl refl) tt)
          (create 7 1000 1000 refl refl) (λ q. ground arith))
        (fill 7 0 _ refl) tt)
      (die 7 _) tt

run_found_stale : Runs found_stale
unfolding is_lock_stale fill_file
run_found_stale =
    next
      (next (next (next run_left_behind (begin 8 refl) tt) (check 8 1000 refl refl) tt)
        (collide 8 1000 1000 refl (λ e. cc)) tt)
      (judge_stale 8 1000 refl refl) (λ q owner. absurd (ground (arith, owner)))

run_taken_over : Runs taken_over
run_taken_over =
    next
      (next (next (next run_found_stale (remove 8 1000 refl) tt) (check 8 1000 refl refl) tt)
        (create 8 1000 1000 refl refl) (λ q. ground arith))
      (fill 8 1 _ refl) tt

run_contended : Runs contended
unfolding is_lock_stale fill_file
run_contended =
    next
      (next (next (next run_taken_over (begin 9 refl) tt) (check 9 1000 refl refl) tt)
        (collide 9 1000 1000 refl (λ e. cc)) tt)
      (judge_fresh 9 1000 refl refl)
      (λ q owner. record {
        number = 1;
        lock = lock_data here_host own_pid 30000 "op" 8 1000;
        path_is = refl;
        young = omega arith;
        alive = refl;
      })

eight_ne_nine : ◌≢◌ {A = ℕ} 8 9
eight_ne_nine e = omega arith

-- After the takeover process 8 owns the lock, and process 9 does not.
HealthyRun-excludes_example : owns (contended.phase 9) ≡ false
HealthyRun-excludes_example =
    HealthyRun-excludes here_host own_pid 30000 "op" refl (λ p. refl) run_contended 8 9
      eight_ne_nine refl

race_for_new_file_example :
    (t : System) × Race.Reach here_host own_pid 30000 "op" fresh t
    × (t.now ≡ 1000)
    × (t.phase 7 ≡ holding)
    × (t.phase 8 ≡ holding)
race_for_new_file_example =
    race_for_new_file here_host own_pid 30000 "op" fresh 7 8 seven_ne_eight (omega arith) refl refl
      refl
