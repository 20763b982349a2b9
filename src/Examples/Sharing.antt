-- ===== src/Examples/Sharing.antt =====
-- The theorems of the workers of the masters, over a key that one session has at a time.
use consul_scheduler.Prelude.{
  ℕ, ◌≡◌, refl, ◌≢◌, Bool, true, false, Option, none, some, [], arith, if◌then◌else◌, ◌==◌,
}
use consul_scheduler.Api.Results.{failed, ok, err}
use consul_scheduler.Backends.Consul.Lock.{LockClient, ConsulLockWrapper, consul_locks, lock}
use consul_scheduler.Master.Workers.{
  Masters, idle, asking, scheduling, update, after_lock, take, ask, Reach, takes, asks, here, next,
}
use consul_scheduler.Master.Workers.Keys.{KeyLaws, IsExclusive}
use consul_scheduler.Master.Workers.Exclusion.{at_most_one_schedules}
use consul_scheduler.Master.Workers.Sharing.{both_schedule}

-- The key is free or has the session of a number.
abbrev session_key : LockClient ℕ (Option ℕ)
session_key = record {
  new_lock = λ key once k. ok 0;
  lock = λ h k. elim k [
    | none ↦ (some h, ok true)
    | some o ↦ (some o, if o == h then err (failed "Lock already held") else ok false)
  ];
  unlock = λ h k. elim k [
    | none ↦ (none, some (failed "Lock not held"))
    | some o ↦ if o == h then (none, none) else (some o, some (failed "Lock not held"))
  ];
}

abbrev owns : ℕ → Option ℕ → Bool
owns h none = false
owns h (some o) = o == h

abbrev own_number : ℕ → ℕ
own_number n = n

not_gotten : (b : Bool) → (if b then err (failed "Lock already held") else ok false) ≢ ok true
not_gotten true e = cc
not_gotten false e = cc

session-KeyLaws : KeyLaws session_key own_number owns
session-KeyLaws = record {
  gets = λ m k e. free m k e;
  got = λ m k e n. gone m k e n;
  refused = λ m k e n. same m k e n;
  freed = λ m n k. given m n k;
}
  where
    free : (m : ℕ) (k : Option ℕ) → (session_key.lock m k).1 ≡ ok true → (n : ℕ) → owns n k ≡ false
    free m none e n = refl
    free m (some o) e n = absurd (not_gotten (o == m) e)

    gone :
        (m : ℕ) (k : Option ℕ)
        → (session_key.lock m k).1 ≡ ok true
        → (n : ℕ) → owns n (session_key.lock m k).0 ≡ (m == n)
    gone m none e n = refl
    gone m (some o) e n = absurd (not_gotten (o == m) e)

    same :
        (m : ℕ) (k : Option ℕ)
        → (session_key.lock m k).1 ≢ ok true
        → (n : ℕ) → owns n (session_key.lock m k).0 ≡ owns n k
    same m none e n = absurd (e refl)
    same m (some o) e n = refl

    given :
        (m n : ℕ) (k : Option ℕ)
        → owns n (session_key.unlock m k).0 ≡ (if m == n then false else owns n k)
    given m n none = ground arith
    given m n (some o) = ground arith

abbrev unlocked : ℕ → ConsulLockWrapper ℕ
unlocked m = record { handle = m; held = false; has_quit = false }

abbrev quiet : Masters ℕ (Option ℕ)
quiet = record {
  api = record { prefix = "sked"; registered = true; listeners = []; store = none };
  locks = unlocked;
  phases = λ w. idle;
}

not_busy : idle ≢ scheduling
not_busy e = cc

quiet-IsExclusive : IsExclusive session_key own_number own_number owns quiet
quiet-IsExclusive = record {
  own_handles = λ m. refl;
  working = λ w e. absurd (not_busy e);
  marked = λ m e. cc;
  one_owner = λ m n a b. cc;
}

-- The workers 0 and 1 of two masters take the lock, and the first asks whether it has it.
abbrev contended : Masters ℕ (Option ℕ)
contended =
    ask session_key own_number 0
      (take session_key own_number 1 (take session_key own_number 0 quiet))

contending : Reach session_key own_number quiet contended
unfolding take consul_locks lock after_lock
contending = next (next (next here (takes 0 refl)) (takes 1 refl)) (asks 0 refl)

first_schedules : contended.phases 0 ≡ scheduling
unfolding ask take consul_locks lock after_lock
first_schedules = refl

at_most_one_schedules_example : ◌≡◌ {A = ℕ} 0 0
at_most_one_schedules_example =
    at_most_one_schedules session_key own_number own_number owns session-KeyLaws (λ w v e. e)
      quiet-IsExclusive contending 0 0 first_schedules first_schedules

-- Two workers of one master, the first of which was refused.
abbrev one_master : ℕ → ℕ
one_master w = 0

abbrev refused_once : Masters ℕ (Option ℕ)
refused_once = record quiet { phases = update 0 asking (λ w. idle) }

both_schedule_example :
    (t : Masters ℕ (Option ℕ)) × Reach session_key one_master refused_once t
    × (t.phases 0 ≡ scheduling)
    × (t.phases 1 ≡ scheduling)
both_schedule_example =
    both_schedule session_key one_master 0 1 refused_once (λ e. absurd (omega arith)) refl refl refl
      refl
