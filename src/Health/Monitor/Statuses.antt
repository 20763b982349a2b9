-- ===== src/Health/Monitor/Statuses.antt =====
-- The status of a monitor after any run of checks.
use consul_scheduler.Prelude.{
  ◌+ℤ◌, ℕ, zero, suc, ◌+◌, ◌^◌, ◌<◌, pos, wrap64, add64, ◌≡◌, refl, Option, none, some, List, [],
  ◌∷◌, arith, ltb, if◌then◌else◌, length,
}
use consul_scheduler.Api.Types.{TaskState, running, warning, failing}
use consul_scheduler.Api.Results.{Error}
use consul_scheduler.Api.Backend.{SchedulerApi}
use consul_scheduler.Health.Monitor.{
  HealthCheck, Monitor, new_monitor, count_failure, status_of, judge, round, rounds,
}

-- The failures since the last success.
unfoldable pub trailing : ℕ → List (Option Error) → ℕ
trailing n [] = n
trailing n (none ∷ os) = trailing 0 os
trailing n (some e ∷ os) = trailing (suc n) os

-- The status for a number of failures in a row.
unfoldable pub expected : ℕ → TaskState
expected zero = running
expected (suc n) = if ltb n 3 then warning else failing

add64_one : (n : ℕ) → n + 1 < 2 ^ 63 → add64 (pos n) (pos 1) ≡ pos (suc n)
unfolding add64 ◌+ℤ◌ wrap64
add64_one n h = ground arith

status_of_lem : (n : ℕ) (s : TaskState) → status_of (pos n) s ≡ expected n
unfolding status_of expected
status_of_lem zero s = ground arith
status_of_lem (suc n) s = ground arith

module _ {S : Type 0} (api : SchedulerApi S) where
  abbrev pub Judged : ℕ → Monitor → Type 0
  Judged n m = (m.failures ≡ pos n) × (m.status ≡ expected n)

  round-Judged :
      (n : ℕ) (o : Option Error) (m : Monitor) (s : S)
      → m.failures ≡ pos n
      → n + 1 < 2 ^ 63
      → Judged (trailing n (o ∷ [])) (round api o (m, s)).0
  unfolding round count_failure judge trailing
  round-Judged n none m s e h = (refl, status_of_lem 0 m.status)
  round-Judged n (some x) m s e h =
      let q : add64 m.failures (pos 1) ≡ pos (suc n) = rw e (add64_one n h) in
      (q, rw q (status_of_lem (suc n) m.status))

  rounds-Judged :
      (n : ℕ) (os : List (Option Error)) (m : Monitor) (s : S)
      → Judged n m
      → n + length os < 2 ^ 63
      → Judged (trailing n os) (rounds api os (m, s)).0
  unfolding rounds trailing
  rounds-Judged n [] m s e h = e
  rounds-Judged n (none ∷ os) m s e h =
      rounds-Judged 0 os (round api none (m, s)).0 (round api none (m, s)).1
        (round-Judged n none m s e.0 (omega arith)) (omega arith)
  rounds-Judged n (some x ∷ os) m s e h =
      rounds-Judged (suc n) os (round api (some x) (m, s)).0 (round api (some x) (m, s)).1
        (round-Judged n (some x) m s e.0 (omega arith)) (omega arith)

  -- After one check or more, fewer than 2^63 of them, the counter of a new monitor is the number of
  -- failures since the last success, and its status is running for none, warning for one to three
  -- and failing for more.
  pub rounds_status :
      (c : HealthCheck) (o : Option Error) (os : List (Option Error)) (s : S)
      → length (o ∷ os) < 2 ^ 63
      → Judged (trailing 0 (o ∷ os)) (rounds api (o ∷ os) (new_monitor c, s)).0
  unfolding rounds trailing new_monitor
  rounds_status c none os s h =
      rounds-Judged 0 os (round api none (new_monitor c, s)).0 (round api none (new_monitor c, s)).1
        (round-Judged 0 none (new_monitor c) s refl (omega arith)) (omega arith)
  rounds_status c (some x) os s h =
      rounds-Judged 1 os (round api (some x) (new_monitor c, s)).0
        (round api (some x) (new_monitor c, s)).1
        (round-Judged 0 (some x) (new_monitor c) s refl (omega arith)) (omega arith)
