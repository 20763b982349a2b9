-- ===== src/Scheduler/Schedule/Counting.antt =====
-- The counter `removed` of Schedule of scheduler/scheduler.go through the cleanup.
use consul_scheduler.Prelude.{
  ℕ, suc, ◌+◌, ◌*◌, ◌^◌, ◌≤◌, ◌<◌, ℤ, pos, ◌+ℤ◌, ◌-ℤ◌, ◌<ℤ◌, ltb_ℤ, wrap64, add64, sub64, String,
  ◌≡◌, ap, subst, ◌∙◌, Bool, true, false, List, [], ◌∷◌, arith, if◌then◌else◌, length, Assoc,
  insert, le→ltb, length-insert,
}
use consul_scheduler.Api.Types.{Cluster, Deployment, Task}
use consul_scheduler.Api.Definitions.{task_id}
use consul_scheduler.Api.Backend.{SchedulerApi}
use consul_scheduler.Scheduler.Schedule.{Pass, task_map_of, unschedule, clean_task, cleanup, shrink}

length-task_map_of :
    (m : Assoc Task) (ts : List Task) → length (task_map_of m ts) ≤ length m + length ts
unfolding task_map_of
length-task_map_of m [] = omega arith
length-task_map_of m (t ∷ ts) =
    omega (arith, length-task_map_of (insert (task_id t) t m) ts, length-insert (task_id t) t m)

module _ {S : Type 0} (api : SchedulerApi S) where
  -- The counter has not gone above the bound.
  abbrev pub Within : ℕ → Pass S → Type 0
  Within b p = (n : ℕ) × (p.removed ≡ pos n) × (n ≤ b)

  add64_one : (n : ℕ) → suc n < 2 ^ 63 → add64 (pos n) (pos 1) ≡ pos (suc n)
  unfolding add64 wrap64 ◌+ℤ◌
  add64_one n h = ground arith

  pub when-Within :
      (b : ℕ) (test : Bool) (key : String) (t : Task) (p : Pass S)
      → suc b < 2 ^ 63
      → Within b p
      → Within (suc b) (if test then unschedule api key t p else p)
  unfolding unschedule
  when-Within b true key t p h (n, e, le) =
      (suc n, ap (λ z. add64 z (pos 1)) e ∙ add64_one n (omega arith), omega arith)
  when-Within b false key t p h (n, e, le) = (n, e, omega arith)

  clean_task-Within :
      (b : ℕ) (d : Deployment) (count : ℤ) (key : String) (t : Task) (p : Pass S)
      → suc (suc (suc b)) < 2 ^ 63
      → Within b p
      → Within (suc (suc (suc b))) (clean_task api d count key t p)
  unfolding clean_task
  clean_task-Within b d count key t p h w = when-Within (suc (suc b)) _ key t _ h (
      when-Within (suc b) t.rejected key t _ (omega arith)
        (when-Within b _ key t p (omega arith) w))

  -- The cleanup counts up by three for an entry at most.
  cleanup-Within :
      (m : Assoc Task) (b : ℕ) (d : Deployment) (count : ℤ) (p : Pass S)
      → 3 * length m + b < 2 ^ 63
      → Within b p
      → Within (3 * length m + b) (cleanup api d count m p)
  unfolding cleanup
  cleanup-Within [] b d count p h (n, e, le) = (n, e, omega arith)
  cleanup-Within ((key, t) ∷ m) b d count p h w =
      let more : 3 * length m + suc (suc (suc b)) ≡ 3 * suc (length m) + b = omega arith in
      subst (λ z. Within z (cleanup api d count m (clean_task api d count key t p))) more
        (cleanup-Within m (suc (suc (suc b))) d count (clean_task api d count key t p) (omega arith)
          (clean_task-Within b d count key t p (omega arith) w))

  minus_few :
      (n r : ℕ) (want : ℤ)
      → 3 * n < 2 ^ 63
      → r ≤ 3 * n
      → pos n <ℤ want
      → sub64 (pos n) (pos r) <ℤ want
  unfolding sub64 wrap64 ◌-ℤ◌
  minus_few n r want h le few = ground arith

  -- After the cleanup of fewer tasks than are desired, fewer than desired are left.
  pub cleanup_few :
      (d : Deployment) (tasks : List Task) (p : Pass S)
      → 3 * length tasks < 2 ^ 63
      → pos (length tasks) <ℤ d.desired
      → p.removed ≡ pos 0
      → p.task_map ≡ task_map_of [] tasks
      → sub64 (pos (length tasks)) (cleanup api d (pos (length tasks)) p.task_map p).removed
        <ℤ d.desired
  cleanup_few d tasks p h few zero_removed mapped =
      let short : length p.task_map ≤ length tasks =
        rw mapped (omega (arith, length-task_map_of [] tasks)) in
      let (r, e, le) =
        cleanup-Within p.task_map 0 d (pos (length tasks)) p (omega arith)
          (0, zero_removed, omega arith) in
      rw e (minus_few (length tasks) r d.desired h (omega arith) few)

  pub shrink_few :
      (cl : Cluster) (d : Deployment) (count : ℤ) (p : Pass S)
      → sub64 count p.removed <ℤ d.desired
      → shrink api cl d count p ≡ p
  unfolding shrink
  shrink_few cl d count p few =
      let test : ltb_ℤ d.desired (sub64 count p.removed) ≡ false = le→ltb _ _ (omega arith) in
      rw test
