-- ===== src/Scheduler/Schedule/Settled.antt =====
-- A deployment whose tasks are all as they should be.
use consul_scheduler.Prelude.{
  ◌-ℤ◌, ℕ, zero, suc, ◌^◌, ◌≤◌, ◌<◌, ℤ, pos, negsuc, ◌≤ℤ◌, ◌<ℤ◌, InInt64, InInt64-sub64, ltb_ℤ→lt,
  -ℤ_parts, ◌⊎◌, inl, inr, none, Bool-cases, ltb_ℤ, wrap64, sub64, String, ◌≡◌, refl, ap, ◌∙◌, true,
  false, some, List, [], ◌∷◌, arith, ◌==◌, le→ltb, ==_iff, length, All, Assoc, lookup,
}
use consul_scheduler.Api.Types.{Cluster, Deployment, Host, TaskDefinition, Task}
use consul_scheduler.Api.Results.{returns}
use consul_scheduler.Api.Definitions.{make_task_id}
use consul_scheduler.Api.Backend.{SchedulerApi}
use consul_scheduler.Scheduler.Schedule.Shrinking.{step_down}
use consul_scheduler.Scheduler.Schedule.{
  Pass, is_missing, is_outdated, clean_task, cleanup, remove_instance, scale_down, down_rounds,
  shrink, grow, run_pass,
}

-- On a known host, not rejected, and of the wanted version, or there are no more tasks than the
-- minimum.
pub record IsSettled (hosts : Assoc Host) (d : Deployment) (count : ℕ) (t : Task) : Type 0 where
  pub placed : (h : Host) × (lookup t.host hosts ≡ some h)
  pub accepted : t.rejected ≡ false
  pub version : (t.task_definition.version ≡ d.task_version) ⊎ (pos count ≤ℤ d.min)

module _ {S : Type 0} (api : SchedulerApi S) where
  pub count_minus_zero : (n : ℕ) → n < 2 ^ 63 → sub64 (pos n) (pos 0) ≡ pos n
  unfolding sub64 wrap64 ◌-ℤ◌
  count_minus_zero n h = ground arith

  stays_current :
      (d : Deployment) (n : ℕ) (t : Task)
      → n < 2 ^ 63
      → (t.task_definition.version ≡ d.task_version) ⊎ (pos n ≤ℤ d.min)
      → is_outdated api d (pos n) t (pos 0) ≡ false
  unfolding is_outdated
  stays_current d n t h (inl same) =
      let test : (t.task_definition.version == d.task_version) ≡ true = (==_iff _ _).1 same in
      ground arith
  stays_current d n t h (inr few) =
      let test : ltb_ℤ d.min (pos n) ≡ false = le→ltb _ _ few in
      let left = count_minus_zero n h in rw (left, test)

  clean_task_settled :
      (d : Deployment) (n : ℕ) (key : String) (t : Task) (p : Pass S)
      → n < 2 ^ 63
      → p.removed ≡ pos 0
      → IsSettled p.hosts d n t
      → clean_task api d (pos n) key t p ≡ p
  unfolding clean_task
  clean_task_settled d n key t p h z c =
      let known : is_missing api t p.hosts ≡ false =
        unfold is_missing in rw ((c.placed).1, is_missing) in
      let current : is_outdated api d (pos n) t p.removed ≡ false =
        rw z (stays_current d n t h c.version) in
      rw (known, c.accepted, current)

  pub cleanup_settled :
      (d : Deployment) (n : ℕ) (m : Assoc Task) (p : Pass S)
      → n < 2 ^ 63
      → p.removed ≡ pos 0
      → All (λ e. IsSettled p.hosts d n e.1) m
      → cleanup api d (pos n) m p ≡ p
  unfolding cleanup
  cleanup_settled d n [] p h z a = refl
  cleanup_settled d n ((key, t) ∷ m) p h z a =
      rw (clean_task_settled d n key t p h z a.0) (cleanup_settled d n m p h z a.1)

  remove_instance_absent :
      (cl : Cluster) (d : Deployment) (i : ℤ) (p : Pass S)
      → lookup (make_task_id cl d i) p.task_map ≡ none
      → remove_instance api cl d i p ≡ p
  unfolding remove_instance
  remove_instance_absent cl d i p e = rw (e, remove_instance)

  scale_down_absent :
      (fuel : ℕ) (cl : Cluster) (d : Deployment) (i : ℤ) (p : Pass S)
      → InInt64 (sub64 d.desired (pos 1))
      → InInt64 i
      → ((j : ℤ)
          → sub64 d.desired (pos 1) <ℤ j
          → j ≤ℤ i
          → lookup (make_task_id cl d j) p.task_map ≡ none)
      → (scale_down api fuel cl d i p).1 ≡ p
  unfolding scale_down
  scale_down_absent zero cl d i p hm hi gone = refl
  scale_down_absent (suc fuel) cl d i p hm hi gone =
      elim (Bool-cases (ltb_ℤ (sub64 d.desired (pos 1)) i)) [
        | inr q ↦ rw (q, scale_down)
        | inl q ↦
            let above = ltb_ℤ→lt (sub64 d.desired (pos 1)) i q in
            let (same, range, _, _) = step_down api (sub64 d.desired (pos 1)) i hm hi above in
            let absent = remove_instance_absent cl d i p (gone i above (omega arith)) in
            rw (q, absent, same, scale_down)
              (scale_down_absent fuel cl d (i -ℤ pos 1) p hm range
                (λ j low high. gone j low (omega (arith, -ℤ_parts i (pos 1)))))
      ]

  -- The instances that the loop visits are those from the desired number up to the count.
  pub visited :
      (m n : ℕ) (j : ℤ)
      → n < 2 ^ 63
      → m ≤ n
      → sub64 (pos m) (pos 1) <ℤ j
      → j ≤ℤ sub64 (pos n) (pos 1)
      → (i : ℕ) × (j ≡ pos i) × (m ≤ i) × (i < n)
  unfolding sub64 wrap64 ◌-ℤ◌
  visited m n (pos i) h le low high = (i, refl, ground arith, ground arith)
  visited m n (negsuc i) h le low high = absurd (ground arith)

  shrink_settled :
      (cl : Cluster) (d : Deployment) (m n : ℕ) (p : Pass S)
      → n < 2 ^ 63
      → m ≤ n
      → d.desired ≡ pos m
      → p.removed ≡ pos 0
      → ((i : ℕ) → m ≤ i → i < n → lookup (make_task_id cl d (pos i)) p.task_map ≡ none)
      → shrink api cl d (pos n) p ≡ p
  unfolding shrink down_rounds
  shrink_settled cl d m n p h le e z gone =
      let left : sub64 (pos n) p.removed ≡ pos n = ap (sub64 (pos n)) z ∙ count_minus_zero n h in
      elim (Bool-cases (ltb_ℤ d.desired (sub64 (pos n) p.removed))) [
        | inr q ↦ rw q
        | inl q ↦
            rw (q, left)
              (scale_down_absent (down_rounds api d (sub64 (pos n) (pos 1))) cl d
                (sub64 (pos n) (pos 1)) p (InInt64-sub64 d.desired (pos 1))
                (InInt64-sub64 (pos n) (pos 1))
                (λ j low high.
                  let (i, is, from, to) = visited m n j h le (rw e at low) high in
                  rw is (gone i from to)))
      ]

  grow_settled :
      (draw : ℕ → ℕ → ℕ) (fuel : ℕ) (cl : Cluster) (def : TaskDefinition) (d : Deployment) (m n : ℕ)
      (p : Pass S)
      → n < 2 ^ 63
      → m ≤ n
      → d.desired ≡ pos m
      → p.removed ≡ pos 0
      → grow api draw fuel cl def d (pos n) p ≡ returns p
  unfolding grow
  grow_settled draw fuel cl def d m n p h le e z =
      let left : sub64 (pos n) p.removed ≡ pos n = ap (sub64 (pos n)) z ∙ count_minus_zero n h in
      let test : ltb_ℤ (sub64 (pos n) p.removed) d.desired ≡ false =
        rw (left, e) (le→ltb _ _ (omega arith)) in
      rw test

  -- Let every task of the map be on a known host and not rejected, and of the deployment's version
  -- unless no more tasks are listed than the minimum; and let as many tasks be listed as are desired,
  -- or more, fewer than 2^63. If the map has no task of an instance from the desired number up to the
  -- number of tasks listed, then a pass that begins with the counter `removed` at 0 changes nothing: it
  -- writes no task and books no host. With as many tasks as are desired there is no such instance. So
  -- tasks beyond the desired number stay where their instances are higher, and tasks of another version
  -- stay where the minimum is the number of tasks.
  pub run_pass_settled :
      (draw : ℕ → ℕ → ℕ) (fuel : ℕ) (cl : Cluster) (def : TaskDefinition) (d : Deployment) (m : ℕ)
      (tasks : List Task) (p : Pass S)
      → length tasks < 2 ^ 63
      → m ≤ length tasks
      → d.desired ≡ pos m
      → p.removed ≡ pos 0
      → All (λ e. IsSettled p.hosts d (length tasks) e.1) p.task_map
      → ((i : ℕ) → m ≤ i → i < length tasks → lookup (make_task_id cl d (pos i)) p.task_map ≡ none)
      → run_pass api draw fuel cl def d tasks p ≡ returns p
  unfolding run_pass
  run_pass_settled draw fuel cl def d m tasks p h le e z a gone =
      rw
        (
          cleanup_settled d (length tasks) p.task_map p h z a,
          shrink_settled cl d m (length tasks) p h le e z gone,
        )
        (grow_settled draw fuel cl def d m (length tasks) p h le e z)
