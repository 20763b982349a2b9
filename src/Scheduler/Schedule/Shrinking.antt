-- ===== src/Scheduler/Schedule/Shrinking.antt =====
-- The two phases of Schedule of scheduler/scheduler.go that remove tasks.
use consul_scheduler.Prelude.{
  ℕ, zero, suc, ◌≤◌, ℤ, pos, pos_part, ◌-ℤ◌, ◌≤ℤ◌, ◌<ℤ◌, ltb_ℤ, leb_ℤ, InInt64, wrap64, add64,
  sub64, ltb_ℤ→lt, ltb_ℤ→le, -ℤ_parts, eq_of_parts, InInt64-sub64, String, ◌≡◌, inl, inr, true,
  none, arith, ◌==◌, if◌then◌else◌, lt→ltb, leb→le, leb→gt, ==_iff, str_eq, Bool-cases,
  Option-cases, lookup, delete, lookup-delete, lookup-delete_self,
}
use consul_scheduler.Api.Types.{Cluster, Deployment, Task}
use consul_scheduler.Api.Definitions.{make_task_id}
use consul_scheduler.Api.Backend.{SchedulerApi}
use consul_scheduler.Scheduler.Schedule.{
  Pass, unschedule, is_missing, is_outdated, clean_task, remove_instance, scale_down, down_rounds,
  shrink,
}

module _ {S : Type 0} (api : SchedulerApi S) where
  -- An unscheduled task leaves the map, and nothing comes back.
  unschedule-none :
      (key j : String) (t : Task) (p : Pass S)
      → lookup j p.task_map ≡ none
      → lookup j (unschedule api key t p).task_map ≡ none
  unfolding unschedule
  unschedule-none key j t p e = rw lookup-delete (ground arith)

  remove_instance_keeps_none :
      (cl : Cluster) (d : Deployment) (i : ℤ) (j : String) (p : Pass S)
      → lookup j p.task_map ≡ none
      → lookup j (remove_instance api cl d i p).task_map ≡ none
  unfolding remove_instance
  remove_instance_keeps_none cl d i j p e =
      elim (Option-cases (lookup (make_task_id cl d i) p.task_map)) [
        | inl n ↦ rw (n, remove_instance) e
        | inr (t, n) ↦ rw (n, remove_instance) (unschedule-none _ j t p e)
      ]

  remove_instance-none :
      (cl : Cluster) (d : Deployment) (i : ℤ) (p : Pass S)
      → lookup (make_task_id cl d i) (remove_instance api cl d i p).task_map ≡ none
  unfolding remove_instance unschedule
  remove_instance-none cl d i p = elim (Option-cases (lookup (make_task_id cl d i) p.task_map)) [
    | inl n ↦ rw (n, remove_instance) n
    | inr (t, n) ↦ rw (n, remove_instance) (lookup-delete_self (make_task_id cl d i) p.task_map)
  ]

  scale_down_keeps_none :
      (fuel : ℕ) (cl : Cluster) (d : Deployment) (i : ℤ) (j : String) (p : Pass S)
      → lookup j p.task_map ≡ none
      → lookup j ((scale_down api fuel cl d i p).1).task_map ≡ none
  unfolding scale_down
  scale_down_keeps_none zero cl d i j p e = e
  scale_down_keeps_none (suc fuel) cl d i j p e =
      elim (Bool-cases (ltb_ℤ (sub64 d.desired (pos 1)) i)) [
        | inl q ↦
            rw (q, scale_down)
              (scale_down_keeps_none fuel cl d _ j _ (remove_instance_keeps_none cl d i j p e))
        | inr q ↦ rw (q, scale_down) e
      ]

  -- Above the end of the loop a step down does not wrap.
  pub step_down :
      (m i : ℤ)
      → InInt64 m
      → InInt64 i
      → m <ℤ i
      → (sub64 i (pos 1) ≡ i -ℤ pos 1)
        × InInt64 (i -ℤ pos 1)
        × (m ≤ℤ (i -ℤ pos 1))
        × (suc (pos_part ((i -ℤ pos 1) -ℤ m)) ≡ pos_part (i -ℤ m))
  unfolding sub64 wrap64 ◌-ℤ◌
  step_down m i hm hi l = ground arith

  module _ (cl : Cluster) (d : Deployment) where
    abbrev Cleared : ℤ → ℤ → Pass S → Type 0
    Cleared m i p = (j : ℤ) → m <ℤ j → j ≤ℤ i → lookup (make_task_id cl d j) p.task_map ≡ none

    scale_down_lem :
        (fuel : ℕ) (i : ℤ) (p : Pass S)
        → InInt64 (sub64 d.desired (pos 1))
        → InInt64 i
        → pos_part (i -ℤ sub64 d.desired (pos 1)) ≤ fuel
        → let r = scale_down api fuel cl d i p in
          (r.0 ≤ℤ sub64 d.desired (pos 1)) × Cleared (sub64 d.desired (pos 1)) i r.1
    unfolding scale_down
    scale_down_lem zero i p hm hi f =
        let low : i ≤ℤ sub64 d.desired (pos 1) =
          omega (arith, -ℤ_parts i (sub64 d.desired (pos 1))) in
        (low, λ j a b. absurd (omega arith))
    scale_down_lem (suc fuel) i p hm hi f = elim (Bool-cases (ltb_ℤ (sub64 d.desired (pos 1)) i)) [
      | inr q ↦
          let low = ltb_ℤ→le (sub64 d.desired (pos 1)) i q in
          rw (q, scale_down) (low, λ j a b. absurd (omega arith))
      | inl q ↦
          let m = sub64 d.desired (pos 1) in
          let (same, range, above, count) = step_down m i hm hi (ltb_ℤ→lt m i q) in
          let ih =
            scale_down_lem fuel (i -ℤ pos 1) (remove_instance api cl d i p) hm range
              (omega arith) in
          let first : (j : ℤ)
              → m <ℤ j
              → j ≤ℤ i
              → lookup (make_task_id cl d j)
                  ((scale_down api fuel cl d (i -ℤ pos 1) (remove_instance api cl d i p)).1
                    ).task_map
                ≡ none =
            λ j a b. elim (Bool-cases (leb_ℤ j (i -ℤ pos 1))) [
              | inl le ↦ ih.1 j a (leb→le _ _ le)
              | inr gt ↦
                  let top : j ≡ i =
                    eq_of_parts j i (omega (arith, -ℤ_parts i (pos 1), leb→gt _ _ gt)) in
                  rw top (
                    scale_down_keeps_none fuel cl d (i -ℤ pos 1) (make_task_id cl d i) _
                      (remove_instance-none cl d i p))
            ] in
          rw (q, scale_down) (rw same (ih.0, first))
    ]

    -- When more tasks than desired are left after the cleanup, no instance from the desired
    -- number up to the number of tasks left is in the task map after the downward loop. The
    -- numbers are those of the code's 64-bit subtractions.
    pub shrink_clears :
        (count : ℤ) (p : Pass S)
        → d.desired <ℤ sub64 count p.removed
        → (j : ℤ) → sub64 d.desired (pos 1) <ℤ j
        → j ≤ℤ sub64 (sub64 count p.removed) (pos 1)
        → lookup (make_task_id cl d j) (shrink api cl d count p).task_map ≡ none
    unfolding shrink down_rounds
    shrink_clears count p more j low high =
        let i = sub64 (sub64 count p.removed) (pos 1) in
        let test : ltb_ℤ d.desired (sub64 count p.removed) ≡ true = lt→ltb _ _ more in
        let loop =
          scale_down_lem (pos_part (i -ℤ sub64 d.desired (pos 1))) i p
            (InInt64-sub64 d.desired (pos 1)) (InInt64-sub64 (sub64 count p.removed) (pos 1))
            (omega arith) in
        rw test (loop.1 j low high)

  -- The cleanup counts a task of the deployment's version twice that has lost its host and has
  -- been rejected as well: `removed` goes up by two, though its key is the only one that leaves
  -- the map.
  pub clean_task_counts_twice :
      (d : Deployment) (count : ℤ) (key j : String) (t : Task) (p : Pass S)
      → lookup t.host p.hosts ≡ none
      → t.rejected ≡ true
      → t.task_definition.version ≡ d.task_version
      → let q = clean_task api d count key t p in
        (q.removed ≡ add64 (add64 p.removed (pos 1)) (pos 1))
        × (lookup j q.task_map ≡ (if str_eq key j then none else lookup j p.task_map))
  unfolding clean_task is_missing is_outdated unschedule
  clean_task_counts_twice d count key j t p missing gone current =
      let same : (t.task_definition.version == d.task_version) ≡ true = (==_iff _ _).1 current in
      (
        ground arith,
        ground (arith, lookup-delete key j p.task_map, lookup-delete key j (delete key p.task_map)),
      )
