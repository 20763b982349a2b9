-- ===== src/Scheduler/Schedule/Scaling.antt =====
-- A pass of Schedule of scheduler/scheduler.go over more tasks than are desired.
use consul_scheduler.Prelude.{
  ℕ, zero, suc, ◌+◌, ◌^◌, ◌≤◌, ◌<◌, ℤ, pos, pos_part, ◌-ℤ◌, ◌<ℤ◌, ◌≤ℤ◌, ltb_ℤ, wrap64, sub64,
  InInt64, InInt64-sub64, ltb_ℤ→lt, lt→ltb, -ℤ_parts, String, ◌≡◌, refl, ap, ◌∙◌, ◌≢◌, inl, inr,
  true, false, none, some, none-some, sym, List, arith, le→ltb, str_eq_ne, Bool-cases, Option-cases,
  length, All, lookup, lookup-delete, subst,
}
use consul_scheduler.Api.Types.{Cluster, Deployment, TaskDefinition, Task}
use consul_scheduler.Api.Results.{ok, returns}
use consul_scheduler.Api.Definitions.{make_task_id}
use consul_scheduler.Api.Backend.{SchedulerApi}
use consul_scheduler.Scheduler.Schedule.Counting.{Within, when-Within}
use consul_scheduler.Scheduler.Schedule.Settled.{
  IsSettled, cleanup_settled, count_minus_zero, visited,
}
use consul_scheduler.Scheduler.Schedule.Written.{TaskStore}
use consul_scheduler.Scheduler.Schedule.Removing.{IsKept, stays, leaves, shrink-Accounts}
use consul_scheduler.Scheduler.Schedule.Shrinking.{step_down, shrink_clears}
use consul_scheduler.Scheduler.Schedule.{
  Pass, unschedule, remove_instance, scale_down, down_rounds, shrink, grow, run_pass,
}

module _ {S : Type 0} (api : SchedulerApi S) (cl : Cluster) (d : Deployment) where
  remove_instance-Within :
      (b : ℕ) (i : ℤ) (p : Pass S)
      → suc b < 2 ^ 63
      → Within api b p
      → Within api (suc b) (remove_instance api cl d i p)
  unfolding remove_instance
  remove_instance-Within b i p h w = elim (Option-cases (lookup (make_task_id cl d i) p.task_map)) [
    | inl e ↦ rw (e, remove_instance) (w.0, w.1, omega (arith, w.2))
    | inr (t, e) ↦ rw (e, remove_instance) (when-Within api b true (make_task_id cl d i) t p h w)
  ]

  -- The hosts are as they were, and so is the task map but for the instances above the desired number.
  abbrev Trimmed : ℤ → ℤ → Pass S → Pass S → Type 0
  Trimmed m i p q =
      (q.hosts ≡ p.hosts)
      × ((k : String)
          → ((j : ℤ) → m <ℤ j → j ≤ℤ i → make_task_id cl d j ≢ k)
          → lookup k q.task_map ≡ lookup k p.task_map)

  remove_instance-Trimmed :
      (m i : ℤ) (p : Pass S) → m <ℤ i → Trimmed m i p (remove_instance api cl d i p)
  unfolding remove_instance unschedule
  remove_instance-Trimmed m i p above =
      elim (Option-cases (lookup (make_task_id cl d i) p.task_map)) [
        | inl e ↦ rw (e, remove_instance) (refl, λ k apart. refl)
        | inr (t, e) ↦
            rw (e, remove_instance)
              (
                refl,
                λ k apart.
                    lookup-delete (make_task_id cl d i) k p.task_map
                    ∙ rw (str_eq_ne (make_task_id cl d i) k (apart i above (omega arith))),
              )
      ]

  scale_down-Trimmed :
      (fuel : ℕ) (i : ℤ) (p : Pass S)
      → InInt64 (sub64 d.desired (pos 1))
      → InInt64 i
      → Trimmed (sub64 d.desired (pos 1)) i p (scale_down api fuel cl d i p).1
  unfolding scale_down
  scale_down-Trimmed zero i p hm hi = (refl, λ k apart. refl)
  scale_down-Trimmed (suc fuel) i p hm hi =
      let m = sub64 d.desired (pos 1) in
      elim (Bool-cases (ltb_ℤ m i)) [
        | inr q ↦ rw (q, scale_down) (refl, λ k apart. refl)
        | inl q ↦
            let above = ltb_ℤ→lt m i q in
            let (same, range, _, _) = step_down api m i hm hi above in
            let first = remove_instance-Trimmed m i p above in
            let rest =
              scale_down-Trimmed fuel (i -ℤ pos 1) (remove_instance api cl d i p) hm range in
            rw (q, same, scale_down)
              (
                rest.0 ∙ first.0,
                λ k apart.
                    rest.1 k (λ j low high. apart j low (omega (arith, -ℤ_parts i (pos 1))))
                    ∙ first.1 k apart,
              )
      ]

  scale_down-Within :
      (fuel b : ℕ) (i : ℤ) (p : Pass S)
      → fuel + b < 2 ^ 63
      → Within api b p
      → Within api (fuel + b) (scale_down api fuel cl d i p).1
  unfolding scale_down
  scale_down-Within zero b i p h (n, e, le) = (n, e, omega arith)
  scale_down-Within (suc fuel) b i p h w = elim (Bool-cases (ltb_ℤ (sub64 d.desired (pos 1)) i)) [
    | inr q ↦ rw (q, scale_down) (w.0, w.1, omega (arith, w.2))
    | inl q ↦
        let more : fuel + suc b ≡ suc fuel + b = omega arith in
        rw (q, scale_down)
          (subst
            (λ z.
              Within api z
                (scale_down api fuel cl d (sub64 i (pos 1)) (remove_instance api cl d i p)).1)
            more
            (scale_down-Within fuel (suc b) (sub64 i (pos 1)) (remove_instance api cl d i p)
              (omega arith) (remove_instance-Within b i p (omega arith) w)))
  ]

  -- The numbers of the loop from the count n down to the desired number m.
  in_loop :
      (m n i : ℕ)
      → n < 2 ^ 63
      → m ≤ i
      → i < n
      → (sub64 (pos m) (pos 1) <ℤ pos i) × (pos i ≤ℤ sub64 (pos n) (pos 1))
  unfolding sub64 wrap64 ◌-ℤ◌
  in_loop m n i h low high = (ground arith, ground arith)

  loop_rounds :
      (m n : ℕ)
      → n < 2 ^ 63
      → m < n
      → pos_part (sub64 (pos n) (pos 1) -ℤ sub64 (pos m) (pos 1)) + m ≡ n
  unfolding sub64 wrap64 ◌-ℤ◌
  loop_rounds m n h le = ground arith

  enough_left : (m n b : ℕ) → n < 2 ^ 63 → b + m ≤ n → pos m ≤ℤ sub64 (pos n) (pos b)
  unfolding sub64 wrap64 ◌-ℤ◌
  enough_left m n b h le = ground arith

  -- No instance from m up to n is under the key.
  abbrev pub IsApart : ℕ → ℕ → String → Type 0
  IsApart m n k = (i : ℕ) → m ≤ i → i < n → make_task_id cl d (pos i) ≢ k

  abbrev Scaled : ℕ → ℕ → Pass S → Pass S → Type 0
  Scaled m n p q =
      (q.hosts ≡ p.hosts)
      × ((i : ℕ) → m ≤ i → i < n → lookup (make_task_id cl d (pos i)) q.task_map ≡ none)
      × ((k : String) → IsApart m n k → lookup k q.task_map ≡ lookup k p.task_map)

  shrink-Scaled :
      (m n : ℕ) (p : Pass S)
      → n < 2 ^ 63
      → m < n
      → d.desired ≡ pos m
      → p.removed ≡ pos 0
      → Scaled m n p (shrink api cl d (pos n) p)
        × ((b : ℕ) × ((shrink api cl d (pos n) p).removed ≡ pos b) × (b + m ≤ n))
  unfolding shrink down_rounds
  shrink-Scaled m n p h lt e z =
      let i = sub64 (pos n) (pos 1) in
      let fuel = pos_part (i -ℤ sub64 d.desired (pos 1)) in
      let left : sub64 (pos n) p.removed ≡ pos n =
        ap (sub64 (pos n)) z ∙ count_minus_zero api n h in
      let more : d.desired <ℤ sub64 (pos n) p.removed = rw (left, e) (omega arith) in
      let test : ltb_ℤ d.desired (sub64 (pos n) p.removed) ≡ true = lt→ltb _ _ more in
      let is : shrink api cl d (pos n) p ≡ (scale_down api fuel cl d i p).1 = rw (test, left) in
      let rounds : fuel + m ≡ n = rw e (loop_rounds m n h lt) in
      let trimmed =
        scale_down-Trimmed fuel i p (InInt64-sub64 d.desired (pos 1))
          (InInt64-sub64 (pos n) (pos 1)) in
      let (b, counted, le) = scale_down-Within fuel 0 i p (omega arith) (0, z, omega arith) in
      (
        (
          ap (λ (x : Pass S). x.hosts) is ∙ trimmed.0,
          λ j from to.
              let (low, high) = in_loop m n j h from to in
              shrink_clears api cl d (pos n) p more (pos j) (rw e low) (rw left high),
          λ k apart.
              ap (λ (x : Pass S). lookup k x.task_map) is
              ∙ trimmed.1 k (λ j low high.
                let (o, same, from, to) = visited api m n j h (omega arith) (rw e at low) high in
                rw same (apart o from to)),
        ),
        (b, ap (λ (x : Pass S). x.removed) is ∙ counted, omega arith),
      )

  -- What a pass over n tasks, of which m are desired, leaves of the pass that it began with.
  pub record ScaledDown (m n : ℕ) (p q : Pass S) : Type 0 where
    pub hosts : q.hosts ≡ p.hosts
    pub cleared : (i : ℕ) → m ≤ i → i < n → lookup (make_task_id cl d (pos i)) q.task_map ≡ none
    pub taken_down :
        (i : ℕ) (t : Task)
        → m ≤ i
        → i < n
        → lookup (make_task_id cl d (pos i)) p.task_map ≡ some t
        → api.get_task (make_task_id cl d (pos i)) q.store ≡ ok (record t { scheduled = false })
    pub map_kept : (k : String) → IsApart m n k → lookup k q.task_map ≡ lookup k p.task_map
    pub store_kept : (k : String) → IsApart m n k → api.get_task k q.store ≡ api.get_task k p.store

  module _ (laws : TaskStore api) where
    shrink-ScaledDown :
        (m n : ℕ) (p : Pass S)
        → IsKept api laws p
        → Scaled m n p (shrink api cl d (pos n) p)
        → ScaledDown m n p (shrink api cl d (pos n) p)
    shrink-ScaledDown m n p kept (hosts, cleared, others) =
        let q = shrink api cl d (pos n) p in
        let a = shrink-Accounts api laws p cl d kept (pos n) in
        record {
          hosts = hosts;
          cleared = cleared;
          taken_down = λ i t from to h. elim (a.fates (make_task_id cl d (pos i)) t h) [
            | stays in_map same ↦ absurd (none-some (sym (cleared i from to) ∙ in_map))
            | leaves out written ↦ written
          ];
          map_kept = others;
          store_kept = λ k apart. elim (Option-cases (lookup k p.task_map)) [
            | inl e ↦ a.others k e
            | inr (t, e) ↦ elim (a.fates k t e) [
              | stays in_map same ↦ same
              | leaves out written ↦ absurd (none-some (sym out ∙ others k apart ∙ e))
            ]
          ];
        }

    -- Let the backend take every task that is put and give it back under its id. Let every task of the
    -- map stand under its id, be on a known host and not rejected, and be of the deployment's version
    -- unless no more tasks are listed than the minimum; let more tasks be listed than are desired, fewer
    -- than 2^63, and let the counter `removed` begin at 0. Then the pass comes back, with the hosts as
    -- they were. No instance from the desired number up to the number of tasks listed is left in the
    -- task map, and the backend has the task of each of them that was in it as one that is not
    -- scheduled. Under every other key the map and the backend have what they had before.
    pub run_pass_scales_down :
        (draw : ℕ → ℕ → ℕ) (fuel : ℕ) (def : TaskDefinition) (m : ℕ) (tasks : List Task)
        (p : Pass S)
        → length tasks < 2 ^ 63
        → m < length tasks
        → d.desired ≡ pos m
        → p.removed ≡ pos 0
        → IsKept api laws p
        → All (λ e. IsSettled p.hosts d (length tasks) e.1) p.task_map
        → (q : Pass S) × (run_pass api draw fuel cl def d tasks p ≡ returns q)
          × ScaledDown m (length tasks) p q
    unfolding run_pass grow
    run_pass_scales_down draw fuel def m tasks p h lt e z kept a =
        let n = length tasks in
        let (scaled, rest) = shrink-Scaled m n p h lt e z in
        let (b, counted, le) = rest in
        let q = shrink api cl d (pos n) p in
        let test : ltb_ℤ (sub64 (pos n) q.removed) d.desired ≡ false =
          ap (λ z. ltb_ℤ (sub64 (pos n) z) d.desired) counted
          ∙ ap (ltb_ℤ (sub64 (pos n) (pos b))) e
          ∙ le→ltb _ _ (enough_left m n b h le) in
        let clean = cleanup_settled api d n p.task_map p h z a in
        let ends : grow api draw fuel cl def d (pos n) q ≡ returns q = rw test in
        let starts =
          ap (λ x. grow api draw fuel cl def d (pos n) (shrink api cl d (pos n) x)) clean in
        (q, starts ∙ ends, shrink-ScaledDown m n p kept scaled)
