-- ===== src/Scheduler/Schedule/Coverage.antt =====
-- The instances that the upward loop of Schedule of scheduler/scheduler.go comes to.
use consul_scheduler.Prelude.{
  ℕ, zero, suc, ◌+◌, ◌<◌, ℤ, pos, pos_part, ◌<ℤ◌, ltb_ℤ, sub64, String, ◌≡◌, refl, sym, ap, ◌∙◌,
  ◌⊎◌, inl, inr, true, some, arith, lt→ltb, str_eq, str_eq_iff, Bool-cases, Option-cases, lookup,
  insert, lookup-insert, lookup-insert_self,
}
use consul_scheduler.Api.Types.{Cluster, Deployment, TaskDefinition, Task}
use consul_scheduler.Api.Results.{returned, returns, and_then-returns}
use consul_scheduler.Api.Definitions.{task_name, task_id, make_task_id, new_task}
use consul_scheduler.Api.Backend.{SchedulerApi}
use Prim.Native.String.{◌++◌ as str_append}
use text.Mathlib.TextLemmas.{append_assoc}
use consul_scheduler.Scheduler.Hosts.{select_host}
use consul_scheduler.Scheduler.Schedule.Entering.{place_on-map}
use consul_scheduler.Scheduler.Schedule.{Pass, add_instance, scale_up, grow}

-- The id of a new task is the one that the scheduler makes for its instance.
pub task_id-new_task :
    (c : Cluster) (def : TaskDefinition) (d : Deployment) (i : ℤ)
    → def.version ≡ d.task_version
    → task_id (new_task c def d i) ≡ make_task_id c d i
unfolding task_id task_name new_task make_task_id
task_id-new_task c def d i v = rw v (
    append_assoc c.name (str_append "-" d.name) _
    ∙ ap (str_append c.name) (append_assoc "-" d.name _))

module _ {S : Type 0} (api : SchedulerApi S) (draw : ℕ → ℕ → ℕ) (fuel : ℕ) where
  abbrev pub HasTask : Cluster → Deployment → ℕ → Pass S → Type 0
  HasTask c d i q = (u : Task) × (lookup (make_task_id c d (pos i)) q.task_map ≡ some u)

  -- The round of one instance ends with a task of that instance, or found no host; and it forgets no task.
  add_instance-covers :
      (c : Cluster) (def : TaskDefinition) (d : Deployment) (i : ℕ) (p q : Pass S)
      → def.version ≡ d.task_version
      → add_instance api draw fuel c def d (pos i) p ≡ returns q
      → HasTask c d i q ⊎ ((select_host d.scheduler (new_task c def d (pos i)) p.hosts).0 ≡ "")
  unfolding add_instance
  add_instance-covers c def d i p q v e =
      elim (Option-cases (lookup (make_task_id c d (pos i)) p.task_map)) [
        | inr (t, f) ↦ inl (
          t,
          ap (λ z. lookup (make_task_id c d (pos i)) z.task_map)
                (sym (returned (rw (f, add_instance) at e)))
              ∙ f,
        )
        | inl f ↦
            let t = new_task c def d (pos i) in
            let name = (select_host d.scheduler t p.hosts).0 in
            elim (Bool-cases (str_eq name "")) [
              | inl g ↦ inr ((str_eq_iff name "").0 g)
              | inr g ↦
                  let (u, m) =
                    place_on-map api draw fuel name t p q (rw (f, g, add_instance) at e) in
                  inl (
                    u,
                    ap (lookup (make_task_id c d (pos i))) m
                        ∙ ap (λ k. lookup (make_task_id c d (pos i)) (insert k u p.task_map))
                            (task_id-new_task c def d (pos i) v)
                        ∙ lookup-insert_self (make_task_id c d (pos i)) u p.task_map,
                  )
            ]
      ]

  abbrev Remembers : Pass S → Pass S → Type 0
  Remembers p q =
      (k : String) (t : Task)
      → lookup k p.task_map ≡ some t
      → (u : Task) × (lookup k q.task_map ≡ some u)

  add_instance-Remembers :
      (c : Cluster) (def : TaskDefinition) (d : Deployment) (i : ℤ) (p q : Pass S)
      → add_instance api draw fuel c def d i p ≡ returns q
      → Remembers p q
  unfolding add_instance
  add_instance-Remembers c def d i p q e k t l =
      elim (Option-cases (lookup (make_task_id c d i) p.task_map)) [
        | inr (x, f) ↦
            (t, ap (λ z. lookup k z.task_map) (sym (returned (rw (f, add_instance) at e))) ∙ l)
        | inl f ↦
            let n = new_task c def d i in
            let name = (select_host d.scheduler n p.hosts).0 in
            elim (Bool-cases (str_eq name "")) [
              | inl g ↦ (
                t,
                ap (λ z. lookup k z.task_map) (sym (returned (rw (f, g, add_instance) at e))) ∙ l,
              )
              | inr g ↦
                  let (u, m) =
                    place_on-map api draw fuel name n p q (rw (f, g, add_instance) at e) in
                  elim (Bool-cases (str_eq (task_id n) k)) [
                    | inl s ↦ (u, ap (lookup k) m ∙ lookup-insert (task_id n) k u p.task_map ∙ rw s)
                    | inr s ↦
                        (t, ap (lookup k) m ∙ lookup-insert (task_id n) k u p.task_map ∙ rw s l)
                  ]
            ]
      ]

  scale_up-Remembers :
      (n i : ℕ) (c : Cluster) (def : TaskDefinition) (d : Deployment) (p q : Pass S)
      → scale_up api draw fuel n i c def d p ≡ returns q
      → Remembers p q
  unfolding scale_up
  scale_up-Remembers zero i c def d p q e k t l =
      (t, ap (λ z. lookup k z.task_map) (sym (returned e)) ∙ l)
  scale_up-Remembers (suc n) i c def d p q e k t l =
      let (r, first, rest) =
        and_then-returns (add_instance api draw fuel c def d (pos i) p)
          (λ r. scale_up api draw fuel n (suc i) c def d r) e in
      let (u, m) = add_instance-Remembers c def d (pos i) p r first k t l in
      scale_up-Remembers n (suc i) c def d r q rest k u m

  -- The loop came to a pass in which no host took instance i.
  abbrev pub NoHost : Cluster → TaskDefinition → Deployment → ℕ → Pass S → Pass S → Type 0
  NoHost c def d i p r =
      (scale_up api draw fuel i 0 c def d p ≡ returns r)
      × ((select_host d.scheduler (new_task c def d (pos i)) r.hosts).0 ≡ "")

  scale_up_covers :
      (n i : ℕ) (c : Cluster) (def : TaskDefinition) (d : Deployment) (p q : Pass S)
      → def.version ≡ d.task_version
      → scale_up api draw fuel n i c def d p ≡ returns q
      → (j : ℕ) → j < n
      → HasTask c d (i + j) q
        ⊎ ((r : Pass S) × ((scale_up api draw fuel j i c def d p ≡ returns r)
              × ((select_host d.scheduler (new_task c def d (pos (i + j))) r.hosts).0 ≡ "")))
  unfolding scale_up
  scale_up_covers zero i c def d p q v e j h = absurd (omega (arith, h))
  scale_up_covers (suc n) i c def d p q v e zero h =
      let (r, first, rest) =
        and_then-returns (add_instance api draw fuel c def d (pos i) p)
          (λ r. scale_up api draw fuel n (suc i) c def d r) e in
      let z : i + 0 ≡ i = omega arith in
      rw z (elim (add_instance-covers c def d i p r v first) [
        | inl (t, l) ↦
            inl (scale_up-Remembers n (suc i) c def d r q rest (make_task_id c d (pos i)) t l)
        | inr none_fits ↦ inr (p, (refl, none_fits))
      ])
  scale_up_covers (suc n) i c def d p q v e (suc j) h =
      let (r, first, rest) =
        and_then-returns (add_instance api draw fuel c def d (pos i) p)
          (λ r. scale_up api draw fuel n (suc i) c def d r) e in
      let z : i + suc j ≡ suc i + j = omega arith in
      rw z (elim (scale_up_covers n (suc i) c def d r q v rest j (omega (arith, h))) [
        | inl has ↦ inl has
        | inr (s, reached) ↦ inr (s, (rw first reached.0, reached.1))
      ])

  -- Where fewer tasks are left than are desired, and the definition has the deployment's version,
  -- the upward loop, if it comes back, leaves each instance below the desired number with a task
  -- in the map, unless it came to that instance in a pass in which selectHost found no host for
  -- its task.
  pub grow_covers :
      (c : Cluster) (def : TaskDefinition) (d : Deployment) (count : ℤ) (p q : Pass S)
      → def.version ≡ d.task_version
      → sub64 count p.removed <ℤ d.desired
      → grow api draw fuel c def d count p ≡ returns q
      → (j : ℕ) → j < pos_part d.desired
      → HasTask c d j q ⊎ ((r : Pass S) × NoHost c def d j p r)
  unfolding grow
  grow_covers c def d count p q v few e j h =
      let test : ltb_ℤ (sub64 count p.removed) d.desired ≡ true = lt→ltb _ _ few in
      let z : 0 + j ≡ j = omega arith in
      rw z at (scale_up_covers (pos_part d.desired) 0 c def d p q v (rw test at e) j h)
