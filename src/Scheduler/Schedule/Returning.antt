-- ===== src/Scheduler/Schedule/Returning.antt =====
-- When a pass of Schedule of scheduler/scheduler.go comes back.
use consul_scheduler.Prelude.{
  ℕ, zero, suc, ℤ, pos, ltb_ℤ, sub64, String, ◌≡◌, refl, ◌≢◌, inl, inr, true, false, List, [], ◌∷◌,
  arith, ◌==◌, str_eq, Bool-cases, Option-cases, length, All, lookup,
}
use consul_scheduler.Api.Types.{
  Cluster, Deployment, Host, PortMapping, Container, TaskDefinition, Task,
}
use consul_scheduler.Api.Results.{Outcome, returns, hangs, panics, and_then, Ensures, Returns}
use consul_scheduler.Api.Definitions.{make_task_id, new_task}
use consul_scheduler.Api.Backend.{SchedulerApi}
use consul_scheduler.Scheduler.Hosts.{select_host, update_host}
use consul_scheduler.Scheduler.Schedule.Keeps.{Contract, IsGood}
use consul_scheduler.Scheduler.Schedule.Keeps.Placing.{run_pass-IsGood}
use consul_scheduler.Scheduler.Schedule.{
  Pass, cleanup, shrink, provide_ports, provide_all, commit_task, place_on, add_instance, scale_up,
  grow, run_pass,
}

-- The call does not wait for ever.
abbrev Halts {ℓ} : {A : Type ℓ} → Outcome A → Type 0
Halts (returns a) = Unit
Halts hangs = ⊥
Halts panics = Unit

Halts-and_then {ℓ κ} :
    {A : Type ℓ} {B : Type κ} (m : Outcome A) (f : A → Outcome B)
    → Halts m
    → ((a : A) → m ≡ returns a → Halts (f a))
    → Halts (and_then m f)
Halts-and_then (returns a) f h k = k a refl
Halts-and_then hangs f h k = h
Halts-and_then panics f h k = tt

both : {A : Type 0} (P : A → Type 0) (m : Outcome A) → Halts m → Ensures P m → Returns P m
both P (returns a) h e = e
both P hangs h e = h
both P panics h e = e

-- Every port of the definition has a number on the host.
abbrev pub FixedPorts : List PortMapping → Type 0
FixedPorts ms = All (λ m. m.host ≢ 0) ms

abbrev pub FixedContainers : List Container → Type 0
FixedContainers cs = All (λ c. FixedPorts c.ports) cs

module _ {S : Type 0} (api : SchedulerApi S) (draw : ℕ → ℕ → ℕ) (fuel : ℕ) where
  provide_ports_fixed :
      (h : Host) (ms : List PortMapping) (t : Task) (p : Pass S)
      → FixedPorts ms
      → provide_ports api draw fuel h ms t p ≡ returns (t, p)
  unfolding provide_ports
  provide_ports_fixed h [] t p a = refl
  provide_ports_fixed h (m ∷ ms) t p a =
      let fixed : (m.host == 0) ≡ false = ground (arith, a.0) in
      rw (fixed, provide_ports) (provide_ports_fixed h ms t p a.1)

  provide_all_fixed :
      (h : Host) (cs : List Container) (t : Task) (p : Pass S)
      → FixedContainers cs
      → provide_all api draw fuel h cs t p ≡ returns (t, p)
  unfolding provide_all
  provide_all_fixed h [] t p a = refl
  provide_all_fixed h (c ∷ cs) t p a =
      rw (provide_ports_fixed h c.ports t p a.0) (provide_all_fixed h cs t p a.1)

  commit_task-Halts : (t : Task) (p : Pass S) → Halts (commit_task api draw fuel t p)
  unfolding commit_task update_host
  commit_task-Halts t p = elim (Option-cases (lookup t.host p.hosts)) [
    | inl e ↦ rw (e, update_host) tt
    | inr (h, e) ↦ rw (e, update_host) tt
  ]

  place_on-Halts :
      (name : String) (t : Task) (p : Pass S)
      → FixedContainers t.task_definition.containers
      → Halts (place_on api draw fuel name t p)
  unfolding place_on
  place_on-Halts name t p a = elim (Option-cases (lookup name p.hosts)) [
    | inl e ↦ rw (e, place_on) tt
    | inr (h, e) ↦
        rw
          (
            e,
            provide_all_fixed h t.task_definition.containers (record t { host = name }) p a,
            place_on,
          )
          (commit_task-Halts (record t { host = name; scheduled = true }) p)
  ]

  add_instance-Halts :
      (c : Cluster) (def : TaskDefinition) (d : Deployment) (i : ℤ) (p : Pass S)
      → FixedContainers def.containers
      → Halts (add_instance api draw fuel c def d i p)
  unfolding add_instance new_task
  add_instance-Halts c def d i p a = elim (Option-cases (lookup (make_task_id c d i) p.task_map)) [
    | inr (t, e) ↦ rw (e, add_instance) tt
    | inl e ↦
        let t = new_task c def d i in
        let name = (select_host d.scheduler t p.hosts).0 in
        elim (Bool-cases (str_eq name "")) [
          | inl q ↦ rw (e, q, add_instance) tt
          | inr q ↦ rw (e, q, add_instance) (place_on-Halts name t p a)
        ]
  ]

  scale_up-Halts :
      (n i : ℕ) (c : Cluster) (def : TaskDefinition) (d : Deployment) (p : Pass S)
      → FixedContainers def.containers
      → Halts (scale_up api draw fuel n i c def d p)
  unfolding scale_up
  scale_up-Halts zero i c def d p a = tt
  scale_up-Halts (suc n) i c def d p a =
      Halts-and_then (add_instance api draw fuel c def d (pos i) p) _
        (add_instance-Halts c def d (pos i) p a) (λ q e. scale_up-Halts n (suc i) c def d q a)

  run_pass-Halts :
      (c : Cluster) (def : TaskDefinition) (d : Deployment) (tasks : List Task) (p : Pass S)
      → FixedContainers def.containers
      → Halts (run_pass api draw fuel c def d tasks p)
  unfolding run_pass grow
  run_pass-Halts c def d tasks p a =
      let n = pos (length tasks) in
      let q = shrink api c d n (cleanup api d n p.task_map p) in
      elim (Bool-cases (ltb_ℤ (sub64 n q.removed) d.desired)) [
        | inl e ↦ rw e (scale_up-Halts _ 0 c def d q a)
        | inr e ↦ rw e tt
      ]

  -- A pass over a definition whose ports are all fixed comes back, whatever the random numbers and the
  -- fuel are: hosts that stand under their own names with no resource below zero, and an invariant of the
  -- backend that the contract's writes keep, are there again when it ends.
  pub run_pass-Returns :
      (P : S → Type 0) (contract : Contract api P) (c : Cluster) (def : TaskDefinition)
      (d : Deployment) (tasks : List Task) (p : Pass S)
      → FixedContainers def.containers
      → IsGood api P p
      → Returns (IsGood api P) (run_pass api draw fuel c def d tasks p)
  run_pass-Returns P contract c def d tasks p a g =
      both (IsGood api P) (run_pass api draw fuel c def d tasks p)
        (run_pass-Halts c def d tasks p a)
        (run_pass-IsGood api P contract draw fuel c def d tasks p g)
