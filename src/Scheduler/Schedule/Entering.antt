-- ===== src/Scheduler/Schedule/Entering.antt =====
-- The task map while a task is placed, in Schedule of scheduler/scheduler.go.
use consul_scheduler.Prelude.{
  ℕ, String, ◌≡◌, sym, ap, ◌∙◌, inl, inr, true, List, [], ◌∷◌, ◌==◌, Bool-cases, Option-cases,
  lookup, insert,
}
use consul_scheduler.Api.Types.{Host, PortMapping, Container, Task}
use consul_scheduler.Api.Results.{
  hangs-returns, panics-returns, returned, returns, and_then-returns,
}
use consul_scheduler.Api.Definitions.{task_name, task_id}
use consul_scheduler.Api.Backend.{SchedulerApi}
use consul_scheduler.Scheduler.Hosts.{update_host}
use consul_scheduler.Scheduler.Ports.{select_port}
use consul_scheduler.Scheduler.Schedule.{Pass, provide_ports, provide_all, commit_task, place_on}

module _ {S : Type 0} (api : SchedulerApi S) (draw : ℕ → ℕ → ℕ) (fuel : ℕ) where
  -- The map, the id and the backend stay as they are while ports are handed out.
  abbrev pub Same : Task → Pass S → Task × Pass S → Type 0
  Same t p r = ((r.1).task_map ≡ p.task_map) × (task_id r.0 ≡ task_id t) × ((r.1).store ≡ p.store)

  provide_ports-Same :
      (h : Host) (ms : List PortMapping) (t : Task) (p : Pass S) (r : Task × Pass S)
      → provide_ports api draw fuel h ms t p ≡ returns r
      → Same t p r
  unfolding provide_ports task_id task_name
  provide_ports-Same h [] t p r e = (
    sym (ap (λ q. (q.1).task_map) (returned e)),
    sym (ap (λ q. task_id q.0) (returned e)),
    sym (ap (λ q. (q.1).store) (returned e)),
  )
  provide_ports-Same h (m ∷ ms) t p r e = elim (Bool-cases (m.host == 0)) [
    | inr f ↦ provide_ports-Same h ms t p r (rw (f, provide_ports) at e)
    | inl f ↦ elim (Option-cases (select_port draw fuel p.calls h p.max_port)) [
      | inl g ↦ absurd (hangs-returns (rw (f, g, provide_ports) at e))
      | inr ((picked, max_port), g) ↦
          provide_ports-Same h ms
            (record t { provided_ports = insert m.name picked.port t.provided_ports })
            (record p { max_port = max_port; calls = picked.calls }) r
            (rw (f, g, provide_ports) at e)
    ]
  ]

  pub provide_all-Same :
      (h : Host) (cs : List Container) (t : Task) (p : Pass S) (r : Task × Pass S)
      → provide_all api draw fuel h cs t p ≡ returns r
      → Same t p r
  unfolding provide_all
  provide_all-Same h [] t p r e = (
    sym (ap (λ q. (q.1).task_map) (returned e)),
    sym (ap (λ q. task_id q.0) (returned e)),
    sym (ap (λ q. (q.1).store) (returned e)),
  )
  provide_all-Same h (c ∷ cs) t p r e =
      let (q, first, rest) =
        and_then-returns (provide_ports api draw fuel h c.ports t p)
          (λ q. provide_all api draw fuel h cs q.0 q.1) e in
      let a = provide_ports-Same h c.ports t p q first in
      let b = provide_all-Same h cs q.0 q.1 r rest in (b.0 ∙ a.0, b.1 ∙ a.1, b.2 ∙ a.2)

  commit_task-map :
      (t : Task) (p q : Pass S)
      → commit_task api draw fuel t p ≡ returns q
      → q.task_map ≡ insert (task_id t) t p.task_map
  unfolding commit_task
  commit_task-map t p q e =
      let (hosts, done, last) = and_then-returns (update_host t p.hosts) _ e in
      sym (ap (λ z. z.task_map) (returned last))

  -- A task that is placed is entered under its id, beside what the map had.
  pub place_on-map :
      (name : String) (t : Task) (p q : Pass S)
      → place_on api draw fuel name t p ≡ returns q
      → (u : Task) × (q.task_map ≡ insert (task_id t) u p.task_map)
  unfolding place_on task_id task_name
  place_on-map name t p q e = elim (Option-cases (lookup name p.hosts)) [
    | inl f ↦ absurd (panics-returns (rw (f, place_on) at e))
    | inr (host, f) ↦
        let (r, first, rest) =
          and_then-returns
            (provide_all api draw fuel host t.task_definition.containers (record t { host = name })
              p)
            (λ r. commit_task api draw fuel (record (r.0) { scheduled = true }) r.1)
            (rw (f, place_on) at e) in
        let (same, id, _) =
          provide_all-Same host t.task_definition.containers (record t { host = name }) p r first in
        let u = record (r.0) { scheduled = true } in
        (
          u,
          commit_task-map u r.1 q rest
              ∙ ap (λ k. insert k u (r.1).task_map) id
              ∙ ap (insert (task_id t) u) same,
        )
  ]
