-- ===== src/Scheduler/Schedule/Keeps/Placing.antt =====
-- The upward loop of Schedule of scheduler/scheduler.go keeps the hosts and the backend.
use consul_scheduler.Prelude.{
  ℕ, zero, suc, ℤ, pos, ltb_ℤ, sub64, String, ◌≡◌, refl, sym, subst, ◌≢◌, inl, inr, true, none,
  some, List, [], ◌∷◌, ◌==◌, str_eq, str_eq_iff, Bool-cases, Option-cases, length, lookup, insert,
}
use consul_scheduler.Api.Types.{
  Cluster, Deployment, Host, PortMapping, Container, TaskDefinition, Task,
}
use consul_scheduler.Api.Results.{Ensures, Ensures-and_then}
use consul_scheduler.Api.Definitions.{make_task_id, new_task}
use consul_scheduler.Api.Backend.{SchedulerApi}
use consul_scheduler.Scheduler.Hosts.{select_host, update_host, match_host, book}
use consul_scheduler.Scheduler.Hosts.Fit.{match_host_iff}
use consul_scheduler.Scheduler.Hosts.Standing.{AllFit-insert, IsKeyed-insert, same_match}
use consul_scheduler.Scheduler.Hosts.Choice.{name_of_key, select_host_lem}
use consul_scheduler.Scheduler.Ports.{select_port}
use consul_scheduler.Scheduler.Schedule.{
  Pass, provide_ports, provide_all, commit_task, place_on, add_instance, scale_up, grow, run_pass,
}
use consul_scheduler.Scheduler.Schedule.Keeps.{Contract, IsGood, cleanup-IsGood, shrink-IsGood}

module _ {S : Type 0} (api : SchedulerApi S) (P : S → Type 0) (c : Contract api P) where
  -- The task that is being placed, and the pass, while ports are handed out.
  abbrev Placing : Task → Host → Task × Pass S → Type 0
  Placing t h r =
      IsGood api P r.1
      × (lookup t.host (r.1).hosts ≡ some h)
      × ((r.0).task_definition ≡ t.task_definition)
      × ((r.0).host ≡ t.host)

  module _ (draw : ℕ → ℕ → ℕ) (fuel : ℕ) where
    provide_ports-Placing :
        (t0 : Task) (h : Host) (ms : List PortMapping) (t : Task) (p : Pass S)
        → Placing t0 h (t, p)
        → Ensures (Placing t0 h) (provide_ports api draw fuel h ms t p)
    unfolding provide_ports
    provide_ports-Placing t0 h [] t p g = g
    provide_ports-Placing t0 h (m ∷ ms) t p g = elim (Bool-cases (m.host == 0)) [
      | inr e ↦ rw (e, provide_ports) (provide_ports-Placing t0 h ms t p g)
      | inl e ↦ elim (Option-cases (select_port draw fuel p.calls h p.max_port)) [
        | inl n ↦ rw (e, n, provide_ports) tt
        | inr ((picked, max_port), n) ↦
            rw (e, n, provide_ports)
              (provide_ports-Placing t0 h ms
                (record t { provided_ports = insert m.name picked.port t.provided_ports })
                (record p { max_port = max_port; calls = picked.calls })
                (record { keyed = (g.0).keyed; fit = (g.0).fit; kept = (g.0).kept }, g.1, g.2, g.3))
      ]
    ]

    provide_all-Placing :
        (t0 : Task) (h : Host) (cs : List Container) (t : Task) (p : Pass S)
        → Placing t0 h (t, p)
        → Ensures (Placing t0 h) (provide_all api draw fuel h cs t p)
    unfolding provide_all
    provide_all-Placing t0 h [] t p g = g
    provide_all-Placing t0 h (x ∷ cs) t p g =
        Ensures-and_then (Placing t0 h) (Placing t0 h) (provide_ports api draw fuel h x.ports t p) _
          (provide_ports-Placing t0 h x.ports t p g) (λ r k. provide_all-Placing t0 h cs r.0 r.1 k)

    commit_task-IsGood :
        (t : Task) (h : Host) (p : Pass S)
        → IsGood api P p
        → lookup t.host p.hosts ≡ some h
        → t.scheduled ≡ true
        → match_host t h ≡ none
        → Ensures (IsGood api P) (commit_task api draw fuel t p)
    unfolding commit_task update_host book
    commit_task-IsGood t h p g e on fits =
        let own = name_of_key t.host h p.hosts g.keyed e in
        rw (e, update_host)
          (record {
            keyed = IsKeyed-insert t.host (book t h) p.hosts own.0 own.1 g.keyed;
            fit = AllFit-insert t.host (book t h) p.hosts ((match_host_iff t h).0 fits).0 g.fit;
            kept = c.on t h p.store on (sym own.0) fits g.kept;
          })

    place_on-IsGood :
        (name : String) (t : Task) (h : Host) (p : Pass S)
        → IsGood api P p
        → lookup name p.hosts ≡ some h
        → match_host t h ≡ none
        → Ensures (IsGood api P) (place_on api draw fuel name t p)
    unfolding place_on
    place_on-IsGood name t h p g e fits =
        let t0 = record t { host = name } in
        rw (e, place_on)
          (Ensures-and_then (Placing t0 h) (IsGood api P)
            (provide_all api draw fuel h t.task_definition.containers t0 p) _
            (provide_all-Placing t0 h t.task_definition.containers t0 p (g, e, refl, refl))
            (λ r k.
              commit_task-IsGood (record (r.0) { scheduled = true }) h r.1 k.0
                (subst (λ s. lookup s (r.1).hosts ≡ some h) (sym k.3) k.1) refl
                (same_match t (record (r.0) { scheduled = true }) h k.2 fits)))

    add_instance-IsGood :
        (cl : Cluster) (def : TaskDefinition) (d : Deployment) (i : ℤ) (p : Pass S)
        → IsGood api P p
        → Ensures (IsGood api P) (add_instance api draw fuel cl def d i p)
    unfolding add_instance
    add_instance-IsGood cl def d i p g =
        elim (Option-cases (lookup (make_task_id cl d i) p.task_map)) [
          | inr (t, e) ↦ rw (e, add_instance) g
          | inl e ↦
              let t = new_task cl def d i in
              let name = (select_host d.scheduler t p.hosts).0 in
              elim (Bool-cases (str_eq name "")) [
                | inl q ↦ rw (e, q, add_instance) g
                | inr q ↦
                    let named : name ≢ "" = λ x. cc ((str_eq_iff name "").1 x) in
                    let (h, at, fits) = (select_host_lem d.scheduler t p.hosts g.keyed).0 named in
                    rw (e, q, add_instance) (place_on-IsGood name t h p g at fits)
              ]
        ]

    pub scale_up-IsGood :
        (n i : ℕ) (cl : Cluster) (def : TaskDefinition) (d : Deployment) (p : Pass S)
        → IsGood api P p
        → Ensures (IsGood api P) (scale_up api draw fuel n i cl def d p)
    unfolding scale_up
    scale_up-IsGood zero i cl def d p g = g
    scale_up-IsGood (suc n) i cl def d p g =
        Ensures-and_then (IsGood api P) (IsGood api P)
          (add_instance api draw fuel cl def d (pos i) p) _
          (add_instance-IsGood cl def d (pos i) p g) (λ q k. scale_up-IsGood n (suc i) cl def d q k)

    grow-IsGood :
        (cl : Cluster) (def : TaskDefinition) (d : Deployment) (count : ℤ) (p : Pass S)
        → IsGood api P p
        → Ensures (IsGood api P) (grow api draw fuel cl def d count p)
    unfolding grow
    grow-IsGood cl def d count p g = elim (Bool-cases (ltb_ℤ (sub64 count p.removed) d.desired)) [
      | inl e ↦ rw e (scale_up-IsGood _ 0 cl def d p g)
      | inr e ↦ rw e g
    ]

    -- Let the hosts stand under their own names with no resource below zero, and let the
    -- backend's invariant P survive every write of a task that is not scheduled and of a
    -- scheduled task on a host that matchHost accepts. Then a pass does not panic, and what it
    -- ends in has such hosts and the invariant again.
    pub run_pass-IsGood :
        (cl : Cluster) (def : TaskDefinition) (d : Deployment) (tasks : List Task) (p : Pass S)
        → IsGood api P p
        → Ensures (IsGood api P) (run_pass api draw fuel cl def d tasks p)
    unfolding run_pass
    run_pass-IsGood cl def d tasks p g = grow-IsGood cl def d (pos (length tasks)) _ (
        shrink-IsGood api P c cl d (pos (length tasks)) _
          (cleanup-IsGood api P c d (pos (length tasks)) p.task_map p g))
