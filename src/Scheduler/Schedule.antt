-- ===== src/Scheduler/Schedule.antt =====
-- DefaultScheduler.Schedule of scheduler/scheduler.go over any backend. The maps are visited in
-- the order of their entries, and a host or task that the backend hands out is a copy.
pub mod Filling
pub mod Keeps
pub mod Entering
pub mod Counting
pub mod Coverage
pub mod Returning
pub mod Removing
pub mod Scaling
pub mod Settled
pub mod Shrinking
pub mod Syncing
pub mod Written
use consul_scheduler.Prelude.{
  ℕ, zero, suc, ℤ, pos, pos_part, ◌-ℤ◌, ltb_ℤ, add64, sub64, String, Bool, true, false, not, ◌&&◌,
  Option, none, some, List, [], ◌∷◌, ◌==◌, if◌then◌else◌, str_eq, length, Assoc, lookup, insert,
  delete,
}
use consul_scheduler.Api.Types.{
  Cluster, Deployment, Host, PortMapping, Container, TaskDefinition, Task, TaskQueryOpts, any_task,
}
use consul_scheduler.Api.Results.{
  Error, failed, Result, ok, err, ◌>>=◌, Outcome, returns, hangs, panics, and_then,
}
use consul_scheduler.Api.Definitions.{task_name, task_id, make_task_id, new_task}
use consul_scheduler.Api.Backend.{SchedulerApi}
use consul_scheduler.Scheduler.Hosts.{select_host, update_host}
use consul_scheduler.Scheduler.Ports.{select_port}

-- DefaultScheduler, with the backend's state.
pub record Scheduler (S : Type 0) : Type 0 where
  pub cluster : Option Cluster
  pub hosts : Assoc Host
  pub max_port : Assoc ℕ
  pub store : S

-- The variables of one pass: the scheduler's own maps, the backend, taskMap and the two counters.
pub record Pass (S : Type 0) : Type 0 where
  pub hosts : Assoc Host
  pub max_port : Assoc ℕ
  pub store : S
  pub task_map : Assoc Task
  pub removed : ℤ
  pub added : ℤ
  pub calls : ℕ

-- s.hosts[h.Name] = h for each host that is not draining
unfoldable pub add_hosts : Assoc Host → List Host → Assoc Host
add_hosts hosts [] = hosts
add_hosts hosts (h ∷ hs) = add_hosts (if h.draining then hosts else insert h.name h hosts) hs

unfoldable pub task_map_of : Assoc Task → List Task → Assoc Task
task_map_of m [] = m
task_map_of m (t ∷ ts) = task_map_of (insert (task_id t) t m) ts

-- the tasks that Schedule asks for
abbrev pub query_of : Cluster → Deployment → TaskQueryOpts
query_of c d = record any_task {
  by_cluster = c.name;
  by_deployment = d.name;
  wants_scheduled = true;
}

module _ {S : Type 0} (api : SchedulerApi S) where
  unfoldable pub sync_hosts : Cluster → Scheduler S → Result (Scheduler S)
  unfolding add_hosts
  sync_hosts c s = do
    hosts ← api.list_hosts c.name s.store
    ok (record s { hosts = add_hosts s.hosts hosts })

  -- t.Scheduled = false; s.api.PutTask(t); removed++; delete(taskMap, key)
  unfoldable pub unschedule : String → Task → Pass S → Pass S
  unschedule key t p = record p {
    store = (api.put_task (record t { scheduled = false }) p.store).0;
    removed = add64 p.removed (pos 1);
    task_map = delete key p.task_map;
  }

  unfoldable pub is_missing : Task → Assoc Host → Bool
  is_missing t hosts = elim (lookup t.host hosts) [ none ↦ true | some h ↦ false ]

  -- A task of another version, while more than the minimum is left.
  unfoldable pub is_outdated : Deployment → ℤ → Task → ℤ → Bool
  is_outdated d count t removed =
      ltb_ℤ d.min (sub64 count removed) && not (t.task_definition.version == d.task_version)

  -- The body of the cleanup loop.
  unfoldable pub clean_task : Deployment → ℤ → String → Task → Pass S → Pass S
  unfolding is_missing is_outdated
  clean_task d count key t p =
      let p1 = if is_missing t p.hosts then unschedule key t p else p in
      let p2 = if t.rejected then unschedule key t p1 else p1 in
      if is_outdated d count t p2.removed then unschedule key t p2 else p2

  unfoldable pub cleanup : Deployment → ℤ → Assoc Task → Pass S → Pass S
  cleanup d count [] p = p
  cleanup d count ((key, t) ∷ m) p = cleanup d count m (clean_task d count key t p)

  unfoldable pub remove_instance : Cluster → Deployment → ℤ → Pass S → Pass S
  remove_instance c d i p = elim (lookup (make_task_id c d i) p.task_map) [
    | none ↦ p
    | some t ↦ unschedule (make_task_id c d i) t p
  ]

  -- for i > d.Desired-1 { ...; i-- }, with the value of i at its end
  unfoldable pub scale_down : ℕ → Cluster → Deployment → ℤ → Pass S → ℤ × Pass S
  unfolding remove_instance
  scale_down zero c d i p = (i, p)
  scale_down (suc fuel) c d i p = elim (ltb_ℤ (sub64 d.desired (pos 1)) i) [
    | true ↦ scale_down fuel c d (sub64 i (pos 1)) (remove_instance c d i p)
    | false ↦ (i, p)
  ]

  -- How often the loop can turn from i on.
  unfoldable pub down_rounds : Deployment → ℤ → ℕ
  down_rounds d i = pos_part (i -ℤ sub64 d.desired (pos 1))

  unfoldable pub shrink : Cluster → Deployment → ℤ → Pass S → Pass S
  unfolding scale_down down_rounds
  shrink c d count p =
      let left = sub64 count p.removed in
      let i = sub64 left (pos 1) in
      if ltb_ℤ d.desired left then (scale_down (down_rounds d i) c d i p).1 else p

  unfoldable pub start_pass : Scheduler S → List Task → Pass S
  unfolding task_map_of
  start_pass s tasks = record {
    hosts = s.hosts;
    max_port = s.max_port;
    store = s.store;
    task_map = task_map_of [] tasks;
    removed = pos 0;
    added = pos 0;
    calls = 0;
  }

  abbrev pub finish : Scheduler S → Pass S → Scheduler S
  finish s p = record s { hosts = p.hosts; max_port = p.max_port; store = p.store }

  module _ (draw : ℕ → ℕ → ℕ) (fuel : ℕ) where
    -- The loop over one container's ports: a port with no number gets one.
    unfoldable pub provide_ports : Host → List PortMapping → Task → Pass S → Outcome (Task × Pass S)
    provide_ports host [] t p = returns (t, p)
    provide_ports host (m ∷ ms) t p = elim (m.host == 0) [
      | false ↦ provide_ports host ms t p
      | true ↦ elim (select_port draw fuel p.calls host p.max_port) [
        | none ↦ hangs
        | some (picked, max_port) ↦
            provide_ports host ms
              (record t { provided_ports = insert m.name picked.port t.provided_ports })
              (record p { max_port = max_port; calls = picked.calls })
      ]
    ]

    unfoldable pub provide_all : Host → List Container → Task → Pass S → Outcome (Task × Pass S)
    unfolding provide_ports
    provide_all host [] t p = returns (t, p)
    provide_all host (c ∷ cs) t p =
        and_then (provide_ports host c.ports t p) (λ r. provide_all host cs r.0 r.1)

    -- From `t.Scheduled = true` on.
    unfoldable pub commit_task : Task → Pass S → Outcome (Pass S)
    commit_task t p = and_then (update_host t p.hosts) (λ hosts. returns (record p {
      hosts = hosts;
      store = (api.put_task t p.store).0;
      added = add64 p.added (pos 1);
      task_map = insert (task_id t) t p.task_map;
    }))

    -- A task on the host that has been selected for it.
    unfoldable pub place_on : String → Task → Pass S → Outcome (Pass S)
    unfolding provide_all commit_task
    place_on name t p = elim (lookup name p.hosts) [
      | none ↦ panics
      | some host ↦
          and_then (provide_all host t.task_definition.containers (record t { host = name }) p)
            (λ r. commit_task (record (r.0) { scheduled = true }) r.1)
    ]

    -- The body of the upward loop at instance i.
    unfoldable pub add_instance :
        Cluster → TaskDefinition → Deployment → ℤ → Pass S → Outcome (Pass S)
    unfolding place_on
    add_instance c def d i p = elim (lookup (make_task_id c d i) p.task_map) [
      | some t ↦ returns p
      | none ↦
          let t = new_task c def d i in
          let name = (select_host d.scheduler t p.hosts).0 in
          if str_eq name "" then returns p else place_on name t p
    ]

    -- The rounds i, i + 1, ... of the upward loop, as many as the first argument says.
    unfoldable pub scale_up :
        ℕ → ℕ → Cluster → TaskDefinition → Deployment → Pass S → Outcome (Pass S)
    unfolding add_instance
    scale_up zero i c def d p = returns p
    scale_up (suc n) i c def d p =
        and_then (add_instance c def d (pos i) p) (λ q. scale_up n (suc i) c def d q)

    unfoldable pub grow : Cluster → TaskDefinition → Deployment → ℤ → Pass S → Outcome (Pass S)
    unfolding scale_up
    grow c def d count p =
        if ltb_ℤ (sub64 count p.removed) d.desired
        then scale_up (pos_part d.desired) 0 c def d p
        else returns p

    -- The three phases, from the listed tasks on.
    unfoldable pub run_pass :
        Cluster → TaskDefinition → Deployment → List Task → Pass S → Outcome (Pass S)
    unfolding cleanup shrink grow
    run_pass c def d tasks p =
        let count = pos (length tasks) in
        grow c def d count (shrink c d count (cleanup d count p.task_map p))

    -- From the listed tasks on; the error comes back beside the state.
    unfoldable pub schedule_listed :
        Cluster
        → Deployment
        → TaskDefinition
        → Scheduler S
        → Result (List Task)
        → Outcome (Scheduler S × Option Error)
    unfolding run_pass start_pass
    schedule_listed c d def s (err e) = returns (s, some e)
    schedule_listed c d def s (ok tasks) =
        and_then (run_pass c def d tasks (start_pass s tasks)) (λ p. returns (finish s p, none))

    -- What follows syncHosts.
    unfoldable pub schedule_synced :
        Cluster → Deployment → Scheduler S → Outcome (Scheduler S × Option Error)
    unfolding schedule_listed
    schedule_synced c d s = elim s.hosts [
      | [] ↦ returns (s, some (failed "no hosts to schedule on"))
      | _ ↦ elim (api.get_task_definition d.task_name d.task_version s.store) [
        | err e ↦ returns (s, some e)
        | ok def ↦ and_then (api.list_tasks (query_of c d) s.store) (schedule_listed c d def s)
      ]
    ]

    unfoldable pub schedule : Deployment → Scheduler S → Outcome (Scheduler S × Option Error)
    unfolding schedule_synced sync_hosts
    schedule d s = elim s.cluster [
      | none ↦ returns (s, some (failed "cluster was not set"))
      | some c ↦ elim (sync_hosts c s) [
        | err e ↦ returns (s, some e)
        | ok s' ↦ schedule_synced c d s'
      ]
    ]
