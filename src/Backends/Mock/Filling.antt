-- ===== src/Backends/Mock/Filling.antt =====
-- Schedule of scheduler/scheduler.go over backends/mock/mock_api.go, where fewer tasks are listed than
-- are desired.
use consul_scheduler.Prelude.{
  ℕ, ◌*◌, ◌^◌, ◌<◌, pos, ◌<ℤ◌, ◌≡◌, refl, ◌≢◌, inl, inr, true, none, some, List, [], ◌∷◌, arith,
  Bool-cases, length, keep, All, values,
}
use consul_scheduler.Api.Types.{Cluster, Deployment, Host, TaskDefinition, Task, TaskQueryOpts}
use consul_scheduler.Api.Results.{ok, Returns}
use consul_scheduler.Api.Definitions.{task_id}
use consul_scheduler.Backends.Query.{passes, asks_state}
use consul_scheduler.Backends.Mock.{MockApi, emit, put_task, mock_api}
use consul_scheduler.Backends.Mock.Laws.{find-insert, find-insert_other}
use consul_scheduler.Backends.Mock.Listing.{list_tasks_lem}
use consul_scheduler.Scheduler.Hosts.Choice.{IsKeyed}
use consul_scheduler.Scheduler.Hosts.Standing.{AllFit}
use consul_scheduler.Scheduler.Schedule.{Scheduler, add_hosts, query_of, schedule}
use consul_scheduler.Scheduler.Schedule.Returning.{FixedContainers}
use consul_scheduler.Scheduler.Schedule.Syncing.{ListedHost}
use consul_scheduler.Scheduler.Schedule.Written.{TaskStore, IsWrittenAs}
use consul_scheduler.Scheduler.Schedule.Filling.{Reads, IsFilled, cleaned, hosted, schedule_fills}

pub mock-TaskStore : TaskStore mock_api
unfolding mock_api put_task emit
mock-TaskStore = record {
  stored = record {
    get_put = λ x s e. find-insert (task_id x) x s.tasks;
    get_put_other = λ x k s h. find-insert_other (task_id x) k x s.tasks h;
  };
  takes = λ t s. refl;
}

-- A task that the query for scheduled tasks lets pass is scheduled.
passes_scheduled :
    (q : TaskQueryOpts) (t : Task)
    → q.wants_scheduled ≡ true
    → passes q t ≡ true
    → t.scheduled ≡ true
unfolding passes
passes_scheduled q t w p = ground (arith, w, p)

-- Each stored task is got under its id.
abbrev pub IsStanding : MockApi → Type 0
IsStanding a = All (λ t. mock_api.get_task (task_id t) a ≡ ok t) (values a.tasks)

listed_written :
    (q : TaskQueryOpts) (a : MockApi) (ts : List Task)
    → q.wants_scheduled ≡ true
    → All (λ t. mock_api.get_task (task_id t) a ≡ ok t) ts
    → All (λ t. IsWrittenAs mock_api a (task_id t) t) (keep (passes q) ts)
listed_written q a [] w all = tt
listed_written q a (t ∷ ts) w all = elim (Bool-cases (passes q t)) [
  | inl p ↦ rw p (
    record { stored = all.0; scheduled = passes_scheduled q t w p; named = refl },
    listed_written q a ts w all.1,
  )
  | inr p ↦ rw p (listed_written q a ts w all.1)
]

-- The tasks of the deployment that are scheduled.
abbrev pub running : Cluster → Deployment → MockApi → List Task
running c d a = keep (passes (query_of c d)) (values a.tasks)

-- Let each task that the mock holds be got under its id. Let the scheduler have a cluster, let the mock
-- list hosts and have a definition of the deployment's version with only fixed ports, let there be a
-- host, let the scheduler's hosts stand under their own names and the listed ones have a name, all with
-- no resource below zero, and let fewer of the deployment's tasks be scheduled than are desired, fewer
-- than a third of 2^63. Then Schedule returns without an error, and for each instance below the desired
-- number the mock has a scheduled task under the instance's id, or the upward loop came to it in a pass
-- in which matchHost accepted its task on no host.
pub mock_schedule_fills :
    (draw : ℕ → ℕ → ℕ) (fuel : ℕ) (s : Scheduler MockApi) (d : Deployment) (c : Cluster)
    (def : TaskDefinition) (listed : List Host)
    → s.cluster ≡ some c
    → mock_api.list_hosts c.name s.store ≡ ok listed
    → mock_api.get_task_definition d.task_name d.task_version s.store ≡ ok def
    → IsStanding s.store
    → add_hosts s.hosts listed ≢ []
    → IsKeyed s.hosts
    → AllFit s.hosts
    → All ListedHost listed
    → def.version ≡ d.task_version
    → FixedContainers def.containers
    → 3 * length (running c d s.store) < 2 ^ 63
    → pos (length (running c d s.store)) <ℤ d.desired
    → Returns
        (λ r.
          (r.1 ≡ none)
          × IsFilled mock_api draw fuel c def d
              (cleaned mock_api draw fuel d
                (running c d s.store)
                (hosted mock_api draw fuel s listed))
              (r.0).store)
        (schedule mock_api draw fuel d s)
unfolding mock_api asks_state
mock_schedule_fills draw fuel s d c def listed set hosts found stands some_host w f hs v fixed small
      few =
    let tasks = running c d s.store in
    let reads : Reads mock_api draw fuel s d c def listed tasks = record {
      cluster = set;
      hosts = hosts;
      definition = found;
      listing = list_tasks_lem (query_of c d) s.store refl;
    } in
    schedule_fills mock_api draw fuel s d c def listed tasks mock-TaskStore reads some_host w f hs v
      fixed small few (listed_written (query_of c d) s.store (values s.store.tasks) refl stands)
