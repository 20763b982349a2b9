-- ===== src/Backends/Mock/Laws.antt =====
-- backends/mock/mock_api.go against the laws of a backend and the scheduler's contract.
use consul_scheduler.Prelude.{
  ℕ, String, ◌≡◌, refl, ◌≢◌, ◌⊎◌, inl, inr, false, none, List, if◌then◌else◌, str_eq, str_eq_ne,
  All, All-insert, Assoc, insert, lookup-insert, lookup-insert_self,
}
use consul_scheduler.Api.Types.{Cluster, Deployment, Host, Service, TaskDefinition, Task}
use consul_scheduler.Api.Results.{ok, Returns}
use consul_scheduler.Api.Definitions.{task_id}
use consul_scheduler.Api.StoreLaws.{StoreLaws, Stores-reads}
use consul_scheduler.Scheduler.Hosts.{match_host}
use consul_scheduler.Scheduler.Schedule.{Pass, run_pass}
use consul_scheduler.Scheduler.Schedule.Keeps.{Contract, IsGood}
use consul_scheduler.Scheduler.Schedule.Returning.{FixedContainers, run_pass-Returns}
use consul_scheduler.Backends.Mock.{
  MockApi, emit, find, put_cluster, put_deployment, put_service, put_task, mock_api,
}

pub find-insert : {V : Type 0} (k : String) (v : V) (m : Assoc V) → find k (insert k v m) ≡ ok v
unfolding find
find-insert k v m = rw (lookup-insert_self k v m, find)

pub find-insert_other :
    {V : Type 0} (k j : String) (v : V) (m : Assoc V) → k ≢ j → find j (insert k v m) ≡ find j m
unfolding find
find-insert_other k j v m h = rw (lookup-insert k j v m, str_eq_ne k j h, find)

-- The three kinds of configuration object.
pub mock-StoreLaws : StoreLaws mock_api
unfolding mock_api put_cluster put_deployment put_service emit
mock-StoreLaws = record {
  clusters = record {
    get_put = λ x s e. find-insert x.name x s.clusters;
    get_put_other = λ x k s h. find-insert_other x.name k x s.clusters h;
  };
  deployments = record {
    get_put = λ x s e. find-insert x.name x s.deployments;
    get_put_other = λ x k s h. find-insert_other x.name k x s.deployments h;
  };
  services = record {
    get_put = λ x s e. find-insert x.name x s.services;
    get_put_other = λ x k s h. find-insert_other x.name k x s.services h;
  };
}

-- A task that is scheduled is on a host that accepted it.
abbrev pub IsAccepted : Task → Type 0
IsAccepted t = (t.scheduled ≡ false) ⊎ ((h : Host) × (t.host ≡ h.name) × (match_host t h ≡ none))

abbrev pub AllAccepted : MockApi → Type 0
AllAccepted a = All (λ e. IsAccepted e.1) a.tasks

-- The mock keeps it true, through every write that the scheduler makes, that the scheduled tasks are
-- on hosts that accepted them.
pub mock-Contract : Contract mock_api AllAccepted
unfolding mock_api put_task emit
mock-Contract = record {
  off = λ t s o a. All-insert (λ e. IsAccepted e.1) (task_id t) t s.tasks (inl o) a;
  on = λ t h s o named fits a.
      All-insert (λ e. IsAccepted e.1) (task_id t) t s.tasks (inr (h, named, fits)) a;
}

-- After a put, a get of the mock reads the cluster, deployment or service that was put, if it asks for
-- its name, and what it read before, if it asks for another.
pub mock_reads :
    (c : Cluster) (d : Deployment) (v : Service) (j : String) (a : MockApi)
    → (mock_api.get_cluster j (mock_api.put_cluster c a).0
        ≡ (if str_eq c.name j then ok c else mock_api.get_cluster j a))
      × (mock_api.get_deployment j (mock_api.put_deployment d a).0
          ≡ (if str_eq d.name j then ok d else mock_api.get_deployment j a))
      × (mock_api.get_service j (mock_api.put_service v a).0
          ≡ (if str_eq v.name j then ok v else mock_api.get_service j a))
unfolding mock_api put_cluster put_deployment put_service
mock_reads c d v j a = (
  Stores-reads mock_api.put_cluster mock_api.get_cluster (λ (x : Cluster). x.name)
      mock-StoreLaws.clusters c j a refl,
  Stores-reads mock_api.put_deployment mock_api.get_deployment (λ (x : Deployment). x.name)
      mock-StoreLaws.deployments d j a refl,
  Stores-reads mock_api.put_service mock_api.get_service (λ (x : Service). x.name)
      mock-StoreLaws.services v j a refl,
)

-- Over the mock, a pass for a definition whose ports are all fixed comes back, and keeps true what it
-- began with: the hosts stand under their own names, none has a resource below zero, and each task
-- that is stored as scheduled is on a host that accepted it.
pub mock_pass_accepts :
    (draw : ℕ → ℕ → ℕ) (fuel : ℕ) (c : Cluster) (def : TaskDefinition) (d : Deployment)
    (tasks : List Task) (p : Pass MockApi)
    → FixedContainers def.containers
    → IsGood mock_api AllAccepted p
    → Returns (IsGood mock_api AllAccepted) (run_pass mock_api draw fuel c def d tasks p)
mock_pass_accepts draw fuel c def d tasks p a g =
    run_pass-Returns mock_api draw fuel AllAccepted mock-Contract c def d tasks p a g
