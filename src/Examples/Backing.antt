-- ===== src/Examples/Backing.antt =====
-- The backends' theorems at the small cluster.
use consul_scheduler.Prelude.{
  ◌≡◌, refl, ap, ◌∙◌, ◌↔◌, ◌≢◌, Bool, true, false, none, List, [], ◌∷◌, arith, if◌then◌else◌,
  str_eq, str_eq_ne, any, Assoc, lookup, insert, delete, values, lookup-insert, lookup-insert_self,
}
use consul_scheduler.Api.Types.{Task, running, failing, TaskQueryOpts, any_task}
use consul_scheduler.Api.Results.{ok, Outcome, returns, hangs, Returns}
use consul_scheduler.Api.Loops.{event, timer, quit}
use consul_scheduler.Discovery.{DiscoveryAgent, new_agent}
use consul_scheduler.Discovery.Polling.{run}
use consul_scheduler.Discovery.Silent.{Meets, run-Meets_iff}
use consul_scheduler.Api.Definitions.{task_id}
use Prim.Native.String.{◌++◌ as str_append}
use consul_scheduler.Backends.Query.{asks_state}
use consul_scheduler.Backends.Events.{match_key}
use consul_scheduler.Backends.Events.Patterns.{match_key_iff, Matches}
use consul_scheduler.Backends.Mock.{list_tasks}
use consul_scheduler.Backends.Mock.Listing.{Selects, list_tasks-Selects, list_tasks-hangs_iff}
use consul_scheduler.Backends.Consul.Codec.{Blob}
use consul_scheduler.Backends.Consul.Store.{ConsulClient, ConsulApi, HealthCheck}
use consul_scheduler.Backends.Consul.States.{is_own, stored_state, get_task_state}
use consul_scheduler.Backends.Consul.States.Priority.{get_task_state_lem, mine, broken}
use consul_scheduler.Backends.Consul.Interface.{consul_api}
use consul_scheduler.Backends.Consul.Laws.{KvLaws, consul_reads}
use consul_scheduler.Examples.Fixtures.{web_service, site, main, site_task, store_with_task}

abbrev stored : Assoc Blob
stored = []

passing : HealthCheck
passing = record { service_id = "task-main-site-1-0"; status = "passing" }

-- A client whose store is an association list.
client : ConsulClient (Assoc Blob)
client = record {
  node_name = λ k. ok "node";
  kv_get = λ key k. ok (lookup key k);
  kv_put = λ key b k. (insert key b k, none);
  kv_delete = λ key k. (delete key k, none);
  kv_list = λ prefix k. ok (values k);
  service_register = λ r k. (k, none);
  service_deregister = λ id k. (k, none);
  health_checks = λ id k. ok (passing ∷ []);
  print_seconds = λ d. "30s";
}

client_laws : KvLaws client
unfolding client
client_laws = record {
  get_put = λ k b s e. ap (λ o. ok o) (lookup-insert_self k b s);
  get_put_other = λ k j b s h. ap (λ o. ok o) (lookup-insert k j b s ∙ rw (str_eq_ne k j h));
}

consul : ConsulApi (Assoc Blob)
consul = record { prefix = "sked"; registered = false; listeners = []; store = [] }

consul_reads_example :
    ((consul_api client).get_cluster "main" ((consul_api client).put_cluster main consul).0 ≡ (
      if str_eq main.name "main" then ok main else (consul_api client).get_cluster "main" consul))
    × ((consul_api client).get_deployment "main" ((consul_api client).put_deployment site consul).0
        ≡ (if str_eq site.name "main"
            then ok site
            else (consul_api client).get_deployment "main" consul))
    × ((consul_api client).get_service "main" ((consul_api client).put_service web_service consul).0
        ≡ (if str_eq web_service.name "main"
            then ok web_service
            else (consul_api client).get_service "main" consul))
unfolding client consul_api consul_scheduler.Backends.Consul.Store.put
consul_reads_example =
    consul_reads client client_laws main site web_service "main" consul refl refl refl

get_task_state_lem_example :
    get_task_state client site_task consul
    ≡ ok (
        if is_own (stored_state client site_task consul)
        then stored_state client site_task consul
        else (if any (broken (str_append "task-" (task_id site_task))) (passing ∷ [])
            then failing
            else if any (mine (str_append "task-" (task_id site_task))) (passing ∷ [])
            then running
            else stored_state client site_task consul))
unfolding client
get_task_state_lem_example = get_task_state_lem client site_task consul (passing ∷ []) refl

abbrev on_host : TaskQueryOpts
on_host = record any_task { by_host = "one" }

list_tasks-Selects_example :
    (ts : List Task) × (list_tasks on_host store_with_task ≡ returns (ok ts))
    × Selects on_host (values store_with_task.tasks) ts
unfolding asks_state
list_tasks-Selects_example = list_tasks-Selects on_host store_with_task refl

abbrev failing_tasks : TaskQueryOpts
failing_tasks = record any_task { wants_failing = true }

list_tasks-hangs_iff_example :
    (list_tasks failing_tasks store_with_task ≡ hangs)
    ↔ ((asks_state failing_tasks ≡ true) × (values store_with_task.tasks ≢ []))
list_tasks-hangs_iff_example = list_tasks-hangs_iff failing_tasks store_with_task

match_key_iff_example :
    (match_key (b'a' ∷ b'*' ∷ []) (b'a' ∷ b'b' ∷ []) ≡ true)
    ↔ Matches (b'a' ∷ b'*' ∷ []) (b'a' ∷ b'b' ∷ [])
match_key_iff_example =
    match_key_iff (b'a' ∷ b'*' ∷ []) (b'a' ∷ b'b' ∷ []) (omega arith, (omega arith, tt))

-- The backend with a service in it, whose endpoints are none.
served : ConsulApi (Assoc Blob)
served = ((consul_api client).put_service web_service consul).0

listings :
    (q : TaskQueryOpts) (s : ConsulApi (Assoc Blob))
    → Returns (λ r. Unit) ((consul_api client).list_tasks q s)
unfolding consul_api
listings q s = tt

abbrev discovery_run : Outcome (DiscoveryAgent × Bool)
discovery_run =
    run (consul_api client) (event served ∷ quit ∷ timer consul ∷ []) (new_agent ("web-svc" ∷ []))

run-Meets_iff_example :
    ((discovery_run ≡ hangs)
      ↔ Meets
          (consul_api client)
          listings
          ("web-svc" ∷ [])
          (event served ∷ quit ∷ timer consul ∷ []))
    × (¬ Meets
          (consul_api client)
          listings
          ("web-svc" ∷ [])
          (event served ∷ quit ∷ timer consul ∷ [])
        → (ended : Bool) × (discovery_run ≡ returns (new_agent ("web-svc" ∷ []), ended)))
run-Meets_iff_example =
    run-Meets_iff (consul_api client) listings ("web-svc" ∷ [])
      (event served ∷ quit ∷ timer consul ∷ [])
