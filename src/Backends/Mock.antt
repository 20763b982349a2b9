-- ===== src/Backends/Mock.antt =====
-- backends/mock/: the in-memory backend. Every method holds `a.lock` while it runs.
pub mod Listing
pub mod Filling
pub mod Laws
use consul_scheduler.Prelude.{
  ℕ, zero, suc, String, Bool, true, false, ◌&&◌, Option, none, some, List, [], ◌∷◌, if◌then◌else◌,
  Assoc, lookup, insert, delete, values,
}
use consul_scheduler.Api.Types.{
  Cluster, Deployment, Host, Service, TaskDefinition, Task, TaskState, pending, TaskQueryOpts,
}
use consul_scheduler.Api.Results.{
  Error, not_found, Result, ok, err, Outcome, returns, hangs, and_then,
}
use consul_scheduler.Api.Definitions.{task_id}
use consul_scheduler.Api.Backend.{SchedulerApi}
use Prim.Native.String.{◌++◌ as str_append}
use consul_scheduler.Backends.Events.{Listener, Chan, emit_to}
use consul_scheduler.Backends.Query.{passes, passes_state, asks_state}

pub record MockApi : Type 0 where
  pub clusters : Assoc Cluster
  pub services : Assoc Service
  pub task_definitions : Assoc TaskDefinition
  pub deployments : Assoc Deployment
  pub tasks : Assoc Task
  pub hosts : Assoc Host
  pub locks : Assoc Bool
  pub health : Assoc TaskState
  pub listeners : Assoc Listener

abbrev pub new_mock_api : MockApi
new_mock_api = record {
  clusters = [];
  services = [];
  task_definitions = [];
  deployments = [];
  tasks = [];
  hosts = [];
  locks = [];
  health = [];
  listeners = [];
}

-- `c, ok := m[id]; if !ok { return c, api.ErrNotFound }`
unfoldable pub find {ℓ} : {V : Type ℓ} → String → Assoc V → Result V
find id m = elim (lookup id m) [ none ↦ err not_found | some v ↦ ok v ]

unfoldable pub emit : String → MockApi → MockApi
emit evt a = record a { listeners = emit_to (str_append "config::" evt) a.listeners }

unfoldable pub put_cluster : Cluster → MockApi → MockApi × Option Error
unfolding emit
put_cluster c a = (
  emit (str_append "clusters/" c.name) (record a { clusters = insert c.name c a.clusters }),
  none,
)

unfoldable pub del_cluster : String → MockApi → MockApi × Option Error
del_cluster id a = (record a { clusters = delete id a.clusters }, none)

unfoldable pub put_deployment : Deployment → MockApi → MockApi × Option Error
unfolding emit
put_deployment c a = (
  emit (str_append "deploments/" c.name) (record a { deployments = insert c.name c a.deployments }),
  none,
)

unfoldable pub del_deployment : String → MockApi → MockApi × Option Error
del_deployment id a = (record a { deployments = delete id a.deployments }, none)

unfoldable pub put_service : Service → MockApi → MockApi × Option Error
unfolding emit
put_service c a = (
  emit (str_append "services/" c.name) (record a { services = insert c.name c a.services }),
  none,
)

unfoldable pub del_service : String → MockApi → MockApi × Option Error
del_service id a = (record a { services = delete id a.services }, none)

-- The version is not looked at.
unfoldable pub get_task_definition : String → ℕ → MockApi → Result TaskDefinition
unfolding find
get_task_definition id ver a = find id a.task_definitions

unfoldable pub put_task_definition : TaskDefinition → MockApi → MockApi × Option Error
unfolding emit
put_task_definition c a = (
  emit (str_append "task_defintions/" c.name)
      (record a { task_definitions = insert c.name c a.task_definitions }),
  none,
)

unfoldable pub put_host : Host → MockApi → MockApi × Option Error
unfolding emit
put_host c a =
    (emit (str_append "hosts/" c.name) (record a { hosts = insert c.name c a.hosts }), none)

-- The cluster is not looked at, here and in GetHost.
unfoldable pub del_host : String → String → MockApi → MockApi × Option Error
del_host cluster id a = (record a { hosts = delete id a.hosts }, none)

unfoldable pub get_host : String → String → MockApi → Result Host
unfolding find
get_host cluster id a = find id a.hosts

unfoldable pub put_task : Task → MockApi → MockApi × Option Error
unfolding emit
put_task t a = (
  emit (str_append "tasks/" (task_id t)) (record a { tasks = insert (task_id t) t a.tasks }),
  none,
)

unfoldable pub del_task : Task → MockApi → MockApi × Option Error
del_task t a = (record a { tasks = delete (task_id t) a.tasks }, none)

-- `a.lock.Lock()` of a goroutine that holds the lock `readers` times for reading: it waits for
-- itself unless that is 0.
unfoldable pub write_lock : ℕ → Outcome (Unit {0})
write_lock zero = returns tt
write_lock (suc readers) = hangs

-- `a.health[id]`, which is PENDING, the empty text, for a missing key
abbrev pub state_or_pending : Option TaskState → TaskState
state_or_pending none = pending
state_or_pending (some s) = s

unfoldable pub get_task_state : ℕ → Task → MockApi → Outcome TaskState
unfolding write_lock
get_task_state readers t a =
    and_then (write_lock readers) (λ _. returns (state_or_pending (lookup (task_id t) a.health)))

unfoldable pub put_task_state : String → TaskState → MockApi → MockApi × Option Error
put_task_state id s a = (record a { health = insert id s a.health }, none)

-- One task of the loop of ListTasks, which runs under `a.lock.RLock()`.
unfoldable pub admits : TaskQueryOpts → Task → MockApi → Outcome Bool
unfolding asks_state passes passes_state get_task_state
admits q t a =
    if asks_state q
    then and_then (get_task_state 1 t a) (λ s. returns (passes_state q s && passes q t))
    else returns (passes q t)

unfoldable pub list_loop : TaskQueryOpts → List Task → MockApi → Outcome (List Task)
unfolding admits
list_loop q [] a = returns []
list_loop q (t ∷ ts) a =
    and_then (admits q t a)
      (λ b. and_then (list_loop q ts a) (λ rest. returns (if b then t ∷ rest else rest)))

unfoldable pub list_tasks : TaskQueryOpts → MockApi → Outcome (Result (List Task))
unfolding list_loop
list_tasks q a = and_then (list_loop q (values a.tasks) a) (λ ts. returns (ok ts))

unfoldable pub subscribe : String → String → Chan → MockApi → MockApi
subscribe key evt ch a = record a {
  listeners = insert key (record { on = evt; ch = ch }) a.listeners;
}

-- UnSubscribe has an empty body.
unfoldable pub un_subscribe : String → MockApi → MockApi
un_subscribe key a = a

-- mock_locking.go: the lock of a key, its `held` field and the map of locks.
pub record MockLock : Type 0 where
  pub key : String
  pub held : Bool

unfoldable pub lock : MockLock → MockApi → MockApi
lock l a = record a { locks = insert l.key true a.locks }

abbrev or_false : Option Bool → Bool
or_false none = false
or_false (some b) = b

unfoldable pub is_held : MockLock → MockApi → Bool
is_held l a = or_false (lookup l.key a.locks)

unfoldable pub unlock : MockLock → MockApi → MockLock × MockApi
unlock l a = (
  record l { held = false },
  (if or_false (lookup l.key a.locks) then record a { locks = delete l.key a.locks } else a),
)

-- The get of a task state as the interface offers it: nobody holds the lock.
abbrev free_state : Task → MockApi → Result TaskState
free_state t a = ok (state_or_pending (lookup (task_id t) a.health))

unfoldable pub mock_api : SchedulerApi MockApi
unfolding find
mock_api = record {
  missing_is_nil = true;
  host_name = λ a. ok "test";
  list_clusters = λ a. ok (values a.clusters);
  get_cluster = λ id a. find id a.clusters;
  put_cluster = put_cluster;
  del_cluster = del_cluster;
  list_deployments = λ a. ok (values a.deployments);
  get_deployment = λ id a. find id a.deployments;
  put_deployment = put_deployment;
  del_deployment = del_deployment;
  list_task_definitions = λ a. ok (values a.task_definitions);
  get_task_definition = get_task_definition;
  put_task_definition = put_task_definition;
  list_services = λ a. ok (values a.services);
  get_service = λ id a. find id a.services;
  put_service = put_service;
  del_service = del_service;
  list_hosts = λ cluster a. ok (values a.hosts);
  get_host = get_host;
  put_host = put_host;
  del_host = del_host;
  list_tasks = list_tasks;
  get_task = λ id a. find id a.tasks;
  put_task = put_task;
  del_task = del_task;
  get_task_state = free_state;
  put_task_state = put_task_state;
}
