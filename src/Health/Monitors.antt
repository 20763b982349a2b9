-- ===== src/Health/Monitors.antt =====
-- sync of health/agent.go: a monitor for each check of the host's tasks.
pub mod Tracking
use consul_scheduler.Prelude.{
  String, Bool, true, false, Option, none, some, List, [], ◌∷◌, if◌then◌else◌, str_eq, Assoc,
  lookup, insert, delete,
}
use consul_scheduler.Api.Types.{Check, Container, Task, any_task}
use consul_scheduler.Api.Results.{Error, ok, err, Outcome, returns, and_then}
use consul_scheduler.Api.Definitions.{task_id}
use consul_scheduler.Api.Backend.{SchedulerApi}
use consul_scheduler.Health.Monitor.{HealthCheck, Monitor, new_monitor}

abbrev pub monitored : Task → Check → HealthCheck
monitored t c = record {
  task_id = task_id t;
  tcp = c.tcp;
  http = c.http;
  script = c.script;
  docker = c.docker;
  docker_id = "";
  timeout = c.timeout;
  interval = c.interval;
}

-- if _, ok := h.State[c.ID]; !ok { h.State[c.ID] = NewMonitor(...) }
unfoldable pub add_check : Task → Check → Assoc Monitor → Assoc Monitor
unfolding new_monitor
add_check t c m = elim (lookup c.id m) [
  | some x ↦ m
  | none ↦ insert c.id (new_monitor (monitored t c)) m
]

unfoldable pub add_checks : Task → List Check → Assoc Monitor → Assoc Monitor
unfolding add_check
add_checks t [] m = m
add_checks t (c ∷ cs) m = add_checks t cs (add_check t c m)

unfoldable pub add_containers : Task → List Container → Assoc Monitor → Assoc Monitor
unfolding add_checks
add_containers t [] m = m
add_containers t (c ∷ cs) m = add_containers t cs (add_checks t c.checks m)

unfoldable pub add_tasks : List Task → Assoc Monitor → Assoc Monitor
unfolding add_containers
add_tasks [] m = m
add_tasks (t ∷ ts) m = add_tasks ts (add_containers t t.task_definition.containers m)

unfoldable pub has_task : String → List Task → Bool
has_task id [] = false
has_task id (t ∷ ts) = if str_eq (task_id t) id then true else has_task id ts

-- The garbage collection: delete(h.State, key) where no task has the monitor's id.
unfoldable pub collect : List Task → Assoc Monitor → Assoc Monitor → Assoc Monitor
unfolding has_task
collect tasks [] m = m
collect tasks ((key, x) ∷ rest) m =
    collect tasks rest (if has_task (x.check).task_id tasks then m else delete key m)

unfoldable pub sync_monitors : List Task → Assoc Monitor → Assoc Monitor
unfolding add_tasks collect
sync_monitors tasks m = let m' = add_tasks tasks m in collect tasks m' m'

module _ {S : Type 0} (api : SchedulerApi S) where
  unfoldable pub sync : String → S → Assoc Monitor → Outcome (Assoc Monitor × Option Error)
  unfolding sync_monitors
  sync host s m =
      and_then (api.list_tasks (record any_task { by_host = host }) s)
        (elim [ err e ↦ returns (m, some e) | ok tasks ↦ returns (sync_monitors tasks m, none) ])
