-- ===== src/Examples/Running.antt =====
-- The theorems of the agents at one host's tasks.
use consul_scheduler.Prelude.{
  ◌≤◌, pos, ◌+ℤ◌, ◌≤ℤ◌, ◌≡◌, refl, true, false, Option, none, some, [], ◌∷◌, arith, str_eq, length,
  All, lookup, insert, delete, show, show_ℤ,
}
use consul_scheduler.Api.Types.{Deployment, Check, Task, pending, healthy, is_starting}
use consul_scheduler.Api.Results.{Error, failed, ok}
use consul_scheduler.Api.Definitions.{
  all_ports, ports_of, fixed_ports, any_checks, has_checks, task_name, task_id, new_task,
}
use consul_scheduler.Backends.Mock.{MockApi, mock_api}
use consul_scheduler.Agent.Executors.{Machine}
use consul_scheduler.Agent.State.{Agent, Action, new_entry}
use consul_scheduler.Agent.Sync.{wants_start, busy_port, is_tcp_port_available, try_start, decide}
use consul_scheduler.Agent.Sync.Decisions.{decide-starts, IsDue}
use consul_scheduler.Health.Monitor.{new_monitor, rounds}
use consul_scheduler.Health.Monitor.Statuses.{rounds_status, Judged, trailing}
use consul_scheduler.Health.Monitors.{monitored, sync_monitors, has_task}
use consul_scheduler.Health.Monitors.Tracking.{sync_monitors_listed}
use consul_scheduler.Examples.Fixtures.{roomy, web, web_definition, placed_task, store}

-- A machine on which every command succeeds and every port is free.
pub machine : Machine (Unit {0})
machine = record {
  exec = λ env timeout name args w. (w, none);
  decode_bash = λ s. none;
  decode_docker = λ s. none;
  port_available = λ p w. true;
  observed = λ w. roomy;
}

abbrev pub idle : Agent MockApi (Unit {0})
idle = record {
  host = "one";
  cluster = "main";
  health_check = "";
  resources = roomy;
  last_state = none;
  states = [];
  queue = [];
  store = store;
  world = tt;
}

starts :
    (decide mock_api machine (pos 100) placed_task new_entry pending idle).1
    ≡ some (Action.start placed_task)
unfolding is_tcp_port_available decide try_start wants_start busy_port machine mock_api
    consul_scheduler.Backends.Mock.find lookup str_eq has_checks any_checks healthy is_starting
    all_ports ports_of fixed_ports new_task ◌+ℤ◌
starts = refl

decide-starts_example :
    (placed_task ≡ placed_task)
    × IsDue mock_api machine placed_task new_entry pending
    × ((d : Deployment) × (mock_api.get_deployment placed_task.deployment store ≡ ok d)
        × (pos 0 ≤ℤ d.max_attempts))
    × (new_entry.started_at +ℤ placed_task.task_definition.grace_period ≤ℤ pos 100)
    × All (λ p. is_tcp_port_available machine p tt ≡ true) (all_ports placed_task.task_definition)
decide-starts_example =
    decide-starts mock_api machine (pos 100) placed_task new_entry pending idle placed_task starts

-- A task with a health check.
abbrev ping : Check
ping = record {
  id = "ping";
  name = "ping";
  http = "";
  tcp = "";
  script = "true";
  interval = pos 30;
  timeout = pos 5;
  docker = "";
}

abbrev checked_task : Task
checked_task = record placed_task {
  task_definition = record web_definition { containers = record web { checks = ping ∷ [] } ∷ [] };
}

abbrev failed_check : Option Error
failed_check = some (failed "exit status 1")

rounds_status_example :
    Judged mock_api
      (trailing 0 (none ∷ failed_check ∷ failed_check ∷ []))
      (rounds mock_api
        (none ∷ failed_check ∷ failed_check ∷ [])
        (new_monitor (monitored checked_task ping), store)).0
rounds_status_example =
    rounds_status mock_api (monitored checked_task ping) none (failed_check ∷ failed_check ∷ [])
      store (omega arith)

watched :
    lookup "ping" (sync_monitors (checked_task ∷ []) [])
    ≡ some (new_monitor (monitored checked_task ping))
unfolding lookup sync_monitors consul_scheduler.Health.Monitors.add_tasks
    consul_scheduler.Health.Monitors.add_containers consul_scheduler.Health.Monitors.add_checks
    consul_scheduler.Health.Monitors.add_check consul_scheduler.Health.Monitors.collect has_task
    insert delete str_eq task_id task_name new_task show consul_scheduler.Prelude.show_fuel show_ℤ
    new_monitor
watched = refl

sync_monitors_listed_example : has_task (task_id checked_task) (checked_task ∷ []) ≡ true
unfolding new_monitor
sync_monitors_listed_example =
    sync_monitors_listed (checked_task ∷ []) [] "ping" (new_monitor (monitored checked_task ping))
      watched
