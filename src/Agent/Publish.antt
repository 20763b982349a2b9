-- ===== src/Agent/Publish.antt =====
-- PublishState of agent/agent.go, and the defaults that NewAgent fills in.
use consul_scheduler.Prelude.{
  ℕ, suc, ◌/◌, ℤ, pos, negsuc, ◌-ℤ◌, eqb_ℤ, add64, sub64, false, none, some, List, [], ◌∷◌, ◌++◌,
  if◌then◌else◌, Assoc,
}
use consul_scheduler.Api.Types.{Resources, Host, Task}
use consul_scheduler.Api.Results.{Outcome, returns, panics, and_then}
use consul_scheduler.Api.Definitions.{all_ports, counts}
use consul_scheduler.Api.Backend.{SchedulerApi}
use consul_scheduler.Agent.Executors.{Machine}
use consul_scheduler.Agent.State.{AgentTask, Agent}

-- What the tasks of the agent use: the three sums and the fixed ports.
pub record Used : Type 0 where
  pub memory : ℤ
  pub disk : ℤ
  pub cpu : ℤ
  pub reserved : List ℕ

abbrev pub nothing_used : Used
nothing_used = record { memory = pos 0; disk = pos 0; cpu = pos 0; reserved = [] }

abbrev add_used : Task → Used → Used
add_used t u =
    let c = counts t.task_definition in
    record {
      memory = add64 u.memory c.memory;
      disk = add64 u.disk c.disk_use;
      cpu = add64 u.cpu c.cpu_units;
      reserved = u.reserved ++ all_ports t.task_definition;
    }

-- The loop of PublishState; an entry with no task is a nil pointer.
unfoldable pub sum_used : Assoc AgentTask → Used → Outcome Used
sum_used [] u = returns u
sum_used ((k, e) ∷ m) u = elim e.task [ none ↦ panics | some t ↦ sum_used m (add_used t u) ]

abbrev blank : Resources
blank = record { memory = pos 0; cpu_units = pos 0; disk_space = pos 0 }

module _ {S W : Type 0} (api : SchedulerApi S) (machine : Machine W) where
  unfoldable pub first_state : Agent S W → Host
  first_state a = record {
    name = a.host;
    address = "";
    draining = false;
    reserved_ports = [];
    health_check = a.health_check;
    observed_resources = blank;
    calculated_resources = blank;
    base_resources = a.resources;
    cluster = a.cluster;
    tags = [];
  }

  abbrev last_or_first : Agent S W → Host
  last_or_first a = elim a.last_state [ none ↦ first_state a | some h ↦ h ]

  unfoldable pub host_state : Agent S W → Used → Host
  unfolding first_state
  host_state a u = record (last_or_first a) {
    calculated_resources = record {
      memory = sub64 a.resources.memory u.memory;
      cpu_units = sub64 a.resources.cpu_units u.cpu;
      disk_space = sub64 a.resources.disk_space u.disk;
    };
    reserved_ports = u.reserved;
    observed_resources = machine.observed a.world;
  }

  unfoldable pub publish_state : Agent S W → Outcome (Agent S W)
  unfolding sum_used host_state
  publish_state a = and_then (sum_used a.states nothing_used) (λ u. returns (record a {
    last_state = some (host_state a u);
    store = (api.put_host (host_state a u) a.store).0;
  }))

-- ToMb of agent/helpers.go; Go's division rounds towards 0.
unfoldable pub to_mb : ℤ → ℤ
to_mb (pos n) = pos (n / 1048576)
to_mb (negsuc n) = pos 0 -ℤ pos (suc n / 1048576)

-- A resource that the configuration leaves at 0 is what the machine has.
unfoldable pub default_resources : Resources → Resources → Resources
default_resources conf found = record {
  memory = if eqb_ℤ conf.memory (pos 0) then found.memory else conf.memory;
  cpu_units = if eqb_ℤ conf.cpu_units (pos 0) then found.cpu_units else conf.cpu_units;
  disk_space = if eqb_ℤ conf.disk_space (pos 0) then found.disk_space else conf.disk_space;
}
