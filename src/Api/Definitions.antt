-- ===== src/Api/Definitions.antt =====
-- The methods of api/task_definition.go and api/task.go.
use Prim.Native.String.{◌++◌ as str_append}
use consul_scheduler.Prelude.{
  ℕ, ℤ, pos, String, Bool, true, false, List, [], ◌∷◌, ◌++◌, lookup, Option, none, some,
  if◌then◌else◌, ◌==◌, str_eq, add64, show, show_ℤ,
}
use consul_scheduler.Api.Types.{
  Cluster, Deployment, PortMapping, Container, TaskDefinition, Counts, Task,
}

-- the inner loop of AllPorts
unfoldable pub fixed_ports : List PortMapping → List ℕ
fixed_ports [] = []
fixed_ports (p ∷ ps) = let rest = fixed_ports ps in if p.host == 0 then rest else p.host ∷ rest

unfoldable pub ports_of : List Container → List ℕ
unfolding fixed_ports
ports_of [] = []
ports_of (c ∷ cs) = fixed_ports c.ports ++ ports_of cs

unfoldable pub all_ports : TaskDefinition → List ℕ
unfolding ports_of
all_ports t = ports_of t.containers

-- The loop of Counts, with its three running sums.
unfoldable pub add_counts : Counts → List Container → Counts
add_counts counts [] = counts
add_counts counts (c ∷ cs) =
    add_counts
      (record {
        memory = add64 counts.memory c.memory;
        cpu_units = add64 counts.cpu_units c.cpu_units;
        disk_use = add64 counts.disk_use c.disk_use;
      })
      cs

abbrev pub no_counts : Counts
no_counts = record { memory = pos 0; cpu_units = pos 0; disk_use = pos 0 }

unfoldable pub counts : TaskDefinition → Counts
unfolding add_counts
counts t = add_counts no_counts t.containers

-- `m[k]` of a map of numbers: 0 for a key that is not there
abbrev pub or_zero : Option ℕ → ℕ
or_zero none = 0
or_zero (some n) = n

unfoldable pub host_port : Task → PortMapping → ℕ
host_port t p = if p.host == 0 then or_zero (lookup p.name t.provided_ports) else p.host

unfoldable pub mappings : Task → List PortMapping → List PortMapping
unfolding host_port
mappings t [] = []
mappings t (p ∷ ps) = record p { host = host_port t p } ∷ mappings t ps

unfoldable pub ports_for_task : Container → Task → List PortMapping
unfolding mappings
ports_for_task c t = mappings t c.ports

unfoldable pub port_named : String → List PortMapping → ℕ
port_named name [] = 0
port_named name (p ∷ ps) = if str_eq p.name name then p.host else port_named name ps

unfoldable pub host_port_by_name : String → Container → Task → ℕ
unfolding port_named ports_for_task
host_port_by_name name c t = port_named name (ports_for_task c t)

unfoldable pub any_checks : List Container → Bool
any_checks [] = false
any_checks (c ∷ cs) = elim c.checks [ [] ↦ any_checks cs | _ ↦ true ]

unfoldable pub has_checks : Task → Bool
unfolding any_checks
has_checks t = any_checks t.task_definition.containers

-- Sprintf("%s-%s", Cluster, Deployment)
unfoldable pub task_name : Task → String
task_name t = str_append t.cluster (str_append "-" t.deployment)

-- Sprintf("%s-%v-%v", Name(), Version, Instance)
unfoldable pub task_id : Task → String
unfolding task_name
task_id t = str_append (task_name t) (
    str_append "-"
      (str_append (show t.task_definition.version) (str_append "-" (show_ℤ t.instance_no))))

-- Sprintf("%s-%s-%v-%v", c.Name, s.Name, s.TaskVersion, i)
unfoldable pub make_task_id : Cluster → Deployment → ℤ → String
make_task_id c d i = str_append c.name (
    str_append "-" (
      str_append d.name
        (str_append "-" (str_append (show d.task_version) (str_append "-" (show_ℤ i))))))

unfoldable pub new_task : Cluster → TaskDefinition → Deployment → ℤ → Task
new_task c def d i = record {
  cluster = c.name;
  task_definition = def;
  deployment = d.name;
  instance_no = i;
  host = "";
  scheduled = false;
  rejected = false;
  reject_reason = "";
  provided_ports = [];
}
