-- ===== src/Api/Types.antt =====
-- The data model of api/: cluster.go, deployment.go, host.go, service.go, state.go, task.go,
-- task_definition.go and generic_api.go. `uint` is ℕ, `int` and `int64` are ℤ in 64 bits, a
-- duration is its nanoseconds. `Resources.MemUsePercent`, which no code reads, is left out, and so
-- are the two executor caches of a container.
use consul_scheduler.Prelude.{ℕ, ℤ, String, Bool, true, false, List, Assoc, eqb_ℤ, pos}

-- tools.Duration
abbrev pub Duration : Type 0
Duration = ℤ

unfoldable pub is_none : Duration → Bool
is_none d = eqb_ℤ d (pos 0)

pub record Cluster : Type 0 where
  pub name : String
  pub deployments : List String
  pub hosts : List String

pub record Deployment : Type 0 where
  pub name : String
  pub scheduler : String
  pub task_name : String
  pub task_version : ℕ
  pub desired : ℤ
  pub min : ℤ
  pub max : ℤ
  pub max_attempts : ℤ

pub record Resources : Type 0 where
  pub memory : ℤ
  pub cpu_units : ℤ
  pub disk_space : ℤ

pub record Host : Type 0 where
  pub name : String
  pub address : String
  pub draining : Bool
  pub reserved_ports : List ℕ
  pub health_check : String
  pub observed_resources : Resources
  pub calculated_resources : Resources
  pub base_resources : Resources
  pub cluster : String
  pub tags : Assoc String

pub record Service : Type 0 where
  pub name : String
  pub cluster : String
  pub deployment : String
  pub container : String
  pub port_name : String
  pub protocol : String

pub record Endpoint : Type 0 where
  pub service : String
  pub host : String
  pub port : ℕ
  pub protocol : String

pub record PortMapping : Type 0 where
  pub name : String
  pub container : ℕ
  pub host : ℕ

pub record Check : Type 0 where
  pub id : String
  pub name : String
  pub http : String
  pub tcp : String
  pub script : String
  pub interval : Duration
  pub timeout : Duration
  pub docker : String

pub record Container : Type 0 where
  pub name : String
  pub kind : String
  pub executor : String
  pub setup : List String
  pub teardown : List String
  pub checks : List Check
  pub ports : List PortMapping
  pub memory : ℤ
  pub cpu_units : ℤ
  pub disk_use : ℤ
  pub essential : Bool

pub record TaskDefinition : Type 0 where
  pub name : String
  pub version : ℕ
  pub tags : List String
  pub containers : List Container
  pub grace_period : Duration

pub record Counts : Type 0 where
  pub memory : ℤ
  pub cpu_units : ℤ
  pub disk_use : ℤ

pub record Task : Type 0 where
  pub cluster : String
  pub task_definition : TaskDefinition
  pub deployment : String
  pub instance_no : ℤ
  pub host : String
  pub scheduled : Bool
  pub rejected : Bool
  pub reject_reason : String
  pub provided_ports : Assoc ℕ

-- The constants of state.go; a stored text that is none of them is kept as it is.
pub data TaskState : Type 0 where
  pending starting started running warning failing stopping stopped exited : TaskState
  other : String → TaskState

unfoldable pub healthy : TaskState → Bool
healthy running = true
healthy started = true
healthy _ = false

-- `state == STARTING`
unfoldable pub is_starting : TaskState → Bool
is_starting starting = true
is_starting _ = false

pub record TaskQueryOpts : Type 0 where
  pub by_cluster : String
  pub by_deployment : String
  pub by_host : String
  pub wants_running : Bool
  pub wants_scheduled : Bool
  pub wants_failing : Bool
  pub wants_rejected : Bool

-- The query with no field set.
abbrev pub any_task : TaskQueryOpts
any_task = record {
  by_cluster = "";
  by_deployment = "";
  by_host = "";
  wants_running = false;
  wants_scheduled = false;
  wants_failing = false;
  wants_rejected = false;
}
