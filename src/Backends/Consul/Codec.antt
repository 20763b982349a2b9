-- ===== src/Backends/Consul/Codec.antt =====
-- What Consul stores: backends/encoding.go, and the texts of the task states.
use consul_scheduler.Prelude.{
  ℤ, pos, pos_part, String, false, none, some, List, [], ◌∷◌, Assoc, lookup, if◌then◌else◌, str_eq,
}
use consul_scheduler.Api.Types.{
  Cluster, Deployment, Resources, Host, Service, TaskDefinition, Task, TaskState, pending, starting,
  started, running, warning, failing, stopping, stopped, exited, other,
}

-- A JSON value of a field of a cluster, a deployment or a service: a string, a number, or an array
-- of strings.
pub data Json : Type 0 where
  text : String → Json
  number : ℤ → Json
  texts : List String → Json

-- A value of the store: the JSON object of a struct, by its keys, or the text of a task's state. The
-- objects of hosts, task definitions and tasks are kept whole.
pub data Blob : Type 0 where
  object : Assoc Json → Blob
  host_blob : Host → Blob
  definition_blob : TaskDefinition → Blob
  task_blob : Task → Blob
  text_blob : String → Blob

-- What json.Unmarshal sets a field to that has the tag: without the key the field has no value set. A
-- value of another kind, for which Decode panics, is not written under the keys of the struct.
unfoldable pub text_at : String → Assoc Json → String
unfolding lookup
text_at tag o = elim (lookup tag o) [
  | none ↦ ""
  | some j ↦ elim j [ text s ↦ s | number i ↦ "" | texts ss ↦ "" ]
]

unfoldable pub number_at : String → Assoc Json → ℤ
unfolding lookup
number_at tag o = elim (lookup tag o) [
  | none ↦ pos 0
  | some j ↦ elim j [ text s ↦ pos 0 | number i ↦ i | texts ss ↦ pos 0 ]
]

unfoldable pub texts_at : String → Assoc Json → List String
unfolding lookup
texts_at tag o = elim (lookup tag o) [
  | none ↦ []
  | some j ↦ elim j [ text s ↦ [] | number i ↦ [] | texts ss ↦ ss ]
]

-- The keys and values of a stored object.
abbrev fields : Blob → Assoc Json
fields (object o) = o
fields b = []

-- backends.Encode and backends.Decode of a struct of api/, with the tags of its fields.
unfoldable pub encode_cluster : Cluster → Blob
encode_cluster c =
    object
      (("name", text c.name) ∷ ("deployments", texts c.deployments) ∷ ("hosts", texts c.hosts) ∷ [])

unfoldable pub decode_cluster : Blob → Cluster
unfolding text_at texts_at
decode_cluster b = record {
  name = text_at "name" (fields b);
  deployments = texts_at "deployments" (fields b);
  hosts = texts_at "hosts" (fields b);
}

unfoldable pub encode_deployment : Deployment → Blob
encode_deployment d = object (
    ("name", text d.name)
    ∷ ("scheduler", text d.scheduler)
    ∷ ("task_name", text d.task_name)
    ∷ ("task_version", number (pos d.task_version))
    ∷ ("desired", number d.desired)
    ∷ ("min", number d.min)
    ∷ ("max", number d.max)
    ∷ ("max_attempts", number d.max_attempts)
    ∷ [])

unfoldable pub decode_deployment : Blob → Deployment
unfolding text_at number_at
decode_deployment b = record {
  name = text_at "name" (fields b);
  scheduler = text_at "scheduler" (fields b);
  task_name = text_at "task_name" (fields b);
  task_version = pos_part (number_at "task_version" (fields b));
  desired = number_at "desired" (fields b);
  min = number_at "min" (fields b);
  max = number_at "max" (fields b);
  max_attempts = number_at "max_attempts" (fields b);
}

unfoldable pub encode_service : Service → Blob
encode_service v = object (
    ("name", text v.name)
    ∷ ("cluster", text v.cluster)
    ∷ ("deployment", text v.deployment)
    ∷ ("container", text v.container)
    ∷ ("port_name", text v.port_name)
    ∷ ("protocol", text v.protocol)
    ∷ [])

unfoldable pub decode_service : Blob → Service
unfolding text_at
decode_service b = record {
  name = text_at "name" (fields b);
  cluster = text_at "cluster" (fields b);
  deployment = text_at "deployment" (fields b);
  container = text_at "container" (fields b);
  port_name = text_at "port_name" (fields b);
  protocol = text_at "protocol" (fields b);
}

abbrev pub no_resources : Resources
no_resources = record { memory = pos 0; cpu_units = pos 0; disk_space = pos 0 }

abbrev pub decode_host : Blob → Host
decode_host (host_blob h) = h
decode_host b = record {
  name = "";
  address = "";
  draining = false;
  reserved_ports = [];
  health_check = "";
  observed_resources = no_resources;
  calculated_resources = no_resources;
  base_resources = no_resources;
  cluster = "";
  tags = [];
}

abbrev pub no_definition : TaskDefinition
no_definition = record { name = ""; version = 0; tags = []; containers = []; grace_period = pos 0 }

abbrev pub decode_definition : Blob → TaskDefinition
decode_definition (definition_blob t) = t
decode_definition b = no_definition

abbrev pub decode_task : Blob → Task
decode_task (task_blob t) = t
decode_task b = record {
  cluster = "";
  task_definition = no_definition;
  deployment = "";
  instance_no = pos 0;
  host = "";
  scheduled = false;
  rejected = false;
  reject_reason = "";
  provided_ports = [];
}

abbrev pub decode_text : Blob → String
decode_text (text_blob s) = s
decode_text b = ""

-- string(stateStr.Value) read as a TaskState
unfoldable pub state_of_text : String → TaskState
state_of_text s =
    if str_eq s ""
    then pending
    else if str_eq s "starting"
    then starting
    else if str_eq s "started"
    then started
    else if str_eq s "running"
    then running
    else if str_eq s "warning"
    then warning
    else if str_eq s "failing"
    then failing
    else if str_eq s "stopping"
    then stopping
    else if str_eq s "stopped"
    then stopped
    else if str_eq s "exited"
    then exited
    else other s

-- []byte(s)
unfoldable pub text_of_state : TaskState → String
text_of_state pending = ""
text_of_state starting = "starting"
text_of_state started = "started"
text_of_state running = "running"
text_of_state warning = "warning"
text_of_state failing = "failing"
text_of_state stopping = "stopping"
text_of_state stopped = "stopped"
text_of_state exited = "exited"
text_of_state (other s) = s
