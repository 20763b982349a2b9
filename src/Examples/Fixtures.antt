-- ===== src/Examples/Fixtures.antt =====
-- A small cluster: one host, one container with a fixed port, one deployment of two tasks, and the
-- in-memory backend that holds them.
use consul_scheduler.Prelude.{
  ℕ, pos, String, ◌≡◌, sym, ◌∙◌, ◌≢◌, true, false, some, [], ◌∷◌, str_eq, str_eq_iff,
}
use consul_scheduler.Api.Types.{
  Cluster, Deployment, Resources, Host, Service, PortMapping, Container, TaskDefinition, Task,
}
use consul_scheduler.Api.Definitions.{new_task}
use consul_scheduler.Backends.Mock.{MockApi, new_mock_api}
use consul_scheduler.Scheduler.Schedule.{Pass, Scheduler}

pub ne_of : (a b : String) → str_eq a b ≡ false → a ≢ b
ne_of a b f e = false_true (sym f ∙ (str_eq_iff a b).1 e)
  where
    false_true : false ≢ true
    false_true q = cc

abbrev pub roomy : Resources
roomy = record { memory = pos 1000; cpu_units = pos 1000; disk_space = pos 1000 }

abbrev pub host_one : Host
host_one = record {
  name = "one";
  address = "10.0.0.1";
  draining = false;
  reserved_ports = 22 ∷ [];
  health_check = "";
  observed_resources = roomy;
  calculated_resources = roomy;
  base_resources = roomy;
  cluster = "main";
  tags = [];
}

abbrev pub web_port : PortMapping
web_port = record { name = "http"; container = 80; host = 8080 }

abbrev pub web : Container
web = record {
  name = "web";
  kind = "docker";
  executor = "";
  setup = [];
  teardown = [];
  checks = [];
  ports = web_port ∷ [];
  memory = pos 100;
  cpu_units = pos 10;
  disk_use = pos 5;
  essential = true;
}

abbrev pub web_definition : TaskDefinition
web_definition = record {
  name = "web";
  version = 1;
  tags = [];
  containers = web ∷ [];
  grace_period = pos 60;
}

abbrev pub site : Deployment
site = record {
  name = "site";
  scheduler = "";
  task_name = "web";
  task_version = 1;
  desired = pos 2;
  min = pos 1;
  max = pos 3;
  max_attempts = pos 3;
}

abbrev pub main : Cluster
main = record { name = "main"; deployments = "site" ∷ []; hosts = "one" ∷ [] }

abbrev pub web_service : Service
web_service = record {
  name = "web-svc";
  cluster = "main";
  deployment = "site";
  container = "web";
  port_name = "http";
  protocol = "http";
}

abbrev pub site_task : Task
site_task = new_task main web_definition site (pos 0)

abbrev pub placed_task : Task
placed_task = record site_task { host = "one"; scheduled = true }

abbrev pub store : MockApi
store = record new_mock_api {
  clusters = ("main", main) ∷ [];
  deployments = ("site", site) ∷ [];
  task_definitions = ("web", web_definition) ∷ [];
}

abbrev pub store_with_task : MockApi
store_with_task = record store { tasks = ("main-site-1-0", placed_task) ∷ [] }

abbrev pub no_draw : ℕ → ℕ → ℕ
no_draw k n = 1

abbrev pub first_pass : Pass MockApi
first_pass = record {
  hosts = ("one", host_one) ∷ [];
  max_port = [];
  store = store;
  task_map = [];
  removed = pos 0;
  added = pos 0;
  calls = 0;
}

abbrev pub ready_scheduler : Scheduler MockApi
ready_scheduler = record {
  cluster = some main;
  hosts = ("one", host_one) ∷ [];
  max_port = [];
  store = store;
}
