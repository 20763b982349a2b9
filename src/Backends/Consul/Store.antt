-- ===== src/Backends/Consul/Store.antt =====
-- The Consul client, which is not part of this repository, over the states `K` of the Consul
-- cluster; the keys; and put, get, del and list of backends/consul/consul_api.go.
use consul_scheduler.Prelude.{ℕ, String, Bool, Option, none, some, List, map, Assoc, show}
use consul_scheduler.Api.Types.{Duration}
use consul_scheduler.Api.Results.{Error, not_found, Result, ok, err, ◌>>=◌}
use Prim.Native.String.{◌++◌ as str_append}
use consul_scheduler.Backends.Events.{Listener}
use consul_scheduler.Backends.Consul.Codec.{Blob}

-- consul.AgentServiceCheck
pub record ServiceCheck : Type 0 where
  pub interval : String
  pub script : String
  pub timeout : String
  pub tcp : String
  pub http : String
  pub docker_container_id : String

-- consul.AgentServiceRegistration
pub record Registration : Type 0 where
  pub id : String
  pub name : String
  pub tags : List String
  pub address : String
  pub checks : List ServiceCheck

-- consul.HealthCheck
pub record HealthCheck : Type 0 where
  pub service_id : String
  pub status : String

-- The calls of the Consul client. `kv_get` gives none for a key that is not there.
pub record ConsulClient (K : Type 0) : Type 0 where
  pub node_name : K → Result String
  pub kv_get : String → K → Result (Option Blob)
  pub kv_put : String → Blob → K → K × Option Error
  pub kv_delete : String → K → K × Option Error
  pub kv_list : String → K → Result (List Blob)
  pub service_register : Registration → K → K × Option Error
  pub service_deregister : String → K → K × Option Error
  pub health_checks : String → K → Result (List HealthCheck)
  -- Sprintf("%vs", d.Seconds()), which prints a float
  pub print_seconds : Duration → String

pub record ConsulApi (K : Type 0) : Type 0 where
  pub prefix : String
  pub registered : Bool
  pub listeners : Assoc Listener
  pub store : K

-- the key under the prefix of the backend
abbrev pub under : {K : Type 0} → ConsulApi K → String → String
under a key = str_append a.prefix (str_append "/" key)

abbrev pub cluster_key : String → String
cluster_key id = str_append "config/clusters/" id

abbrev pub deployment_key : String → String
deployment_key id = str_append "config/deployments/" id

abbrev pub service_key : String → String
service_key id = str_append "config/services/" id

abbrev pub host_key : String → String → String
host_key cluster name = str_append "hosts/" (str_append cluster (str_append "/" name))

-- Sprintf("%s%s/%d", "config/task_definitions/", name, version)
abbrev pub definition_key : String → ℕ → String
definition_key name version =
    str_append "config/task_definitions/" (str_append name (str_append "/" (show version)))

abbrev pub task_key : String → String
task_key id = str_append "state/tasks/" id

abbrev pub health_key : String → String
health_key id = str_append "state/health/" id

module _ {K : Type 0} (client : ConsulClient K) where
  unfoldable pub put : String → Blob → ConsulApi K → ConsulApi K × Option Error
  put key value a =
      let (k, e) = client.kv_put (under a key) value a.store in (record a { store = k }, e)

  unfoldable pub del : String → ConsulApi K → ConsulApi K × Option Error
  del key a = let (k, e) = client.kv_delete (under a key) a.store in (record a { store = k }, e)

  unfoldable pub get : String → ConsulApi K → Result Blob
  get key a = elim (client.kv_get (under a key) a.store) [
    | err e ↦ err not_found
    | ok none ↦ err not_found
    | ok (some b) ↦ ok b
  ]

  unfoldable pub list : String → ConsulApi K → Result (List Blob)
  list prefix a = client.kv_list (under a prefix) a.store

  -- `kv, err := a.get(key)` and the decoding
  abbrev pub read : {A : Type 0} → (Blob → A) → String → ConsulApi K → Result A
  read decode key a = do b ← get key a; ok (decode b)

  abbrev pub read_all : {A : Type 0} → (Blob → A) → String → ConsulApi K → Result (List A)
  read_all decode prefix a = do bs ← list prefix a; ok (map decode bs)
