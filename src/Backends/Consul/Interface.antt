-- ===== src/Backends/Consul/Interface.antt =====
-- Subscriptions, and the backend as an implementation of SchedulerApi.
use consul_scheduler.Prelude.{String, false, insert, delete}
use consul_scheduler.Api.Results.{returns}
use consul_scheduler.Api.Backend.{SchedulerApi}
use Prim.Native.String.{◌++◌ as str_append}
use consul_scheduler.Backends.Events.{Chan}
use consul_scheduler.Backends.Consul.Codec.{
  encode_cluster, encode_deployment, encode_service, definition_blob, decode_cluster,
  decode_deployment, decode_service, decode_host, decode_definition, decode_task,
}
use consul_scheduler.Backends.Consul.Store.{
  ConsulClient, ConsulApi, put, del, get, list, read, read_all, cluster_key, deployment_key,
  service_key, host_key, definition_key, task_key,
}
use consul_scheduler.Backends.Consul.Registering.{put_host, put_task, del_task}
use consul_scheduler.Backends.Consul.States.{get_task_state, put_task_state, list_tasks}

unfoldable pub subscribe : {K : Type 0} → String → String → Chan → ConsulApi K → ConsulApi K
subscribe key on ch a = record a {
  listeners = insert key (record { on = on; ch = ch }) a.listeners;
}

unfoldable pub un_subscribe : {K : Type 0} → String → ConsulApi K → ConsulApi K
un_subscribe key a = record a { listeners = delete key a.listeners }

module _ {K : Type 0} (client : ConsulClient K) where
  unfoldable pub consul_api : SchedulerApi (ConsulApi K)
  unfolding get list put del encode_cluster encode_deployment encode_service decode_cluster
      decode_deployment decode_service
  consul_api = record {
    missing_is_nil = false;
    host_name = λ a. client.node_name a.store;
    list_clusters = read_all client decode_cluster "config/clusters";
    get_cluster = λ id. read client decode_cluster (cluster_key id);
    put_cluster = λ c. put client (cluster_key c.name) (encode_cluster c);
    del_cluster = λ id. del client (cluster_key id);
    list_deployments = read_all client decode_deployment "config/deployments";
    get_deployment = λ id. read client decode_deployment (deployment_key id);
    put_deployment = λ d. put client (deployment_key d.name) (encode_deployment d);
    del_deployment = λ id. del client (deployment_key id);
    list_task_definitions = read_all client decode_definition "config/task_definitions/";
    get_task_definition =
        λ name version. read client decode_definition (definition_key name version);
    put_task_definition = λ t. put client (definition_key t.name t.version) (definition_blob t);
    list_services = read_all client decode_service "config/services";
    get_service = λ id. read client decode_service (service_key id);
    put_service = λ s. put client (service_key s.name) (encode_service s);
    del_service = λ id. del client (service_key id);
    list_hosts = λ cluster. read_all client decode_host (str_append "hosts/" cluster);
    get_host = λ cluster name. read client decode_host (host_key cluster name);
    put_host = put_host client;
    del_host = λ cluster name. del client (host_key cluster name);
    list_tasks = λ q a. returns (list_tasks client q a);
    get_task = λ id. read client decode_task (task_key id);
    put_task = put_task client;
    del_task = del_task client;
    get_task_state = get_task_state client;
    put_task_state = put_task_state client;
  }
