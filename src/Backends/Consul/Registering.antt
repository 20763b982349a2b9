-- ===== src/Backends/Consul/Registering.antt =====
-- What PutHost, PutTask and DelTask write, with the registrations at the Consul agent.
use consul_scheduler.Prelude.{
  ◌+◌, String, true, not, Option, none, some, List, [], ◌∷◌, ◌++◌, map, if◌then◌else◌, str_eq, show,
}
use consul_scheduler.Api.Types.{Host, PortMapping, Check, Container, Task}
use consul_scheduler.Api.Results.{Error}
use consul_scheduler.Api.Definitions.{ports_for_task, task_name, task_id}
use Prim.Native.String.{◌++◌ as str_append, slice, len}
use text.Mathlib.Text.{find?}
use consul_scheduler.Backends.Consul.Codec.{host_blob, task_blob}
use consul_scheduler.Backends.Consul.Store.{
  ServiceCheck, ConsulClient, ConsulApi, put, del, host_key, task_key,
}

-- strings.Replace(s, old, new, 1)
unfoldable pub replace_first : String → String → String → String
replace_first s old new = elim (find? s old) [
  | none ↦ s
  | some i ↦ str_append (slice s 0 i) (str_append new (slice s (i + len old) (len s)))
]

-- HTTPWithPort and TCPWithPort of api/task_definition.go on the text of the check
unfoldable pub with_ports : List PortMapping → String → String
unfolding replace_first
with_ports [] u = u
with_ports (p ∷ ps) u = with_ports ps (replace_first u (str_append "$" p.name) (show p.host))

unfoldable pub http_with_port : Check → Task → Container → String
unfolding with_ports
http_with_port ch t c = with_ports (ports_for_task c t) ch.http

unfoldable pub tcp_with_port : Check → Task → Container → String
unfolding with_ports
tcp_with_port ch t c = with_ports (ports_for_task c t) ch.tcp

module _ {K : Type 0} (client : ConsulClient K) where
  -- PutHost: the first successful write also registers the agent's service.
  unfoldable pub put_host : Host → ConsulApi K → ConsulApi K × Option Error
  unfolding put
  put_host h a =
      let (a1, e) = put client (host_key h.cluster h.name) (host_blob h) a in
      elim e [
        | some x ↦ (a1, some x)
        | none ↦
            if a1.registered
            then (a1, none)
            else let (k, e') =
                client.service_register
                  (record {
                    id = str_append "sked-" h.name;
                    name = "sked";
                    tags = [];
                    address = "";
                    checks =
                        record {
                          interval = "30s";
                          script = "";
                          timeout = "";
                          tcp = "";
                          http = h.health_check;
                          docker_container_id = "";
                        }
                        ∷ [];
                  })
                  a1.store in
              elim e' [
                | some x ↦ (record a1 { store = k }, some x)
                | none ↦ (record a1 { store = k; registered = true }, none)
              ]
      ]

  -- The check that register makes of a health check.
  unfoldable pub consul_check : Task → Container → Check → ServiceCheck
  unfolding http_with_port tcp_with_port
  consul_check t c check =
      let docker = not (str_eq check.docker "") in
      record {
        interval = client.print_seconds check.interval;
        script = if docker then check.docker else check.script;
        timeout = client.print_seconds check.timeout;
        tcp = tcp_with_port check t c;
        http = http_with_port check t c;
        docker_container_id = if docker then task_id t else "";
      }

  unfoldable pub consul_checks : Task → List Container → List ServiceCheck
  unfolding consul_check
  consul_checks t [] = []
  consul_checks t (c ∷ cs) = map (consul_check t c) c.checks ++ consul_checks t cs

  unfoldable pub register : Task → ConsulApi K → ConsulApi K × Option Error
  unfolding consul_checks
  register t a =
      let (k, e) =
        client.service_register
          (record {
            id = str_append "task-" (task_id t);
            name = str_append "task-" (task_name t);
            tags = t.task_definition.tags ++ t.cluster ∷ t.deployment ∷ [];
            address = t.host;
            checks = consul_checks t t.task_definition.containers;
          })
          a.store in
      (record a { store = k }, e)

  -- The error of register is only logged.
  unfoldable pub put_task : Task → ConsulApi K → ConsulApi K × Option Error
  unfolding register put
  put_task t a = put client (task_key (task_id t)) (task_blob t) (register t a).0

  unfoldable pub de_register : String → ConsulApi K → ConsulApi K
  de_register id a = record a {
    store = (client.service_deregister (str_append "task-" id) a.store).0;
  }

  unfoldable pub del_task : Task → ConsulApi K → ConsulApi K × Option Error
  unfolding de_register del
  del_task t a = del client (task_key (task_id t)) (de_register (task_id t) a)
