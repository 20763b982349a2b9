-- ===== src/Discovery.antt =====
-- discovery/discovery.go: the endpoints of a service, and the agent that keeps them up to date.
pub mod Polling
pub mod Silent
use consul_scheduler.Prelude.{
  ℕ, zero, suc, ℤ, pos, add64, String, Bool, true, false, Option, none, some, List, [], ◌∷◌, ◌++◌,
  ◌==◌, if◌then◌else◌, str_eq, length, Assoc, lookup, insert, show,
}
use consul_scheduler.Api.Types.{Host, Service, Endpoint, Container, Task, TaskQueryOpts, any_task}
use consul_scheduler.Api.Results.{Error, Result, ok, err, ◌>>=◌, Outcome, returns, hangs, and_then}
use consul_scheduler.Api.Definitions.{host_port_by_name}
use consul_scheduler.Api.Backend.{SchedulerApi}
use Prim.Native.String.{◌++◌ as str_append}
use consul_scheduler.Backends.Events.{Chan}

-- The body of the inner loop of endpoints: the first container of the service's name.
unfoldable pub container_endpoint : Service → Task → Host → List Container → List Endpoint
container_endpoint v t h [] = []
container_endpoint v t h (c ∷ cs) =
    if str_eq c.name v.name
    then (let port = host_port_by_name v.port_name c t in
        record {
          service = v.name;
          host = h.address;
          port = if port == 0 then 80 else port;
          protocol = v.protocol;
        }
        ∷ [])
    else container_endpoint v t h cs

-- Sprintf("%s://%s:%s", Protocol, Host, Port), where %s of a number prints %!s(uint=...)
unfoldable pub address : Endpoint → String
address e = str_append e.protocol (
    str_append "://"
      (str_append e.host (str_append ":" (str_append "%!s(uint=" (str_append (show e.port) ")")))))

unfoldable pub has_address : String → List Endpoint → Bool
unfolding address
has_address a [] = false
has_address a (e ∷ es) = if str_eq a (address e) then true else has_address a es

-- Whether some new endpoint has an address that no old one has.
unfoldable pub any_new : List Endpoint → List Endpoint → Bool
unfolding has_address
any_new old [] = false
any_new old (e ∷ es) = if has_address (address e) old then any_new old es else true

-- Whether sync stores the new endpoints: there were none, their number differs, or one is new.
unfoldable pub changed : Option (List Endpoint) → List Endpoint → Bool
unfolding any_new
changed none new = true
changed (some old) new = if length old == length new then any_new old new else true

pub record DiscoveryAgent : Type 0 where
  pub services : Assoc (List Endpoint)
  pub change_idx : Assoc ℤ
  pub managing : List String
  -- the channels of the calls of Listen, by their random ids
  pub subs : Assoc Chan
  -- the receivers that wait on `changes`, which has no buffer
  pub receivers : ℕ

-- New
abbrev pub new_agent : List String → DiscoveryAgent
new_agent managing = record {
  services = [];
  change_idx = [];
  managing = managing;
  subs = [];
  receivers = 0;
}

abbrev pub index_of : Option ℤ → ℤ
index_of none = pos 0
index_of (some i) = i

-- `ag.changes <- name`, an unbuffered send
unfoldable pub announce : DiscoveryAgent → Outcome DiscoveryAgent
announce ag = elim ag.receivers [ zero ↦ hangs | suc n ↦ returns (record ag { receivers = n }) ]

-- ag.Services[name] = endpoints; ag.changes <- name; ag.ChangeIdx[name] += 1
unfoldable pub store_endpoints : String → List Endpoint → DiscoveryAgent → Outcome DiscoveryAgent
unfolding announce
store_endpoints name new ag =
    and_then (announce (record ag { services = insert name new ag.services })) (λ ag'.
      returns (record ag' {
        change_idx =
            insert name (add64 (index_of (lookup name ag'.change_idx)) (pos 1)) ag'.change_idx;
      }))

module _ {S : Type 0} (api : SchedulerApi S) where
  unfoldable pub endpoints_loop : Service → List Task → S → Result (List Endpoint)
  unfolding container_endpoint
  endpoints_loop v [] s = ok []
  endpoints_loop v (t ∷ ts) s = do
    h ← api.get_host t.cluster t.host s
    rest ← endpoints_loop v ts s
    ok (container_endpoint v t h t.task_definition.containers ++ rest)

  abbrev pub running_of : Service → TaskQueryOpts
  running_of v = record any_task {
    wants_running = true;
    by_deployment = v.deployment;
    by_cluster = v.cluster;
  }

  unfoldable pub endpoints : String → S → Outcome (Result (List Endpoint))
  unfolding endpoints_loop
  endpoints id s = elim (api.get_service id s) [
    | err e ↦ returns (err e)
    | ok v ↦
        and_then (api.list_tasks (running_of v) s)
          (elim [ err e ↦ returns (err e) | ok ts ↦ returns (endpoints_loop v ts s) ])
  ]

  -- The managed services that can be read.
  unfoldable pub managed : List String → S → List Service
  managed [] s = []
  managed (n ∷ ns) s = elim (api.get_service n s) [ err e ↦ managed ns s | ok v ↦ v ∷ managed ns s ]

  unfoldable pub services_of : List String → S → Result (List Service)
  unfolding managed
  services_of [] s = api.list_services s
  services_of (n ∷ ns) s = ok (managed (n ∷ ns) s)

  -- The loop over the services, with the agent's lock held.
  unfoldable pub sync_services :
      List Service → S → DiscoveryAgent → Outcome (DiscoveryAgent × Option Error)
  unfolding endpoints changed store_endpoints
  sync_services [] s ag = returns (ag, none)
  sync_services (v ∷ vs) s ag = and_then (endpoints v.name s) (elim [
    | err e ↦ returns (ag, some e)
    | ok new ↦ elim (changed (lookup v.name ag.services) new) [
      | false ↦ sync_services vs s ag
      | true ↦ and_then (store_endpoints v.name new ag) (λ ag'. sync_services vs s ag')
    ]
  ])

  unfoldable pub sync : S → DiscoveryAgent → Outcome (DiscoveryAgent × Option Error)
  unfolding sync_services services_of
  sync s ag = elim (services_of ag.managing s) [
    | err e ↦ returns (ag, some e)
    | ok vs ↦ sync_services vs s ag
  ]
