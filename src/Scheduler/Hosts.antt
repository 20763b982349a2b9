-- ===== src/Scheduler/Hosts.antt =====
-- selectHost, matchHost, updateHost and inArray of scheduler/scheduler.go.
pub mod Fit
pub mod Choice
pub mod Standing
use consul_scheduler.Prelude.{
  ℕ, ℤ, pos, ltb_ℤ, sub64, String, not, ◌&&◌, Option, none, some, List, [], ◌∷◌, ◌++◌, ◌==◌,
  if◌then◌else◌, str_eq, elem, Assoc, lookup, insert, values, show,
}
use consul_scheduler.Api.Types.{Host, PortMapping, Container, Task}
use consul_scheduler.Api.Results.{Outcome, returns, panics}
use consul_scheduler.Api.Definitions.{all_ports, counts}
use Prim.Native.String.{◌++◌ as str_append}
use consul_scheduler.Scheduler.Rankers.{RankedHost, spread_ranker, pack_ranker}

abbrev pub zero_ℤ : ℤ
zero_ℤ = pos 0

-- The loop over the containers' ports in matchHost: a fixed port that the host has given away.
unfoldable pub taken_port : List ℕ → List PortMapping → Option ℕ
taken_port reserved [] = none
taken_port reserved (p ∷ ps) =
    if not (p.host == 0) && elem p.host reserved then some p.host else taken_port reserved ps

unfoldable pub taken_ports : List ℕ → List Container → Option ℕ
unfolding taken_port
taken_ports reserved [] = none
taken_ports reserved (c ∷ cs) = elim (taken_port reserved c.ports) [
  | none ↦ taken_ports reserved cs
  | some p ↦ some p
]

abbrev port_error : Host → Option ℕ → Option String
port_error cand none = none
port_error cand (some p) = some (
    str_append "task port is using a reserved port "
      (str_append (show p) (str_append " on host " cand.name)))

-- The error of matchHost; none if the host can take the task.
unfoldable pub match_host : Task → Host → Option String
unfolding taken_ports
match_host t cand =
    let c = counts t.task_definition in
    let r = cand.calculated_resources in
    if ltb_ℤ (sub64 r.memory c.memory) zero_ℤ
    then some (str_append "host " (str_append cand.name " does not have enough memory"))
    else if ltb_ℤ (sub64 r.cpu_units c.cpu_units) zero_ℤ
    then some (str_append "host " (str_append cand.name " does not have enough cpu units"))
    else if ltb_ℤ (sub64 r.disk_space c.disk_use) zero_ℤ
    then some (str_append "host " (str_append cand.name " not have enough disk space"))
    else port_error cand (taken_ports cand.reserved_ports t.task_definition.containers)

-- The host after a task has been booked on it.
unfoldable pub book : Task → Host → Host
book t h =
    let c = counts t.task_definition in
    let r = h.calculated_resources in
    record h {
      calculated_resources = record {
        memory = sub64 r.memory c.memory;
        cpu_units = sub64 r.cpu_units c.cpu_units;
        disk_space = sub64 r.disk_space c.disk_use;
      };
      reserved_ports = h.reserved_ports ++ all_ports t.task_definition;
    }

-- updateHost; a host that is not in the map is a nil pointer.
unfoldable pub update_host : Task → Assoc Host → Outcome (Assoc Host)
unfolding book
update_host t hosts = elim (lookup t.host hosts) [
  | none ↦ panics
  | some h ↦ returns (insert t.host (book t h) hosts)
]

abbrev ranker_named : String → Option (List Host → List RankedHost)
ranker_named name =
    if str_eq name ""
    then some spread_ranker
    else if str_eq name "spread"
    then some spread_ranker
    else if str_eq name "binpack"
    then some pack_ranker
    else none

abbrev or_default : Option (List Host → List RankedHost) → List Host → List RankedHost
or_default none = spread_ranker
or_default (some r) = r

-- The ranking loop of selectHost, with the errors collected so far.
unfoldable pub first_match :
    Task → Assoc Host → List RankedHost → List String → String × List String
first_match t hosts [] errors = ("", errors)
first_match t hosts (r ∷ rs) errors = elim (lookup r.name hosts) [
  | none ↦ first_match t hosts rs errors
  | some cand ↦ elim (match_host t cand) [
    | none ↦ (cand.name, errors)
    | some e ↦ first_match t hosts rs (errors ++ e ∷ [])
  ]
]

unfoldable pub ranking : String → Assoc Host → List RankedHost
ranking name hosts = or_default (ranker_named name) (values hosts)

-- The name of the host, empty if there is none, and the collected errors.
unfoldable pub select_host : String → Task → Assoc Host → String × List String
unfolding ranking first_match
select_host name t hosts = first_match t hosts (ranking name hosts) []
