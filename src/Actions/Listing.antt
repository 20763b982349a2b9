-- ===== src/Actions/Listing.antt =====
-- ListTasks and ListHosts of actions/tools.go: the tables that the commands print. `print_tags` is
-- `%v` of a map.
pub mod Printed
use consul_scheduler.Prelude.{
  String, Bool, true, false, List, [], ◌∷◌, length, show, show_ℤ, codes, Assoc,
}
use consul_scheduler.Api.Types.{Host, Task, TaskState, TaskQueryOpts, any_task}
use consul_scheduler.Api.Results.{Result, ok, err, ◌>>=◌, Outcome, returns, and_then}
use consul_scheduler.Api.Definitions.{task_id}
use consul_scheduler.Api.Backend.{SchedulerApi}
use consul_scheduler.Backends.Consul.Codec.{text_of_state}
use consul_scheduler.Actions.Table.{Text, table}

abbrev print_bool : Bool → Text
print_bool true = codes "true"
print_bool false = codes "false"

unfoldable pub task_row : Task → TaskState → List Text
unfolding text_of_state
task_row t state =
    codes (task_id t)
    ∷ codes t.host
    ∷ print_bool t.rejected
    ∷ codes t.cluster
    ∷ codes t.deployment
    ∷ codes t.task_definition.name
    ∷ codes (show t.task_definition.version)
    ∷ codes (text_of_state state)
    ∷ []

abbrev pub task_header : List Text
task_header =
    codes "id"
    ∷ codes "host"
    ∷ codes "rejected"
    ∷ codes "cluster"
    ∷ codes "service"
    ∷ codes "task def"
    ∷ codes "version"
    ∷ codes "state"
    ∷ []

abbrev pub host_header : List Text
host_header =
    codes "name" ∷ codes "tags" ∷ codes "cpu" ∷ codes "mem" ∷ codes "disk" ∷ codes "tasks" ∷ []

-- What a command prints, or the error with which it ends.
abbrev pub Printing : Type 0
Printing = Outcome (Result (List Text))

abbrev printed : Outcome (List Text) → Printing
printed o = and_then o (λ lines. returns (ok lines))

unfoldable pub host_row : (Assoc String → String) → Host → List Task → List Text
host_row print_tags h ts =
    codes h.name
    ∷ codes (print_tags h.tags)
    ∷ codes (show_ℤ h.calculated_resources.cpu_units)
    ∷ codes (show_ℤ h.calculated_resources.memory)
    ∷ codes (show_ℤ h.calculated_resources.disk_space)
    ∷ codes (show (length ts))
    ∷ []

abbrev pub print_table : List Text → Result (List (List Text)) → Printing
print_table header (err e) = returns (err e)
print_table header (ok rows) = printed (table header rows)

module _ {S : Type 0} (api : SchedulerApi S) where
  unfoldable pub task_rows : List Task → S → Result (List (List Text))
  unfolding task_row
  task_rows [] s = ok []
  task_rows (t ∷ ts) s = do
    state ← api.get_task_state t s
    rest ← task_rows ts s
    ok (task_row t state ∷ rest)

  abbrev pub scheduled_of : String → String → String → TaskQueryOpts
  scheduled_of by_host by_cluster by_deployment = record any_task {
    by_host = by_host;
    by_deployment = by_deployment;
    by_cluster = by_cluster;
    wants_scheduled = true;
  }

  unfoldable pub list_tasks : String → String → String → S → Printing
  unfolding task_rows table
  list_tasks by_host by_cluster by_deployment s =
      and_then (api.list_tasks (scheduled_of by_host by_cluster by_deployment) s)
        (elim [ err e ↦ returns (err e) | ok ts ↦ print_table task_header (task_rows ts s) ])

  -- The loop over the hosts, with a listing for each.
  unfoldable pub host_rows :
      (Assoc String → String) → List Host → S → Outcome (Result (List (List Text)))
  unfolding host_row
  host_rows print_tags [] s = returns (ok [])
  host_rows print_tags (h ∷ hs) s =
      and_then (api.list_tasks (record any_task { by_host = h.name }) s) (elim [
        | err e ↦ returns (err e)
        | ok ts ↦
            and_then (host_rows print_tags hs s)
              (λ r. returns (do rest ← r; ok (host_row print_tags h ts ∷ rest)))
      ])

  unfoldable pub list_hosts : (Assoc String → String) → String → S → Printing
  unfolding host_rows table
  list_hosts print_tags cluster s = elim (api.list_hosts cluster s) [
    | err e ↦ returns (err e)
    | ok hs ↦ and_then (host_rows print_tags hs s) (λ r. print_table host_header r)
  ]
