-- ===== src/Backends/Query.antt =====
-- The tests of ListTasks, which the two backends have in common.
-- `if q.Field && !t.Field { continue }` and the three comparisons of names
use consul_scheduler.Prelude.{Bool, false, not, ◌&&◌, ◌||◌, if◌then◌else◌, str_eq}
use consul_scheduler.Api.Types.{Task, TaskState, healthy, TaskQueryOpts}

unfoldable pub passes : TaskQueryOpts → Task → Bool
passes q t =
    if q.wants_scheduled && not t.scheduled
    then false
    else if q.wants_rejected && not t.rejected
    then false
    else if not (str_eq q.by_host "") && not (str_eq t.host q.by_host)
    then false
    else if not (str_eq q.by_cluster "") && not (str_eq q.by_cluster t.cluster)
    then false
    else not (not (str_eq q.by_deployment "") && not (str_eq q.by_deployment t.deployment))

-- `if q.Failing && state.Healthy() { continue } else if q.Running && !state.Healthy() { continue }`
unfoldable pub passes_state : TaskQueryOpts → TaskState → Bool
passes_state q s =
    if q.wants_failing && healthy s then false else not (q.wants_running && not (healthy s))

-- Whether the query asks for the state at all.
unfoldable pub asks_state : TaskQueryOpts → Bool
asks_state q = q.wants_failing || q.wants_running
