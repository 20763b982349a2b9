-- ===== src/Backends/Consul/States.antt =====
-- GetTaskState, PutTaskState and ListTasks of backends/consul/consul_api.go.
pub mod Priority
use consul_scheduler.Prelude.{
  String, Bool, true, false, not, ◌&&◌, ◌||◌, Option, List, [], ◌∷◌, if◌then◌else◌, str_eq,
}
use consul_scheduler.Api.Types.{
  Task, TaskState, pending, starting, running, failing, stopping, exited, TaskQueryOpts,
}
use consul_scheduler.Api.Results.{Error, Result, ok, err, ◌>>=◌}
use consul_scheduler.Api.Definitions.{task_name, task_id}
use Prim.Native.String.{◌++◌ as str_append}
use consul_scheduler.Backends.Query.{passes, passes_state, asks_state}
use consul_scheduler.Backends.Consul.Codec.{
  Blob, text_blob, decode_task, decode_text, state_of_text, text_of_state,
}
use consul_scheduler.Backends.Consul.Store.{
  HealthCheck, ConsulClient, ConsulApi, put, get, list, health_key,
}

-- `state == STOPPING || state == STARTING || state == EXITED`
unfoldable pub is_own : TaskState → Bool
is_own stopping = true
is_own starting = true
is_own exited = true
is_own s = false

-- The loop over the checks of the task's service, with `any` so far.
unfoldable pub check_loop : String → Bool → TaskState → List HealthCheck → TaskState
check_loop id seen state [] = if seen then running else state
check_loop id seen state (ch ∷ chs) =
    let mine = str_eq ch.service_id id in
    let rest = check_loop id (seen || mine) state chs in
    if mine && not (str_eq ch.status "passing") then failing else rest

module _ {K : Type 0} (client : ConsulClient K) where
  unfoldable pub stored_state : Task → ConsulApi K → TaskState
  unfolding get state_of_text
  stored_state t a = elim (get client (health_key (task_id t)) a) [
    | err e ↦ pending
    | ok b ↦ state_of_text (decode_text b)
  ]

  -- a.get gives no error but ErrNotFound, so the second error test never holds.
  unfoldable pub get_task_state : Task → ConsulApi K → Result TaskState
  unfolding stored_state check_loop is_own
  get_task_state t a = elim (client.health_checks (str_append "task-" (task_name t)) a.store) [
    | err e ↦ err e
    | ok chs ↦
        let state = stored_state t a in
        ok (
          if is_own state
          then state
          else check_loop (str_append "task-" (task_id t)) false state chs)
  ]

  unfoldable pub put_task_state : String → TaskState → ConsulApi K → ConsulApi K × Option Error
  unfolding put text_of_state
  put_task_state id s a = put client (health_key id) (text_blob (text_of_state s)) a

  -- The key prefix that ListTasks lists.
  unfoldable pub task_prefix : TaskQueryOpts → String
  task_prefix q =
      if not (str_eq q.by_cluster "") && not (str_eq q.by_deployment "")
      then str_append "state/tasks/" (str_append q.by_cluster (str_append "-" q.by_deployment))
      else if not (str_eq q.by_cluster "")
      then str_append "state/tasks/" (str_append q.by_cluster "-")
      else "state/tasks/"

  unfoldable pub admits : TaskQueryOpts → Task → ConsulApi K → Result Bool
  unfolding asks_state passes passes_state get_task_state
  admits q t a =
      if asks_state q
      then (do s ← get_task_state t a; ok (passes_state q s && passes q t))
      else ok (passes q t)

  unfoldable pub list_loop : TaskQueryOpts → List Blob → ConsulApi K → Result (List Task)
  unfolding admits
  list_loop q [] a = ok []
  list_loop q (b ∷ bs) a = do
    keeps ← admits q (decode_task b) a
    rest ← list_loop q bs a
    ok (if keeps then decode_task b ∷ rest else rest)

  unfoldable pub list_tasks : TaskQueryOpts → ConsulApi K → Result (List Task)
  unfolding list_loop task_prefix list
  list_tasks q a = do bs ← list client (task_prefix q) a; list_loop q bs a
