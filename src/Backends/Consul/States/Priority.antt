-- ===== src/Backends/Consul/States/Priority.antt =====
-- The state of a task as the Consul backend tells it, and its text form.
use consul_scheduler.Prelude.{
  String, ◌≡◌, Bool, false, not, ◌&&◌, ◌||◌, List, [], ◌∷◌, arith, if◌then◌else◌, str_eq,
  str_eq_iff, any,
}
use consul_scheduler.Api.Types.{Task, TaskState, running, failing}
use consul_scheduler.Api.Results.{ok}
use consul_scheduler.Api.Definitions.{task_name, task_id}
use Prim.Native.String.{◌++◌ as str_append}
use consul_scheduler.Backends.Consul.Codec.{state_of_text, text_of_state}
use consul_scheduler.Backends.Consul.Store.{ConsulClient, ConsulApi, HealthCheck}
use consul_scheduler.Backends.Consul.States.{is_own, check_loop, stored_state, get_task_state}

-- A state that is read from a text is written as that text.
pub text_of_state-state_of_text : (x : String) → text_of_state (state_of_text x) ≡ x
unfolding text_of_state state_of_text
text_of_state-state_of_text x = ground (
  arith,
  str_eq_iff x "",
  str_eq_iff x "starting",
  str_eq_iff x "started",
  str_eq_iff x "running",
  str_eq_iff x "warning",
  str_eq_iff x "failing",
  str_eq_iff x "stopping",
  str_eq_iff x "stopped",
  str_eq_iff x "exited",
)

abbrev pub mine : String → HealthCheck → Bool
mine id ch = str_eq ch.service_id id

abbrev pub broken : String → HealthCheck → Bool
broken id ch = str_eq ch.service_id id && not (str_eq ch.status "passing")

check_loop_lem :
    (id : String) (seen : Bool) (state : TaskState) (chs : List HealthCheck)
    → check_loop id seen state chs ≡ (
        if any (broken id) chs
        then failing
        else if seen || any (mine id) chs
        then running
        else state)
unfolding check_loop
check_loop_lem id seen state [] = ground arith
check_loop_lem id seen state (ch ∷ chs) =
    ground (arith, check_loop_lem id (seen || str_eq ch.service_id id) state chs)

module _ {K : Type 0} (client : ConsulClient K) where
  -- The state of a task whose service's checks can be read: a stored stopping, starting or exited is told as it is; otherwise
  -- the task is failing if some check of its own does not pass, running if it has checks and all of them
  -- pass, and what is stored if it has none.
  pub get_task_state_lem :
      (t : Task) (a : ConsulApi K) (chs : List HealthCheck)
      → client.health_checks (str_append "task-" (task_name t)) a.store ≡ ok chs
      → get_task_state client t a
        ≡ ok (
            if is_own (stored_state client t a)
            then stored_state client t a
            else (if any (broken (str_append "task-" (task_id t))) chs
                then failing
                else if any (mine (str_append "task-" (task_id t))) chs
                then running
                else stored_state client t a))
  unfolding get_task_state
  get_task_state_lem t a chs e = rw (
    e,
    check_loop_lem (str_append "task-" (task_id t)) false (stored_state client t a) chs,
    get_task_state,
  )
