-- ===== src/Agent/Sync.antt =====
-- syncTask and sync of agent/agent.go.
pub mod Decisions
use consul_scheduler.Prelude.{
  ℕ, ℤ, pos, ◌+ℤ◌, ltb_ℤ, eqb_ℤ, String, Bool, true, false, not, ◌&&◌, ◌||◌, Option, none, some,
  List, [], ◌∷◌, ◌++◌, ltb, if◌then◌else◌, length, show,
}
use consul_scheduler.Api.Types.{
  Deployment, Container, Task, TaskState, starting, exited, healthy, is_starting, any_task,
}
use consul_scheduler.Api.Results.{not_found, failed, ok, err, Outcome, returns, and_then}
use consul_scheduler.Api.Definitions.{all_ports, has_checks, task_id}
use consul_scheduler.Api.Backend.{SchedulerApi}
use Prim.Native.String.{◌++◌ as str_append}
use consul_scheduler.Agent.Executors.{Machine, get_executor, is_running}
use consul_scheduler.Agent.State.{AgentTask, Agent, Action, start, stop, get_entry, put_entry}

-- What the code knows once it has looked: the state that the backend reported, or EXITED.
unfoldable pub wants_start : Task → AgentTask → TaskState → Bool
wants_start t entry state =
    t.scheduled
    && not t.rejected
    && not (is_starting entry.state)
    && (not (healthy state) && has_checks t || not (has_checks t) && eqb_ℤ entry.attempts (pos 0))

module _ {W : Type 0} (machine : Machine W) where
  -- IsTCPPortAvailable of helpers.go: a number from 0 to 65535 that can be bound
  unfoldable pub is_tcp_port_available : ℕ → W → Bool
  is_tcp_port_available p w = if ltb 65535 p then false else machine.port_available p w

  -- The first of the task's ports that cannot be bound.
  unfoldable pub busy_port : List ℕ → W → Option ℕ
  busy_port [] w = none
  busy_port (p ∷ ps) w = if is_tcp_port_available p w then busy_port ps w else some p

module _ {S W : Type 0} (api : SchedulerApi S) (machine : Machine W) where
  -- The loop over the essential containers, with taskState.
  unfoldable pub check_essential :
      Task → List Container → TaskState → Agent S W → Agent S W × TaskState
  check_essential t [] state a = (a, state)
  check_essential t (c ∷ cs) state a = elim c.essential [
    | false ↦ check_essential t cs state a
    | true ↦ elim (get_executor machine c) [
      | none ↦ check_essential t cs state a
      | some ex ↦
          let (w, r) = is_running machine ex t c a.world in
          let a' = record a { world = w } in
          elim r [
            | err e ↦ check_essential t cs state a'
            | ok true ↦ check_essential t cs state a'
            | ok false ↦
                check_essential t cs exited
                  (record a' { store = (api.put_task_state (task_id t) exited a'.store).0 })
          ]
    ]
  ]

  -- RejectReason, Rejected, Failure and PutTask
  unfoldable pub reject : String → Task → AgentTask → Agent S W → Agent S W
  unfolding put_entry
  reject reason t entry a =
      let a' = put_entry (task_id t) (record entry { failure = some (failed reason) }) a in
      record a' {
        store = (api.put_task (record t { reject_reason = reason; rejected = true }) a'.store).0;
      }

  -- state.State = taskState, and the reset of a healthy task
  unfoldable pub refresh : TaskState → AgentTask → AgentTask
  refresh state entry =
      if healthy state
      then record entry { state = state; failure = none; attempts = pos 0 }
      else record entry { state = state }

  -- The branch that starts a task, from its first test on.
  unfoldable pub try_start :
      ℤ → Deployment → Task → AgentTask → Agent S W → Agent S W × Option Action
  unfolding reject busy_port
  try_start now d t entry a =
      if ltb_ℤ now (entry.started_at +ℤ t.task_definition.grace_period)
      then (a, none)
      else if ltb_ℤ d.max_attempts entry.attempts
      then (reject "too many attempts" t entry a, none)
      else elim (busy_port machine (all_ports t.task_definition) a.world) [
        | some p ↦ (reject (str_append "port not available: " (show p)) t entry a, none)
        | none ↦ (
          put_entry (task_id t) (record entry { started_at = now; state = starting }) a,
          some (start t),
        )
      ]

  -- From the listing of the deployment on.
  unfoldable pub decide : ℤ → Task → AgentTask → TaskState → Agent S W → Agent S W × Option Action
  unfolding try_start reject wants_start
  decide now t entry state a = elim (api.get_deployment t.deployment a.store) [
    | err not_found ↦ (reject "no deployment found" t entry a, none)
    | err (failed x) ↦ (a, none)
    | ok d ↦
        if wants_start t entry state
        then try_start now d t entry a
        else if t.scheduled
        then (a, none)
        else (a, some (stop t))
  ]

  unfoldable pub sync_task : ℤ → Task → Agent S W → Agent S W × Option Action
  unfolding decide refresh check_essential
  sync_task now t a = elim (api.get_task_state t a.store) [
    | err e ↦ (a, none)
    | ok state ↦
        let entry = refresh state (get_entry (task_id t) t a.states) in
        let a1 = put_entry (task_id t) entry a in
        let (a2, state') = check_essential t t.task_definition.containers state a1 in
        decide now t entry state' a2
  ]

  -- The send to the queue of 500 actions; an action that finds it full for 15 seconds is dropped.
  unfoldable pub enqueue : Option Action → Agent S W → Agent S W
  enqueue none a = a
  enqueue (some act) a =
      if ltb (length a.queue) 500 then record a { queue = a.queue ++ act ∷ [] } else a

  unfoldable pub sync_tasks : ℤ → List Task → Agent S W → Agent S W
  unfolding sync_task enqueue
  sync_tasks now [] a = a
  sync_tasks now (t ∷ ts) a =
      let (a', act) = sync_task now t a in sync_tasks now ts (enqueue act a')

  unfoldable pub sync : ℤ → Agent S W → Outcome (Agent S W)
  unfolding sync_tasks
  sync now a =
      and_then
        (api.list_tasks (record any_task { by_host = a.host; by_cluster = a.cluster }) a.store)
        (elim [ err e ↦ returns a | ok tasks ↦ returns (sync_tasks now tasks a) ])
