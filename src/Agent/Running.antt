-- ===== src/Agent/Running.antt =====
-- start, stop and runner of agent/agent.go. `now` is what time.Now gives.
use consul_scheduler.Prelude.{ℤ, pos, add64, Option, none, some, List, [], ◌∷◌}
use consul_scheduler.Api.Types.{Container, Task, starting, started, stopping, stopped}
use consul_scheduler.Api.Results.{Error, failed}
use consul_scheduler.Api.Definitions.{task_id}
use consul_scheduler.Api.Backend.{SchedulerApi}
use consul_scheduler.Agent.Executors.{
  Machine, get_executor, run_setup, run_teardown, start_task, stop_task,
}
use consul_scheduler.Agent.State.{Agent, Action, get_entry, del_entry, put_entry}

abbrev pub no_executor : Error
no_executor = failed "start task failed"

module _ {S W : Type 0} (api : SchedulerApi S) (machine : Machine W) where
  abbrev fail_entry : Task → Error → Agent S W → Agent S W
  fail_entry t x a =
      put_entry (task_id t) (record (get_entry (task_id t) t a.states) { failure = some x }) a

  -- The loop over the containers of start.
  unfoldable pub start_containers : Task → List Container → Agent S W → Agent S W × Option Error
  unfolding get_entry put_entry
  start_containers t [] a = (a, none)
  start_containers t (c ∷ cs) a = elim (get_executor machine c) [
    | none ↦ (fail_entry t no_executor a, some no_executor)
    | some ex ↦
        let w1 = (run_setup machine c a.world).0 in
        let (w2, e) = start_task machine ex t c w1 in
        let a' = record a { world = w2 } in
        elim e [ some x ↦ (fail_entry t x a', some x) | none ↦ start_containers t cs a' ]
  ]

  unfoldable pub start_on : ℤ → Task → Agent S W → Agent S W × Option Error
  unfolding start_containers
  start_on now t a =
      let (s, e) = api.put_task_state (task_id t) starting a.store in
      let a1 = record a { store = s } in
      elim e [
        | some x ↦ (a1, some x)
        | none ↦
            let entry = get_entry (task_id t) t a1.states in
            let a2 =
              put_entry (task_id t)
                (record entry {
                  state = starting;
                  started_at = now;
                  attempts = add64 entry.attempts (pos 1);
                })
                a1 in
            let (a3, x) = start_containers t t.task_definition.containers a2 in
            elim x [
              | some y ↦ (a3, some y)
              | none ↦
                  let (s', z) = api.put_task_state (task_id t) started a3.store in
                  (record a3 { store = s' }, z)
            ]
      ]

  unfoldable pub stop_containers : Task → List Container → Agent S W → Agent S W × Option Error
  stop_containers t [] a = (a, none)
  stop_containers t (c ∷ cs) a = elim (get_executor machine c) [
    | none ↦ stop_containers t cs a
    | some ex ↦
        let (w1, e) = stop_task machine ex t c a.world in
        elim e [
          | some x ↦ (record a { world = w1 }, some x)
          | none ↦ stop_containers t cs (record a { world = (run_teardown machine c w1).0 })
        ]
  ]

  unfoldable pub stop_on : Task → Agent S W → Agent S W × Option Error
  unfolding stop_containers del_entry
  stop_on t a =
      let (s, e) = api.put_task_state (task_id t) stopping a.store in
      let a1 = record a { store = s } in
      elim e [
        | some x ↦ (a1, some x)
        | none ↦
            let (a2, x) = stop_containers t t.task_definition.containers a1 in
            elim x [
              | some y ↦ (a2, some y)
              | none ↦
                  let s2 = (api.del_task t a2.store).0 in
                  let (s3, z) = api.put_task_state (task_id t) stopped s2 in
                  (record a2 { store = s3; states = del_entry (task_id t) a2.states }, z)
            ]
      ]

  unfoldable pub perform : ℤ → Action → Agent S W → Agent S W × Option Error
  unfolding start_on stop_on
  perform now (Action.start t) a = start_on now t a
  perform now (Action.stop t) a = stop_on t a

  -- One round of a runner that takes the queue's first action.
  unfoldable pub runner_step : ℤ → Agent S W → Agent S W
  unfolding perform
  runner_step now a = elim a.queue [
    | [] ↦ a
    | act ∷ rest ↦ (perform now act (record a { queue = rest })).0
  ]
