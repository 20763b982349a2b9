-- ===== src/Agent/Sync/Decisions.antt =====
-- When a sync starts, stops or rejects a task.
use consul_scheduler.Prelude.{
  pos, ℕ, ℤ, ◌+ℤ◌, ◌≤ℤ◌, ◌<ℤ◌, ltb_ℤ, ltb_ℤ→le, ◌≡◌, ◌≢◌, ◌⊎◌, inl, inr, true, false, none, some,
  List, [], ◌∷◌, arith, lt→ltb, le→ltb, Bool-cases, Option-cases, All,
}
use consul_scheduler.Api.Types.{Deployment, Task, TaskState, healthy, is_starting, started}
use consul_scheduler.Api.Results.{not_found, failed, ok, Result-cases}
use consul_scheduler.Api.Definitions.{all_ports, has_checks}
use consul_scheduler.Api.Backend.{SchedulerApi}
use consul_scheduler.Agent.Executors.{Machine}
use consul_scheduler.Agent.State.{AgentTask, Agent, Action, put_entry}
use consul_scheduler.Agent.Sync.{
  wants_start, busy_port, is_tcp_port_available, reject, refresh, try_start, decide,
}

module _ {S W : Type 0} (api : SchedulerApi S) (machine : Machine W) where
  abbrev FreePorts : List ℕ → W → Type 0
  FreePorts ps w = All (λ p. is_tcp_port_available machine p w ≡ true) ps

  none-some : {A : Type 0} {x : A} → some x ≢ none
  none-some e = cc

  stop_start : {t u : Task} → some (Action.stop t) ≢ some (Action.start u)
  stop_start e = cc

  -- The test with which the code decides whether a task is to be started.
  abbrev pub IsDue : Task → AgentTask → TaskState → Type 0
  IsDue t entry state =
      (t.scheduled ≡ true)
      × (t.rejected ≡ false)
      × (is_starting entry.state ≡ false)
      × (((healthy state ≡ false) × (has_checks t ≡ true))
          ⊎ ((has_checks t ≡ false) × (entry.attempts ≡ pos 0)))

  wants_start-IsDue :
      (t : Task) (entry : AgentTask) (state : TaskState)
      → wants_start t entry state ≡ true
      → IsDue t entry state
  unfolding wants_start
  wants_start-IsDue t entry state h = elim (Bool-cases (has_checks t)) [
    | inl c ↦ (ground arith, ground arith, ground arith, inl (ground arith, c))
    | inr c ↦ (ground arith, ground arith, ground arith, inr (c, ground arith))
  ]

  some-none : {A : Type 0} {x : A} → none ≢ some x
  some-none e = cc

  start_inj : {t u : Task} → some (Action.start t) ≡ some (Action.start u) → u ≡ t
  start_inj e = cc

  busy_port-none : (ps : List ℕ) (w : W) → busy_port machine ps w ≡ none → FreePorts ps w
  unfolding busy_port
  busy_port-none [] w h = tt
  busy_port-none (p ∷ ps) w h = elim (Bool-cases (is_tcp_port_available machine p w)) [
    | inl e ↦ (e, busy_port-none ps w (rw e at h))
    | inr e ↦ absurd (none-some (rw e at h))
  ]

  try_start-starts :
      (now : ℤ) (d : Deployment) (t : Task) (entry : AgentTask) (a : Agent S W) (u : Task)
      → (try_start api machine now d t entry a).1 ≡ some (Action.start u)
      → (u ≡ t)
        × (entry.started_at +ℤ t.task_definition.grace_period ≤ℤ now)
        × (entry.attempts ≤ℤ d.max_attempts)
        × FreePorts (all_ports t.task_definition) a.world
  unfolding try_start
  try_start-starts now d t entry a u h =
      elim (Bool-cases (ltb_ℤ now (entry.started_at +ℤ t.task_definition.grace_period))) [
        | inl e ↦ absurd (some-none (rw e at h))
        | inr grace ↦ elim (Bool-cases (ltb_ℤ d.max_attempts entry.attempts)) [
          | inl e ↦ absurd (some-none (rw (grace, e) at h))
          | inr tries ↦
              elim (Option-cases (busy_port machine (all_ports t.task_definition) a.world)) [
                | inr (p, e) ↦ absurd (some-none (rw (grace, tries, e, try_start) at h))
                | inl e ↦
                    let h' : some (Action.start t) ≡ some (Action.start u) =
                      rw (grace, tries, e, try_start) at h in
                    (
                      start_inj h',
                      ltb_ℤ→le now _ grace,
                      ltb_ℤ→le d.max_attempts _ tries,
                      busy_port-none (all_ports t.task_definition) a.world e,
                    )
              ]
        ]
      ]

  wants_start-unscheduled :
      (t : Task) (entry : AgentTask) (state : TaskState)
      → t.scheduled ≡ false
      → wants_start t entry state ≡ false
  unfolding wants_start
  wants_start-unscheduled t entry state h = rw h

  -- A start is decided only for a scheduled task that is not rejected and whose entry is not that of
  -- a starting one, which has health checks and is not healthy, or has none and no attempt yet; whose
  -- deployment can be read, whose grace period since the last start is over, whose attempts are at
  -- most the deployment's maximum and whose fixed ports are all free on the machine; and it is the
  -- start of that task.
  pub decide-starts :
      (now : ℤ) (t : Task) (entry : AgentTask) (state : TaskState) (a : Agent S W) (u : Task)
      → (decide api machine now t entry state a).1 ≡ some (Action.start u)
      → (u ≡ t)
        × IsDue t entry state
        × ((d : Deployment) × (api.get_deployment t.deployment a.store ≡ ok d)
            × (entry.attempts ≤ℤ d.max_attempts))
        × (entry.started_at +ℤ t.task_definition.grace_period ≤ℤ now)
        × All (λ p. is_tcp_port_available machine p a.world ≡ true) (all_ports t.task_definition)
  unfolding decide
  decide-starts now t entry state a u h =
      elim (Result-cases (api.get_deployment t.deployment a.store)) [
        | inr (not_found, e) ↦ absurd (some-none (rw (e, decide) at h))
        | inr (failed x, e) ↦ absurd (some-none (rw (e, decide) at h))
        | inl (d, e) ↦ elim (Bool-cases (wants_start t entry state)) [
          | inl wants ↦
              let s = try_start-starts now d t entry a u (rw (e, wants, decide) at h) in
              (s.0, wants_start-IsDue t entry state wants, (d, e, s.2), s.1, s.3)
          | inr lacks ↦ elim (Bool-cases t.scheduled) [
            | inl on ↦ absurd (some-none (rw (e, lacks, on, decide) at h))
            | inr off ↦ absurd (stop_start (rw (e, lacks, off, decide) at h))
          ]
        ]
      ]

  refreshed_wants :
      (t : Task) (entry : AgentTask)
      → t.scheduled ≡ true
      → t.rejected ≡ false
      → has_checks t ≡ false
      → wants_start t (refresh api machine started entry) started ≡ true
  unfolding wants_start refresh healthy is_starting has_checks
  refreshed_wants t entry on accepted unchecked = rw (on, accepted, unchecked)

  -- A scheduled task with no health checks that has been started and is reported as started is
  -- started once more by the next sync after its grace period, if its fixed ports are free: that it
  -- is healthy resets its attempts to 0, and 0 attempts are what a task with no checks is started
  -- for.
  pub decide-restarts :
      (now : ℤ) (t : Task) (entry : AgentTask) (a : Agent S W) (d : Deployment)
      → t.scheduled ≡ true
      → t.rejected ≡ false
      → has_checks t ≡ false
      → api.get_deployment t.deployment a.store ≡ ok d
      → entry.started_at +ℤ t.task_definition.grace_period ≤ℤ now
      → pos 0 ≤ℤ d.max_attempts
      → busy_port machine (all_ports t.task_definition) a.world ≡ none
      → (decide api machine now t (refresh api machine started entry) started a).1
        ≡ some (Action.start t)
  unfolding decide try_start refresh healthy
  decide-restarts now t entry a d on accepted unchecked e grace tries free =
      let wants = refreshed_wants t entry on accepted unchecked in
      let g : ltb_ℤ now (entry.started_at +ℤ t.task_definition.grace_period) ≡ false =
        le→ltb _ _ grace in
      let m : ltb_ℤ d.max_attempts (pos 0) ≡ false = le→ltb _ _ tries in
      rw (e, wants, g, m, free, decide, try_start)

  -- A task that is not scheduled is stopped, whatever its entry and its state are, if its deployment
  -- can be read.
  pub decide-stops :
      (now : ℤ) (t : Task) (entry : AgentTask) (state : TaskState) (a : Agent S W) (d : Deployment)
      → t.scheduled ≡ false
      → api.get_deployment t.deployment a.store ≡ ok d
      → decide api machine now t entry state a ≡ (a, some (Action.stop t))
  unfolding decide
  decide-stops now t entry state a d off e =
      rw (e, wants_start-unscheduled t entry state off, off, decide)

  -- A task that wants a start and whose grace period is over, but which has been tried more often
  -- than its deployment allows, is written to the store as rejected, with the reason, and nothing
  -- is queued.
  pub decide-exhausted :
      (now : ℤ) (t : Task) (entry : AgentTask) (state : TaskState) (a : Agent S W) (d : Deployment)
      → api.get_deployment t.deployment a.store ≡ ok d
      → wants_start t entry state ≡ true
      → entry.started_at +ℤ t.task_definition.grace_period ≤ℤ now
      → d.max_attempts <ℤ entry.attempts
      → ((decide api machine now t entry state a).1 ≡ none)
        × ((decide api machine now t entry state a).0.store
            ≡ (api.put_task
                (record t { reject_reason = "too many attempts"; rejected = true })
                a.store).0)
  unfolding decide try_start reject put_entry
  decide-exhausted now t entry state a d e wants grace more =
      let g : ltb_ℤ now (entry.started_at +ℤ t.task_definition.grace_period) ≡ false =
        le→ltb _ _ grace in
      let m : ltb_ℤ d.max_attempts entry.attempts ≡ true = lt→ltb _ _ more in
      (rw (e, wants, g, m, decide), rw (e, wants, g, m, decide))
