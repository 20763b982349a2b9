-- ===== src/Agent/Loop.antt =====
-- Run of agent/agent.go: what the agent does from its start until it is told to stop.
pub mod Ending
pub mod Hearing
use consul_scheduler.Prelude.{
  ℤ, String, Bool, true, false, Option, none, some, List, [], ◌∷◌, if◌then◌else◌, str_eq, Assoc,
  insert,
}
use consul_scheduler.Api.Results.{Outcome, returns, and_then}
use consul_scheduler.Api.Backend.{SchedulerApi}
use consul_scheduler.Api.Loops.{Attempt, get_host_name}
use Prim.Native.String.{◌++◌ as str_append}
use consul_scheduler.Backends.Events.{Chan, Listener}
use consul_scheduler.Agent.Executors.{Machine}
use consul_scheduler.Agent.State.{AgentTask, Agent, forget_states}
use consul_scheduler.Agent.Running.{runner_step}
use consul_scheduler.Agent.Sync.{sync}
use consul_scheduler.Agent.Publish.{publish_state}

-- The agent, the listeners of its backend, and the file of the states once it has been written.
pub record Process (S W : Type 0) : Type 0 where
  pub agent : Agent S W
  pub listeners : Assoc Listener
  pub file : Option (Assoc AgentTask)

-- What happens while Run waits: a message on one of its two channels or the timer, with the time and
-- the backend as it is then; a runner takes an action; or the channel that ends Run.
pub data Moment (S : Type 0) : Type 0 where
  wakes : ℤ → S → Moment S
  runner : ℤ → Moment S
  stops : Moment S

-- a.load(): the file is merged into a map that is empty; without a file nothing is loaded.
unfoldable pub load_states : {S W : Type 0} → Option (Assoc AgentTask) → Agent S W → Agent S W
unfolding forget_states
load_states none a = a
load_states (some m) a = record a { states = forget_states m }

abbrev unbuffered : Chan
unbuffered = record { buffer = []; cap = 0; waiting = 0 }

abbrev pub listening : String → Listener
listening on = record { on = on; ch = unbuffered }

unfoldable pub subscribe_agent : String → Assoc Listener → Assoc Listener
subscribe_agent host ls =
    insert "agent-health" (listening (str_append "health::task:" (str_append host ":failing:*")))
      (insert "agent-state" (listening (str_append "state::state/hosts/" host)) ls)

-- if agent.Config.Cluster == ""
unfoldable pub cluster_or_default : String → String
cluster_or_default c = if str_eq c "" then "default" else c

abbrev named : Option String → String
named none = ""
named (some n) = n

module _ {S W : Type 0} (api : SchedulerApi S) (machine : Machine W) where
  -- agent.sync(); agent.PublishState()
  unfoldable pub wake : ℤ → S → Agent S W → Outcome (Agent S W)
  unfolding sync publish_state
  wake now s a =
      and_then (sync api machine now (record a { store = s })) (λ a'. publish_state api machine a')

  -- The loop of Run: the agent then, and whether the loop has ended.
  unfoldable pub run_loop : List (Moment S) → Agent S W → Outcome (Agent S W × Bool)
  unfolding wake runner_step
  run_loop [] a = returns (a, false)
  run_loop (wakes now s ∷ ms) a = and_then (wake now s a) (λ a'. run_loop ms a')
  run_loop (runner now ∷ ms) a = run_loop ms (runner_step api machine now a)
  run_loop (stops ∷ ms) a = returns (a, true)

  -- Run before its loop: the cluster's default, the host's name, and a first publication.
  unfoldable pub prepare :
      Option (Assoc AgentTask) → List (Attempt S) → Agent S W → Outcome (Agent S W)
  unfolding load_states get_host_name cluster_or_default
  prepare file attempts a =
      let a1 = record a { cluster = cluster_or_default a.cluster } in
      let a2 = load_states file a1 in
      and_then (get_host_name api attempts) (λ name.
        publish_state api machine (record a2 { host = elim name [ none ↦ a2.host | some n ↦ n ] }))

-- `unsubscribe` is the backend's UnSubscribe.
module _ {S W : Type 0} (api : SchedulerApi S) (machine : Machine W)
    (unsubscribe : String → Assoc Listener → Assoc Listener) where
  -- The deferred calls of Run, the last first. The arguments of DelHost are the cluster and the host
  -- at the defer, which stands before GetHostName.
  unfoldable pub leave : String → String → Process S W → Process S W
  leave cluster host p = record {
    agent = record (p.agent) { store = (api.del_host cluster host (p.agent).store).0 };
    listeners = unsubscribe "agent-state" (unsubscribe "agent-health" p.listeners);
    file = some (p.agent).states;
  }

  unfoldable pub finish :
      String → String → Assoc Listener → Option (Assoc AgentTask) → Agent S W × Bool → Process S W
  unfolding leave
  finish cluster host ls file (a, ended) =
      let p : Process S W = record { agent = a; listeners = ls; file = file } in
      if ended then leave cluster host p else p

  unfoldable pub run :
      ℤ
      → Option (Assoc AgentTask)
      → List (Attempt S)
      → List (Moment S)
      → Assoc Listener
      → Agent S W
      → Outcome (Process S W)
  unfolding prepare run_loop finish subscribe_agent cluster_or_default
  run now file attempts moments ls a = and_then (prepare api machine file attempts a) (λ a1.
      and_then (sync api machine now a1) (λ a2. and_then (run_loop api machine moments a2) (λ r.
        returns
          (finish (cluster_or_default a.cluster) a.host (subscribe_agent a1.host ls) file r))))
