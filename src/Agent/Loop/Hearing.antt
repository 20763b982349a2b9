-- ===== src/Agent/Loop/Hearing.antt =====
-- The subscriptions with which Run of agent/agent.go begins, at the events of the Consul backend.
use consul_scheduler.Prelude.{
  String, ◌≡◌, ◌∙◌, some, str_eq, Assoc, lookup, lookup-insert, lookup-insert_self,
}
use Prim.Native.String.{◌++◌ as str_append}
use consul_scheduler.Backends.Events.{Listener}
use consul_scheduler.Backends.Events.Heard.{Misses}
use consul_scheduler.Backends.Consul.Store.{task_key, health_key}
use consul_scheduler.Backends.Consul.Watch.{key_event}
use consul_scheduler.Backends.Consul.Watch.Hearing.{task_failures}
use consul_scheduler.Backends.Consul.Watch.Unheard.{host_state, state_events_unheard}
use consul_scheduler.Agent.Loop.{listening, subscribe_agent}

agent-state :
    (host : String) (ls : Assoc Listener)
    → lookup "agent-state" (subscribe_agent host ls) ≡ some (listening (host_state host))
unfolding subscribe_agent str_eq
agent-state host ls =
    lookup-insert "agent-health" "agent-state" (listening (task_failures host)) _
    ∙ lookup-insert_self "agent-state" (listening (host_state host)) ls

-- With the prefix "registry" of the Consul backend: after the agent's subscriptions, whatever the
-- host's name and whatever was subscribed before, the pattern of the listener "agent-state" stops the
-- event of the monitor of the state keys about every key of a task, and about every key of a task's
-- health.
pub agent_state-Misses :
    (host id : String) (ls : Assoc Listener)
    → Misses "agent-state"
        (subscribe_agent host ls)
        (key_event "state" "registry" (str_append "registry/" (task_key id)))
      × Misses "agent-state"
          (subscribe_agent host ls)
          (key_event "state" "registry" (str_append "registry/" (health_key id)))
agent_state-Misses host id ls =
    let (tasks, health) = state_events_unheard host id in
    (
      (listening (host_state host), agent-state host ls, tasks),
      (listening (host_state host), agent-state host ls, health),
    )
