-- ===== src/Examples/Watching.antt =====
-- The theorems of the agent's subscriptions at the host "one".
use consul_scheduler.Prelude.{◌≡◌, [], ◌∷◌, String, lookup, delete, lookup-delete}
use Prim.Native.String.{◌++◌ as str_append}
use consul_scheduler.Backends.Consul.Store.{task_key, health_key}
use consul_scheduler.Backends.Consul.Watch.{NodeCheck, key_event}
use consul_scheduler.Agent.Loop.{subscribe_agent}
use consul_scheduler.Agent.Loop.Hearing.{agent_state-Misses}
use consul_scheduler.Backends.Events.Heard.{Misses}
use consul_scheduler.Backends.Mock.{mock_api}
use consul_scheduler.Master.Loop.{config, ending, Effects, subscribe_monitor, monitor}
use consul_scheduler.Master.Loop.Listening.{monitor_stays_subscribed}
use consul_scheduler.Examples.Fixtures.{store}

abbrev task_down : NodeCheck
task_down = record { node = "one"; service_id = "task-main-site-1-0"; status = "warning" }

abbrev host_name : String
host_name = "one"

agent_state-Misses_example :
    Misses "agent-state"
      (subscribe_agent "one" [])
      (key_event "state" "registry" (str_append "registry/" (task_key "main-site-1-0")))
    × Misses "agent-state"
        (subscribe_agent "one" [])
        (key_event "state" "registry" (str_append "registry/" (health_key "main-site-1-0")))
agent_state-Misses_example = agent_state-Misses "one" "main-site-1-0" []

abbrev node_down : NodeCheck
node_down = record { node = "one"; service_id = ""; status = "critical" }

abbrev idle_monitor : Effects
idle_monitor = record { pushed = []; signals = 0; listeners = [] }

monitor_stays_subscribed_example :
    (lookup "dispatch-config"
        (monitor mock_api "main" delete (config store ∷ ending ∷ []) idle_monitor).0.listeners
      ≡ lookup "dispatch-config" (subscribe_monitor []))
    × (lookup "dispatch-health"
          (monitor mock_api "main" delete (config store ∷ ending ∷ []) idle_monitor).0.listeners
        ≡ lookup "dispatch-health" (subscribe_monitor []))
monitor_stays_subscribed_example =
    monitor_stays_subscribed mock_api "main" delete lookup-delete (config store ∷ ending ∷ [])
      idle_monitor
