-- ===== src/Agent/Loop/Ending.antt =====
-- What a Run of the agent leaves behind when it ends.
use consul_scheduler.Prelude.{
  ℤ, String, ◌≡◌, ◌≢◌, true, Option, none, some, List, Assoc, lookup, if◌then◌else◌, str_eq,
}
use consul_scheduler.Api.Results.{returns}
use consul_scheduler.Api.Backend.{SchedulerApi}
use consul_scheduler.Api.Loops.{Attempt}
use consul_scheduler.Backends.Events.{Listener}
use consul_scheduler.Agent.Executors.{Machine}
use consul_scheduler.Agent.State.{AgentTask, Agent}
use consul_scheduler.Agent.Sync.{sync}
use consul_scheduler.Agent.Loop.{Process, Moment, run_loop, prepare}

-- `unsubscribe` is the backend's UnSubscribe.
module _ {S W : Type 0} (api : SchedulerApi S) (machine : Machine W)
    (unsubscribe : String → Assoc Listener → Assoc Listener) where
  -- The agent at the end of the loop of a Run.
  abbrev pub Ends :
      ℤ
      → Option (Assoc AgentTask)
      → List (Attempt S)
      → List (Moment S)
      → Agent S W
      → Agent S W
      → Type 0
  Ends now file attempts ms a q =
      (a1 : Agent S W) × (a2 : Agent S W) × (prepare api machine file attempts a ≡ returns a1)
      × (sync api machine now a1 ≡ returns a2)
      × (run_loop api machine ms a2 ≡ returns (q, true))

  module _
      (others : (c n m : String) (s : S)
        → n ≢ m
        → api.get_host c m (api.del_host c n s).0 ≡ api.get_host c m s)
      (drops : (k j : String) (ls : Assoc Listener)
        → lookup j (unsubscribe k ls) ≡ (if str_eq k j then none else lookup j ls)) where
    -- What the process p has, whose agent was q at the end of its loop.
    abbrev pub Left : String → String → Agent S W → Process S W → Type 0
    Left c n q p =
        ((p.agent).states ≡ q.states)
        × ((p.agent).host ≡ q.host)
        × (api.get_host c n (p.agent).store ≡ api.get_host c n q.store)
        × (lookup "agent-state" p.listeners ≡ none)
        × (lookup "agent-health" p.listeners ≡ none)
        × (p.file ≡ some q.states)
