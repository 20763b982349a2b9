-- ===== src/Agent/State.antt =====
-- agent/state.go, and the agent with its backend and machine. A time is its nanoseconds; the zero
-- time is 0.
use consul_scheduler.Prelude.{
  ℤ, pos, String, Option, none, some, List, [], ◌∷◌, Assoc, lookup, insert, delete,
}
use consul_scheduler.Api.Types.{Resources, Host, Task, TaskState, pending}
use consul_scheduler.Api.Results.{Error}

pub record AgentTask : Type 0 where
  pub started_at : ℤ
  pub attempts : ℤ
  pub failure : Option Error
  pub state : TaskState
  pub task : Option Task

abbrev pub new_entry : AgentTask
new_entry = record {
  started_at = pos 0;
  attempts = pos 0;
  failure = none;
  state = pending;
  task = none;
}

-- if len(tasks) == 1 && t.Task == nil { t.Task = tasks[0] }
abbrev pub with_task : Task → AgentTask → AgentTask
with_task t e = elim e.task [ none ↦ record e { task = some t } | some u ↦ e ]

abbrev or_new : Option AgentTask → AgentTask
or_new none = new_entry
or_new (some e) = e

-- a.get(key, task): the entry, made if it is missing, and the map with it
unfoldable pub get_entry : String → Task → Assoc AgentTask → AgentTask
get_entry key t m = with_task t (or_new (lookup key m))

-- a.del(key)
unfoldable pub del_entry : String → Assoc AgentTask → Assoc AgentTask
del_entry key m = elim (lookup key m) [ none ↦ m | some e ↦ delete key m ]

-- The end of load: every state is forgotten.
unfoldable pub forget_states : Assoc AgentTask → Assoc AgentTask
forget_states [] = []
forget_states ((k, e) ∷ m) = (k, record e { state = pending }) ∷ forget_states m

-- action
pub data Action : Type 0 where
  start stop : Task → Action

pub record Agent (S W : Type 0) : Type 0 where
  pub host : String
  pub cluster : String
  pub health_check : String
  pub resources : Resources
  pub last_state : Option Host
  pub states : Assoc AgentTask
  pub queue : List Action
  pub store : S
  pub world : W

-- The entry of a key is a pointer into the map: a change of it is a change of the map.
unfoldable pub put_entry : {S W : Type 0} → String → AgentTask → Agent S W → Agent S W
put_entry key e a = record a { states = insert key e a.states }
