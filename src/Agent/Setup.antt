-- ===== src/Agent/Setup.antt =====
-- NewAgent of agent/agent.go: the settings with their defaults, and the agent that has them.
use consul_scheduler.Prelude.{ℤ, pos, eqb_ℤ, String, Option, none, some, [], if◌then◌else◌}
use consul_scheduler.Api.Types.{Duration, is_none, Resources}
use Prim.Native.String.{◌++◌ as str_append}
use consul_scheduler.Agent.State.{Agent}
use consul_scheduler.Agent.Publish.{default_resources}

pub record AgentConfig : Type 0 where
  pub runners : ℤ
  pub sync_interval : Duration
  pub advertise : String
  pub resources : Option Resources
  pub cluster : String
  pub address : String

abbrev pub half_minute : Duration
half_minute = pos 30000000000

abbrev no_resources : Resources
no_resources = record { memory = pos 0; cpu_units = pos 0; disk_space = pos 0 }

abbrev resources_or : Option Resources → Resources
resources_or none = no_resources
resources_or (some r) = r

-- The defaults, with what the machine has free and its CPU units.
unfoldable pub with_defaults : Resources → AgentConfig → AgentConfig
unfolding default_resources is_none
with_defaults found conf = record conf {
  runners = if eqb_ℤ conf.runners (pos 0) then pos 3 else conf.runners;
  sync_interval = if is_none conf.sync_interval then half_minute else conf.sync_interval;
  resources = some (default_resources (resources_or conf.resources) found);
}

-- The agent over its backend and machine.
unfoldable pub new_agent : {S W : Type 0} → Resources → AgentConfig → S → W → Agent S W
unfolding with_defaults
new_agent found conf s w =
    let c = with_defaults found conf in
    record {
      host = "";
      cluster = c.cluster;
      health_check = str_append "http://" (str_append c.advertise "/agent/health");
      resources = resources_or c.resources;
      last_state = none;
      states = [];
      queue = [];
      store = s;
      world = w;
    }
