-- ===== src/Cli/Processes.antt =====
-- cli/processes.go, and the Register functions and AtExit of cli/app.go: what each command that
-- starts a process sets up, and what a signal does then.
pub mod Starting
use consul_scheduler.Prelude.{
  ℤ, pos, String, Bool, true, false, Option, none, some, List, [], ◌∷◌, ◌++◌, if◌then◌else◌, str_eq,
}
use consul_scheduler.Api.Types.{Duration, Resources}
use consul_scheduler.Api.Results.{Outcome, returns, panics, and_then}
use consul_scheduler.Api.Loops.{Signal, close}
use Prim.Native.String.{◌++◌ as str_append}
use consul_scheduler.Agent.Setup.{AgentConfig}
use consul_scheduler.Master.Loop.{MasterConfig}
use consul_scheduler.Health.Loop.{HealthAgent, new_health_agent}
use consul_scheduler.Health.Loop
use consul_scheduler.Discovery.{DiscoveryAgent, new_agent}
use consul_scheduler.Cli.Config.{Config}
use consul_scheduler.Cli.Routes.{
  Mux, handle_all, initial_mux, agent_routes, master_routes, health_routes, discovery_routes,
  server_routes,
}

-- The flags of the five commands; a flag that a command does not declare is never read by it.
pub record ProcessFlags : Type 0 where
  pub agent_sync_interval : Duration
  pub agent_runners : ℤ
  pub health_agent : Bool
  pub scheduler_sync_interval : Duration
  pub scheduler_runners : ℤ
  pub scheduler_cluster : String
  pub run_consul : String

-- What runs in the process.
pub data Job : Type 0 where
  consul : String → Job
  serve agent_run health_run discovery_run master_run : Job

-- The calls of an exit function.
pub data ExitCall : Type 0 where
  stop_agent stop_master stop_health stop_health_if_any stop_discovery : ExitCall

pub record App : Type 0 where
  pub mux : Mux
  pub agent : Option (AgentConfig × Signal)
  pub master : Option (MasterConfig × Signal)
  pub health : Option HealthAgent
  pub discovery : Option (DiscoveryAgent × Signal)
  pub api_started : Bool
  pub jobs : List Job
  pub at_exit : List ExitCall

abbrev pub new_app : App
new_app = record {
  mux = initial_mux;
  agent = none;
  master = none;
  health = none;
  discovery = none;
  api_started = false;
  jobs = [];
  at_exit = [];
}

abbrev open_signal : Signal
open_signal = some false

abbrev zero_resources : Resources
zero_resources = record { memory = pos 0; cpu_units = pos 0; disk_space = pos 0 }

-- No command declares the flags memory, disk-space and cpu-units: they read as 0.
unfoldable pub register_agent : Config → ProcessFlags → App → App
register_agent c f app = record app {
  agent = some (
    record {
      runners = f.agent_runners;
      sync_interval = f.agent_sync_interval;
      advertise = c.advertise;
      resources = some zero_resources;
      cluster = "";
      address = "";
    },
    open_signal,
  );
}

unfoldable pub register_master : ProcessFlags → App → App
register_master f app = record app {
  master = some (
    record {
      runners = f.scheduler_runners;
      sync_interval = f.scheduler_sync_interval;
      cluster = f.scheduler_cluster;
    },
    open_signal,
  );
}

unfoldable pub register_health : App → App
register_health app = record app { health = some new_health_agent }

-- No command declares the flag discover-services: it reads as the empty list.
unfoldable pub register_discovery : App → App
register_discovery app = record app { discovery = some (new_agent [], open_signal) }

abbrev pub starts : Job → App → App
starts j app = record app { jobs = app.jobs ++ j ∷ [] }

abbrev pub exits_by : List ExitCall → App → App
exits_by calls app = record app { at_exit = calls }

-- StartConsul, where the flag is given.
unfoldable pub start_consul : String → App → App
start_consul flags app = record app {
  jobs =
      if str_eq flags ""
      then app.jobs
      else app.jobs ++ consul (str_append "consul agent " flags) ∷ [];
}

abbrev pub start_api : App → App
start_api app = record app { api_started = true }

-- RegisterRoutes of a part.
unfoldable pub routes : List String → App → Outcome App
unfolding handle_all
routes ps app = and_then (handle_all ps app.mux) (λ m. returns (record app { mux = m }))

-- go app.Serve()
unfoldable pub serves : App → Outcome App
unfolding routes
serves app = and_then (routes server_routes app) (λ a. returns (starts serve a))

-- RegisterHealthAgent, its routes and, where it is started at once, its Run.
unfoldable pub with_health : Bool → Bool → App → Outcome App
unfolding register_health routes
with_health false runs app = returns app
with_health true runs app =
    and_then (routes health_routes (register_health app))
      (λ a. returns (if runs then starts health_run a else a))

unfoldable pub agent_cmd : Config → ProcessFlags → App → Outcome App
unfolding start_consul with_health register_agent routes serves
agent_cmd c f app =
    let app1 = start_api (start_consul f.run_consul app) in
    let app2 = exits_by (stop_agent ∷ stop_health_if_any ∷ []) app1 in
    and_then (with_health f.health_agent true app2) (λ a.
      and_then (routes agent_routes (register_agent c f a))
        (λ b. and_then (serves b) (λ d. returns (starts agent_run d))))

unfoldable pub health_agent_cmd : App → Outcome App
unfolding register_health routes serves
health_agent_cmd app =
    let app1 = exits_by (stop_health ∷ []) (start_api app) in
    and_then (routes health_routes (register_health app1))
      (λ a. and_then (serves a) (λ b. returns (starts health_run b)))

unfoldable pub discovery_cmd : App → Outcome App
unfolding register_discovery routes serves
discovery_cmd app =
    let app1 = exits_by (stop_discovery ∷ []) (start_api app) in
    and_then (routes discovery_routes (register_discovery app1))
      (λ a. and_then (serves a) (λ b. returns (starts discovery_run b)))

unfoldable pub scheduler_cmd : ProcessFlags → App → Outcome App
unfolding start_consul register_master routes serves
scheduler_cmd f app =
    let app1 = start_api (start_consul f.run_consul app) in
    let app2 = exits_by (stop_master ∷ []) (register_master f app1) in
    and_then (routes master_routes app2)
      (λ a. and_then (serves a) (λ b. returns (starts master_run b)))

unfoldable pub combined_cmd : Config → ProcessFlags → App → Outcome App
unfolding start_consul register_master register_agent routes with_health serves
combined_cmd c f app =
    let app1 = start_api (start_consul f.run_consul app) in
    let app2 = exits_by (stop_agent ∷ stop_master ∷ stop_health_if_any ∷ []) app1 in
    let app3 = register_agent c f (register_master f app2) in
    and_then (routes master_routes app3) (λ a. and_then (routes agent_routes a) (λ b.
      and_then (with_health f.health_agent false b) (λ d. and_then (serves d) (λ e.
        let both = starts master_run (starts agent_run e) in
        returns (if f.health_agent then starts health_run both else both)))))

pub data Command : Type 0 where
  agent health_agent discovery scheduler combined : Command

unfoldable pub launch : Config → ProcessFlags → Command → App → Outcome App
unfolding agent_cmd health_agent_cmd discovery_cmd scheduler_cmd combined_cmd
launch c f Command.agent app = agent_cmd c f app
launch c f Command.health_agent app = health_agent_cmd app
launch c f Command.discovery app = discovery_cmd app
launch c f Command.scheduler app = scheduler_cmd f app
launch c f Command.combined app = combined_cmd c f app

-- A Stop of an agent, a master or a discovery agent closes its channel; a nil pointer panics. The
-- master's Stop has released its locks before.
abbrev close_of {ℓ} : {A : Type ℓ} → Option (A × Signal) → Outcome (Option (A × Signal))
close_of none = panics
close_of (some (x, q)) = and_then (close q) (λ q'. returns (some (x, q')))

abbrev stop_health_of : Option HealthAgent → Outcome (Option HealthAgent)
stop_health_of none = panics
stop_health_of (some h) = and_then (Loop.stop h) (λ h'. returns (some h'))

abbrev stop_health_of_any : Option HealthAgent → Outcome (Option HealthAgent)
stop_health_of_any none = returns none
stop_health_of_any (some h) = stop_health_of (some h)

unfoldable pub exit_call : ExitCall → App → Outcome App
unfolding close consul_scheduler.Health.Loop.stop
exit_call stop_agent app = and_then (close_of app.agent) (λ x. returns (record app { agent = x }))
exit_call stop_master app =
    and_then (close_of app.master) (λ x. returns (record app { master = x }))
exit_call stop_discovery app =
    and_then (close_of app.discovery) (λ x. returns (record app { discovery = x }))
exit_call stop_health app =
    and_then (stop_health_of app.health) (λ x. returns (record app { health = x }))
exit_call stop_health_if_any app =
    and_then (stop_health_of_any app.health) (λ x. returns (record app { health = x }))

unfoldable pub exit_calls : List ExitCall → App → Outcome App
unfolding exit_call
exit_calls [] app = returns app
exit_calls (c ∷ cs) app = and_then (exit_call c app) (λ a. exit_calls cs a)

-- The goroutine of AtExit at the first signal.
unfoldable pub exit : App → Outcome App
unfolding exit_calls
exit app = exit_calls app.at_exit app
