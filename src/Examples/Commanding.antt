-- ===== src/Examples/Commanding.antt =====
-- The theorems of the command line at its default settings.
use consul_scheduler.Prelude.{
  ℕ, ◌≤◌, ◌<◌, ◌≡◌, refl, ◌↔◌, ◌⊎◌, pos, String, true, false, none, some, [], ◌∷◌, Assoc, values,
  show, str_eq,
}
use consul_scheduler.Api.Types.{TaskQueryOpts}
use consul_scheduler.Api.Results.{returns, panics, Returns}
use consul_scheduler.Backends.Mock.{mock_api}
use consul_scheduler.Actions.Scale.{scale}
use consul_scheduler.Actions.Listing.{list_tasks, list_hosts}
use consul_scheduler.Actions.Listing.Printed.{IsPrinted, listings_print}
use consul_scheduler.Cli.Config.{Config, new_config}
use consul_scheduler.Cli.Processes.{
  ProcessFlags, App, new_app, combined, scheduler, launch, exit, serve, master_run, stop_master,
}
use consul_scheduler.Cli.Processes.Starting.{launch_panics_iff, exit_cases, AllClosed}
use consul_scheduler.Health.Loop.{new_health_agent}
use consul_scheduler.Cli.Commands.{number_error, scale_cmd}
use consul_scheduler.Cli.Commands.Numbers.{scale_cmd_cases}
use consul_scheduler.Examples.Fixtures.{store}

abbrev config : Config
config = new_config (record { address = "127.0.0.1:8500"; datacenter = ""; token = "" })

abbrev flags : ProcessFlags
flags = record {
  agent_sync_interval = pos 30000000000;
  agent_runners = pos 3;
  health_agent = true;
  scheduler_sync_interval = pos 30000000000;
  scheduler_runners = pos 0;
  scheduler_cluster = "";
  run_consul = "";
}

launch_panics_iff_example :
    (launch config flags combined new_app ≡ panics) ↔ ((combined ≡ combined) × (true ≡ true))
launch_panics_iff_example = launch_panics_iff config flags combined

scale_cmd_cases_example :
    ((10 < 8)
      × (scale_cmd mock_api ("site" ∷ show 10 ∷ []) store ≡ scale mock_api "site" (pos 10) store))
    ⊎ ((8 ≤ 10)
        × ((scale_cmd mock_api ("site" ∷ show 10 ∷ []) store ≡ (store, some number_error))
            ⊎ ((m : ℕ) × (m < 10)
                × (scale_cmd mock_api ("site" ∷ show 10 ∷ []) store
                    ≡ scale mock_api "site" (pos m) store))))
scale_cmd_cases_example = scale_cmd_cases mock_api "site" 10 store

lists : (q : TaskQueryOpts) → Returns (λ r. Unit {0}) (mock_api.list_tasks q store)
unfolding mock_api consul_scheduler.Backends.Mock.list_tasks
    consul_scheduler.Backends.Mock.list_loop values
lists q = tt

abbrev no_tags : Assoc String → String
no_tags m = "map[]"

listings_print_example :
    Returns IsPrinted (list_tasks mock_api "" "main" "" store)
    × Returns IsPrinted (list_hosts mock_api no_tags "main" store)
listings_print_example = listings_print mock_api store lists "" "main" "" "main" no_tags

-- A scheduler that has started.
abbrev scheduling : App
scheduling = record new_app {
  mux =
      "/stats" ∷ "/" ∷ "/scheduler/health" ∷ "/debug/pprof/" ∷ "/debug/pprof/cmdline"
      ∷ "/debug/pprof/profile" ∷ "/debug/pprof/symbol" ∷ "/debug/pprof/trace" ∷ [];
  master =
      some (record { runners = pos 0; sync_interval = pos 30000000000; cluster = "" }, some false);
  api_started = true;
  jobs = serve ∷ master_run ∷ [];
  at_exit = stop_master ∷ [];
}

scheduling_starts : launch config flags scheduler new_app ≡ returns scheduling
unfolding launch str_eq
scheduling_starts = refl

exit_cases_example :
    ((scheduling.health ≡ some new_health_agent) × (exit scheduling ≡ panics))
    ⊎ ((scheduling.health ≡ none) × Returns AllClosed (exit scheduling))
exit_cases_example = exit_cases config flags scheduler scheduling scheduling_starts
