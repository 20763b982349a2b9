-- ===== src/Examples/Filling.antt =====
-- Schedule at the small cluster, with one of two tasks there.
use consul_scheduler.Prelude.{
  ◌*◌, ◌^◌, ◌<◌, pos, ◌<ℤ◌, length, ◌≡◌, refl, ◌≢◌, none, [], ◌∷◌, arith, str_eq, lookup, insert,
  values, show, show_ℤ,
}
use consul_scheduler.Api.Results.{ok, Returns}
use consul_scheduler.Api.Definitions.{task_name, task_id, new_task}
use consul_scheduler.Backends.Query.{passes}
use consul_scheduler.Backends.Mock.{MockApi, mock_api}
use consul_scheduler.Backends.Mock.Filling.{
  mock-TaskStore, mock_schedule_fills, running, IsStanding,
}
use consul_scheduler.Scheduler.Schedule.{Scheduler, add_hosts, schedule}
use consul_scheduler.Scheduler.Schedule.Filling.{Reads, IsFilled, cleaned, hosted, schedule_fills}
use consul_scheduler.Examples.Choosing.{host-IsKeyed}
use consul_scheduler.Examples.Scheduling.{fixed}
use consul_scheduler.Examples.Fixtures.{
  host_one, web_definition, site, main, placed_task, store_with_task, no_draw, ready_scheduler,
}

abbrev served : MockApi
served = record store_with_task { hosts = ("one", host_one) ∷ [] }

abbrev half_filled : Scheduler MockApi
half_filled = record ready_scheduler { store = served }

placed_id : task_id placed_task ≡ "main-site-1-0"
unfolding task_id task_name show consul_scheduler.Prelude.show_fuel show_ℤ new_task
placed_id = refl

placed_got : mock_api.get_task "main-site-1-0" served ≡ ok placed_task
unfolding mock_api consul_scheduler.Backends.Mock.find lookup str_eq
placed_got = refl

placed_stands : mock_api.get_task (task_id placed_task) served ≡ ok placed_task
placed_stands = rw placed_id placed_got

all-IsStanding : IsStanding served
unfolding values
all-IsStanding = (placed_stands, tt)

few_running : 3 * length (running main site served) < 2 ^ 63
unfolding passes values new_task str_eq
few_running = omega arith

one_short : pos (length (running main site served)) <ℤ pos 2
unfolding passes values new_task str_eq
one_short = omega arith

some_host : add_hosts half_filled.hosts (host_one ∷ []) ≢ []
unfolding add_hosts insert str_eq
some_host e = cc

reads :
    Reads mock_api no_draw 9 half_filled site main web_definition (host_one ∷ []) (placed_task ∷ [])
unfolding mock_api values consul_scheduler.Backends.Mock.list_tasks
    consul_scheduler.Backends.Mock.list_loop consul_scheduler.Backends.Mock.find lookup str_eq
    consul_scheduler.Backends.Query.asks_state passes new_task
    consul_scheduler.Backends.Mock.get_task_definition
reads = record { cluster = refl; hosts = refl; definition = refl; listing = refl }

schedule_fills_example :
    Returns
      (λ r.
        (r.1 ≡ none)
        × IsFilled mock_api no_draw 9 main web_definition site
            (cleaned mock_api no_draw 9 site
              (placed_task ∷ [])
              (hosted mock_api no_draw 9 half_filled (host_one ∷ [])))
            (r.0).store)
      (schedule mock_api no_draw 9 site half_filled)
schedule_fills_example =
    schedule_fills mock_api no_draw 9 half_filled site main web_definition (host_one ∷ [])
      (placed_task ∷ []) mock-TaskStore reads some_host host-IsKeyed
      ((omega arith, omega arith, omega arith), tt)
      (((λ e. cc), (omega arith, omega arith, omega arith)), tt) refl fixed (omega arith)
      (omega arith) (record { stored = placed_stands; scheduled = refl; named = refl }, tt)

one_listed : mock_api.list_hosts "main" served ≡ ok (host_one ∷ [])
unfolding mock_api values
one_listed = refl

mock_schedule_fills_example :
    Returns
      (λ r.
        (r.1 ≡ none)
        × IsFilled mock_api no_draw 9 main web_definition site
            (cleaned mock_api no_draw 9 site
              (running main site served)
              (hosted mock_api no_draw 9 half_filled (host_one ∷ [])))
            (r.0).store)
      (schedule mock_api no_draw 9 site half_filled)
mock_schedule_fills_example =
    mock_schedule_fills no_draw 9 half_filled site main web_definition (host_one ∷ []) refl
      one_listed reads.definition all-IsStanding some_host host-IsKeyed
      ((omega arith, omega arith, omega arith), tt)
      (((λ e. cc), (omega arith, omega arith, omega arith)), tt) refl fixed few_running one_short
