-- ===== src/Examples/Scheduling.antt =====
-- The scheduler's theorems at the small cluster.
use consul_scheduler.Prelude.{
  ℕ, ℤ, ◌≤◌, ◌<◌, ◌+ℤ◌, ◌*ℤ◌, ◌-ℤ◌, pos, ◌≤ℤ◌, ◌<ℤ◌, wrap64, add64, sub64, mul64, ◌≡◌, refl, subst,
  ◌≢◌, ◌⊎◌, inl, true, not, none, some, List, [], ◌∷◌, arith, if◌then◌else◌, str_eq, length, All,
  lookup, insert, values, show, show_ℤ,
}
use consul_scheduler.Api.Types.{Host, Task}
use consul_scheduler.Api.Results.{
  failed, Result, ok, Outcome, returns, hangs, panics, Ensures, Returns,
}
use consul_scheduler.Api.Definitions.{make_task_id, new_task}
use consul_scheduler.Scheduler.Schedule.Keeps.{IsGood}
use consul_scheduler.Scheduler.Schedule.Returning.{run_pass-Returns, FixedContainers}
use consul_scheduler.Scheduler.Schedule.Settled.{run_pass_settled, IsSettled}
use consul_scheduler.Scheduler.Schedule.Syncing.{
  schedule_error_untouched, schedule-Kept, Kept, IsReady, ListedHost,
}
use consul_scheduler.Backends.Mock.{MockApi, mock_api}
use consul_scheduler.Backends.Mock.Laws.{AllAccepted, mock-Contract}
use consul_scheduler.Examples.Choosing.{host-IsKeyed}
use consul_scheduler.Examples.Fixtures.{
  host_one, web, web_definition, site, main, placed_task, no_draw, first_pass, ready_scheduler,
}
use consul_scheduler.Scheduler.Schedule.{Scheduler, Pass, run_pass, schedule}

pub fixed : FixedContainers (web ∷ [])
fixed = (((λ e. absurd (omega (arith, e))), tt), tt)

first-IsGood : IsGood mock_api AllAccepted first_pass
first-IsGood = record {
  keyed = host-IsKeyed;
  fit = ((omega arith, omega arith, omega arith), tt);
  kept = tt;
}

run_pass-Returns_example :
    Returns
      (IsGood mock_api AllAccepted)
      (run_pass mock_api no_draw 9 main web_definition site [] first_pass)
run_pass-Returns_example =
    run_pass-Returns mock_api no_draw 9 AllAccepted mock-Contract main web_definition site []
      first_pass fixed first-IsGood

-- The upward loop from no task, and the pass that it ends in: the one host takes one task, since
-- the second wants the same port.
abbrev or_first : Outcome (Pass MockApi) → Pass MockApi
or_first (returns p) = p
or_first hangs = first_pass
or_first panics = first_pass

above : sub64 (pos 2) (pos 1) <ℤ pos 3
unfolding sub64 wrap64 ◌-ℤ◌
above = omega arith

below : pos 3 ≤ℤ sub64 (sub64 (pos 4) (pos 0)) (pos 1)
unfolding sub64 wrap64 ◌-ℤ◌
below = omega arith

-- Three tasks where two are wanted, whose instances are all above the count.
abbrev high_task : ℤ → Task
high_task i = record placed_task { instance_no = i }

abbrev settled_pass : Pass MockApi
settled_pass = record first_pass {
  task_map =
      ("main-site-1-7", high_task (pos 7))
      ∷ ("main-site-1-8", high_task (pos 8))
      ∷ ("main-site-1-9", high_task (pos 9))
      ∷ [];
}

high-IsSettled : (i : ℤ) → IsSettled (("one", host_one) ∷ []) site 3 (high_task i)
unfolding lookup str_eq new_task
high-IsSettled i = record { placed = (host_one, refl); accepted = refl; version = inl refl }

no_third : lookup (make_task_id main site (pos 2)) settled_pass.task_map ≡ none
unfolding make_task_id lookup str_eq show_ℤ show consul_scheduler.Prelude.show_fuel
no_third = refl

only_third :
    (i : ℕ) → 2 ≤ i → i < 3 → lookup (make_task_id main site (pos i)) settled_pass.task_map ≡ none
only_third i low high = let is : i ≡ 2 = omega arith in rw is no_third

abbrev three_tasks : List Task
three_tasks = high_task (pos 7) ∷ high_task (pos 8) ∷ high_task (pos 9) ∷ []

run_pass_settled_example :
    run_pass mock_api no_draw 9 main web_definition site three_tasks settled_pass
    ≡ returns settled_pass
run_pass_settled_example =
    run_pass_settled mock_api no_draw 9 main web_definition site 2 three_tasks settled_pass
      (omega arith) (omega arith) refl refl
      (high-IsSettled (pos 7), (high-IsSettled (pos 8), (high-IsSettled (pos 9), tt))) only_third

abbrev unset_scheduler : Scheduler MockApi
unset_scheduler = record ready_scheduler { cluster = none }

unset_fails :
    schedule mock_api no_draw 9 site unset_scheduler
    ≡ returns (unset_scheduler, some (failed "cluster was not set"))
unfolding schedule
unset_fails = refl

schedule_error_untouched_example : unset_scheduler.store ≡ unset_scheduler.store
schedule_error_untouched_example =
    schedule_error_untouched mock_api no_draw 9 site unset_scheduler unset_scheduler
      (failed "cluster was not set") unset_fails

ok_inj : {hs : List Host} → ok [] ≡ ok hs → [] ≡ hs
ok_inj e = cc

no_panic : {l : Result (List Task)} → returns l ≢ panics
no_panic e = cc

ready : IsReady mock_api AllAccepted ready_scheduler
unfolding mock_api values consul_scheduler.Backends.Mock.list_tasks
    consul_scheduler.Backends.Mock.list_loop
ready = record {
  keyed = host-IsKeyed;
  fit = ((omega arith, omega arith, omega arith), tt);
  kept = tt;
  lists_hosts = λ c hosts e. subst (All ListedHost) (ok_inj e) tt;
  lists_tasks = λ c d. no_panic;
}

schedule-Kept_example :
    Ensures (Kept mock_api AllAccepted) (schedule mock_api no_draw 9 site ready_scheduler)
schedule-Kept_example =
    schedule-Kept mock_api AllAccepted no_draw 9 mock-Contract site ready_scheduler ready
