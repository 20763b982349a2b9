-- ===== src/Examples/Looping.antt =====
-- The theorems of the loops of the agent, the health agent and the master at a short run.
use consul_scheduler.Prelude.{
  ◌≤◌, refl, ◌∙◌, pos, Bool, true, false, Option, none, some, List, [], ◌∷◌, ◌++◌, if◌then◌else◌,
  str_eq, length, lookup, insert, delete, values, inr, Assoc,
}
use consul_scheduler.Api.Results.{ok, Outcome, returns, hangs, panics, Returns, WhenReturns}
use consul_scheduler.Api.Loops.{asks, event, timer, quit}
use consul_scheduler.Backends.Mock.{MockApi, mock_api, find}
use consul_scheduler.Agent.Loop.{Process, wakes, stops, run}
use consul_scheduler.Health.Loop.{new_health_agent, Unstoppable, run-Unstoppable}
use consul_scheduler.Master.Lockers.{LockApi, LockLaws, lock_service, take_lock}
use consul_scheduler.Master.Dispatch.{Master, master_schedule}
use consul_scheduler.Master.Dispatch.Release.{
  Released, NoNil, ComesBack, locked_scheduler, master_schedule-Released,
}
use consul_scheduler.Agent.State.{Agent}
use consul_scheduler.Examples.Fixtures.{main, store, no_draw, ready_scheduler}
use consul_scheduler.Examples.Running.{machine, idle}

run-Unstoppable_example : WhenReturns (Unstoppable mock_api) (
    consul_scheduler.Health.Loop.run mock_api
      (asks store ∷ [])
      (event store ∷ quit ∷ timer store ∷ [])
      new_health_agent)
run-Unstoppable_example =
    run-Unstoppable mock_api (asks store ∷ []) (event store ∷ quit ∷ timer store ∷ [])

-- A lock that nobody else holds.
flag_locks : LockApi Bool MockApi
flag_locks = record {
  new_lock = λ k s. ok false;
  acquire = λ l s. (true, s, none);
  release = λ l s. (false, s);
  is_held = λ l s. l;
}

flag_locks-LockLaws : LockLaws flag_locks
unfolding flag_locks
flag_locks-LockLaws = record { release_frees = λ l s. refl }

-- No host is known, so that Schedule comes back with an error.
abbrev master : Master Bool MockApi
master = record {
  schedulers = "" ∷ [];
  scheduler = record ready_scheduler { hosts = [] };
  locks = [];
}

hostless :
    ComesBack mock_api flag_locks no_draw 9 "main" "site"
      (locked_scheduler mock_api flag_locks no_draw 9 "main:site" master)
unfolding consul_scheduler.Scheduler.Schedule.schedule consul_scheduler.Scheduler.Schedule.add_hosts
    mock_api values flag_locks lock_service take_lock lookup
hostless c d e f = tt

main_found :
    NoNil mock_api flag_locks no_draw 9 "main"
      (locked_scheduler mock_api flag_locks no_draw 9 "main:site" master)
unfolding mock_api find flag_locks lock_service take_lock lookup str_eq
main_found = inr (main, refl)

master_schedule-Released_example :
    Returns
      (Released mock_api flag_locks no_draw 9 "main:site")
      (master_schedule mock_api flag_locks no_draw 9 "main" "site" master)
unfolding flag_locks lock_service take_lock lookup
master_schedule-Released_example =
    master_schedule-Released mock_api flag_locks no_draw 9 flag_locks-LockLaws "main" "site" master
      true refl main_found hostless

-- A new agent does not know its host's name yet.
abbrev fresh : Agent MockApi (Unit {0})
fresh = record idle { host = "" }

abbrev unset : Process MockApi (Unit {0})
unset = record { agent = idle; listeners = []; file = none }

abbrev process_of : Outcome (Process MockApi (Unit {0})) → Process MockApi (Unit {0})
process_of (returns p) = p
process_of hangs = unset
process_of panics = unset

-- A Run that is told to stop after one message.
abbrev run_once : Outcome (Process MockApi (Unit {0}))
run_once =
    run mock_api machine delete (pos 1) none (asks store ∷ [])
      ((wakes (pos 2) store ∷ []) ++ stops ∷ []) [] fresh
