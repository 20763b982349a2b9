-- ===== src/Master/Loop.antt =====
-- NewMaster, Run, monitor, worker and garbageCollector of master/master.go.
pub mod Listening
pub mod Hearing
use consul_scheduler.Prelude.{
  ℕ, suc, ℤ, pos, eqb_ℤ, String, Bool, true, false, none, List, [], ◌∷◌, ◌++◌, if◌then◌else◌,
  str_eq, Assoc, insert,
}
use consul_scheduler.Api.Types.{Duration, is_none}
use consul_scheduler.Api.Results.{Outcome, returns, and_then}
use consul_scheduler.Api.Backend.{SchedulerApi}
use consul_scheduler.Backends.Events.{Chan, Listener}
use consul_scheduler.Master.Queue.{Request}
use consul_scheduler.Master.Lockers.{LockApi}
use consul_scheduler.Master.Dispatch.{dispatch_all, run_garbage_collect, Master, master_schedule}

pub record MasterConfig : Type 0 where
  pub runners : ℤ
  pub sync_interval : Duration
  pub cluster : String

-- The defaults that Run fills in.
unfoldable pub with_defaults : MasterConfig → MasterConfig
unfolding is_none
with_defaults c = record {
  runners = if eqb_ℤ c.runners (pos 0) then pos 3 else c.runners;
  sync_interval = if is_none c.sync_interval then pos 30000000000 else c.sync_interval;
  cluster = if str_eq c.cluster "" then "default" else c.cluster;
}

-- NewMaster over a store, and the schedulers that Run registers: one scheduler under three names.
abbrev pub new_master : {L S : Type 0} → S → Master L S
new_master s = record {
  schedulers = [];
  scheduler = record { cluster = none; hosts = []; max_port = []; store = s };
  locks = [];
}

unfoldable pub register_schedulers : {L S : Type 0} → Master L S → Master L S
register_schedulers m = record m { schedulers = m.schedulers ++ "" ∷ "spread" ∷ "binpack" ∷ [] }

-- What wakes monitor, with the backend as it is then: a message on listenConfig, a message on
-- listenHealth, the timer, or the end.
pub data Notice (S : Type 0) : Type 0 where
  config : S → Notice S
  health : S → Notice S
  timer : S → Notice S
  ending : Notice S

-- What monitor does to the others: the requests that it pushes, the signals to the garbage
-- collection, and the listeners of the backend.
pub record Effects : Type 0 where
  pub pushed : List Request
  pub signals : ℕ
  pub listeners : Assoc Listener

abbrev pub hundred : Chan
hundred = record { buffer = []; cap = 100; waiting = 0 }

unfoldable pub subscribe_monitor : Assoc Listener → Assoc Listener
subscribe_monitor ls =
    insert "dispatch-health" (record { on = "health::node:failing:*"; ch = hundred })
      (insert "dispatch-config" (record { on = "config::*"; ch = hundred }) ls)

module _ {S : Type 0} (api : SchedulerApi S) (cluster : String) where
  -- s.dispatchAll(); an error is only logged.
  unfoldable pub dispatched : S → Effects → Effects
  unfolding dispatch_all
  dispatched s f = record f { pushed = f.pushed ++ (dispatch_all api cluster s).0 }

  -- The loop of monitor, and whether it has ended.
  unfoldable pub monitor_loop : List (Notice S) → Effects → Effects × Bool
  unfolding dispatched
  monitor_loop [] f = (f, false)
  monitor_loop (config s ∷ ns) f =
      let g = dispatched s f in monitor_loop ns (record g { signals = suc g.signals })
  monitor_loop (health s ∷ ns) f = monitor_loop ns (dispatched s f)
  monitor_loop (timer s ∷ ns) f = monitor_loop ns (dispatched s f)
  monitor_loop (ending ∷ ns) f = (f, true)

  -- The two deferred calls name "dispatch". `unsubscribe` is the backend's UnSubscribe.
  unfoldable pub unsubscribed :
      (String → Assoc Listener → Assoc Listener) → Effects × Bool → Effects × Bool
  unsubscribed unsubscribe (f, ended) = (
    (if ended
        then record f { listeners = unsubscribe "dispatch" (unsubscribe "dispatch" f.listeners) }
        else f),
    ended,
  )

  unfoldable pub monitor :
      (String → Assoc Listener → Assoc Listener) → List (Notice S) → Effects → Effects × Bool
  unfolding monitor_loop subscribe_monitor unsubscribed
  monitor unsubscribe ns f =
      unsubscribed unsubscribe
        (monitor_loop ns (record f { listeners = subscribe_monitor f.listeners }))

  -- garbageCollector: a run for each signal, over the backend as it is then.
  unfoldable pub garbage_collector : List S → S → Outcome S
  unfolding run_garbage_collect
  garbage_collector [] s = returns s
  garbage_collector (s' ∷ rest) s =
      and_then (run_garbage_collect api cluster s') (λ r. garbage_collector rest r.0)

-- What a worker gets: a request from the queue, with the backend as it is then, or the end.
pub data Work (S : Type 0) : Type 0 where
  item : Request → S → Work S
  ending : Work S

module _ {L S : Type 0} (api : SchedulerApi S) (lock_api : LockApi L S) (draw : ℕ → ℕ → ℕ)
    (fuel : ℕ) where
  unfoldable pub worker : List (Work S) → Master L S → Outcome (Master L S × Bool)
  unfolding master_schedule
  worker [] m = returns (m, false)
  worker (item r s ∷ ws) m =
      and_then
        (master_schedule api lock_api draw fuel r.cluster r.service
          (record m { scheduler = record (m.scheduler) { store = s } }))
        (λ m'. worker ws m')
  worker (Work.ending ∷ ws) m = returns (m, true)
