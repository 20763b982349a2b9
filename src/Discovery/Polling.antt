-- ===== src/Discovery/Polling.antt =====
-- Listen, Run and the poll route of discovery/discovery.go. What happens to a call that waits is a
-- list of wake-ups, each with the agent as it is then.
use consul_scheduler.Prelude.{
  ℤ, pos, ltb_ℤ, String, Bool, true, false, Option, none, some, List, [], ◌∷◌, if◌then◌else◌,
  str_eq, lookup, insert,
}
use consul_scheduler.Prelude.Parse.{parse_int}
use consul_scheduler.Api.Types.{Endpoint}
use consul_scheduler.Api.Results.{Outcome, returns, hangs, and_then}
use consul_scheduler.Api.Backend.{SchedulerApi}
use consul_scheduler.Api.Loops.{Trigger, event, timer, quit}
use consul_scheduler.Backends.Events.{Chan}
use consul_scheduler.Discovery.{DiscoveryAgent, index_of, sync}

-- The cases of the select of Listen.
pub data Wake : Type 0 where
  named : String → Wake
  timeout : Wake
  stopped : Wake

pub record Answer : Type 0 where
  pub index : ℤ
  pub endpoints : List Endpoint

abbrev endpoints_of : Option (List Endpoint) → List Endpoint
endpoints_of none = []
endpoints_of (some es) = es

-- The service's endpoints and index, read with the agent's lock held.
unfoldable pub read_service : String → DiscoveryAgent → Answer
read_service service ag = record {
  index = index_of (lookup service ag.change_idx);
  endpoints = endpoints_of (lookup service ag.services);
}

-- The loop of Listen. With no further wake-up it waits for ever.
unfoldable pub listen_loop : String → List (Wake × DiscoveryAgent) → Outcome Answer
unfolding read_service
listen_loop service [] = hangs
listen_loop service ((named n, ag) ∷ rest) =
    let later = listen_loop service rest in
    if str_eq n service then returns (read_service service ag) else later
listen_loop service ((timeout, ag) ∷ rest) = returns (read_service service ag)
listen_loop service ((stopped, ag) ∷ rest) = returns (record { index = pos 0; endpoints = [] })

abbrev waiting_chan : Chan
waiting_chan = record { buffer = []; cap = 0; waiting = 1 }

-- Listen: the agent with the new channel among `subs`, where it stays, and the answer.
unfoldable pub listen :
    String
    → String
    → ℤ
    → List (Wake × DiscoveryAgent)
    → DiscoveryAgent
    → DiscoveryAgent × Outcome Answer
unfolding listen_loop
listen id service last_idx wakes ag =
    let now = read_service service ag in
    (
      record ag { subs = insert id waiting_chan ag.subs },
      if ltb_ℤ last_idx now.index then returns now else listen_loop service wakes,
    )

-- What the route /discovery/poll answers: a status of 400 with a text, or 200 with the answer.
pub data Reply : Type 0 where
  bad_request : String → Reply
  answered : String → Answer → Reply

unfoldable pub reply_to : String → Outcome Answer → Outcome Reply
reply_to service o = and_then o (λ a. returns (answered service a))

-- The index is read by ParseInt(idx, 16, 8).
unfoldable pub poll :
    String
    → String
    → String
    → List (Wake × DiscoveryAgent)
    → DiscoveryAgent
    → DiscoveryAgent × Outcome Reply
unfolding listen reply_to
poll id service idx wakes ag =
    if str_eq service ""
    then (ag, returns (bad_request "Service Not Provided"))
    else elim (parse_int 16 8 idx) [
      | none ↦ (ag, returns (bad_request "Could not retrieve index"))
      | some last_idx ↦
          let (ag', o) = listen id service last_idx wakes ag in (ag', reply_to service o)
    ]

-- Run: what wakes it is an event, the timer or the end.
module _ {S : Type 0} (api : SchedulerApi S) where
  -- One sync of Run, whose error is dropped.
  unfoldable pub sync_once : S → DiscoveryAgent → Outcome DiscoveryAgent
  unfolding sync
  sync_once s ag = and_then (sync api s ag) (λ r. returns r.0)

  -- Run: the agent after the triggers, and whether it has been told to quit.
  unfoldable pub run : List (Trigger S) → DiscoveryAgent → Outcome (DiscoveryAgent × Bool)
  unfolding sync_once
  run [] ag = returns (ag, false)
  run (event s ∷ ts) ag = and_then (sync_once s ag) (λ ag'. run ts ag')
  run (timer s ∷ ts) ag = and_then (sync_once s ag) (λ ag'. run ts ag')
  run (quit ∷ ts) ag = returns (ag, true)
