-- ===== src/Api/Loops.antt =====
-- What the loops of the agents and of the master wait for, and how the agents learn their host's
-- name: GetHostName of agent/agent.go, which health/agent.go repeats.
use consul_scheduler.Prelude.{String, Bool, true, false, Option, none, some, List, [], ◌∷◌}
use consul_scheduler.Api.Results.{ok, err, Outcome, returns, hangs, panics}
use consul_scheduler.Api.Backend.{SchedulerApi}

-- A message on a subscription or the timer, with the backend as it is then, or the channel that ends
-- the loop.
pub data Trigger (S : Type 0) : Type 0 where
  event : S → Trigger S
  timer : S → Trigger S
  quit : Trigger S

-- One round of GetHostName: it is told to stop, or it asks the backend.
pub data Attempt (S : Type 0) : Type 0 where
  told_to_stop : Attempt S
  asks : S → Attempt S

-- A channel that is only closed: none is a nil channel, and the value tells whether it is closed.
abbrev pub Signal : Type 0
Signal = Option Bool

-- close(ch), which panics at a nil channel and at one that is closed
unfoldable pub close : Signal → Outcome Signal
close none = panics
close (some true) = panics
close (some false) = returns (some true)

module _ {S : Type 0} (api : SchedulerApi S) where
  -- The name, or none where the loop was told to stop. With no further round it waits for ever.
  unfoldable pub get_host_name : List (Attempt S) → Outcome (Option String)
  get_host_name [] = hangs
  get_host_name (told_to_stop ∷ rest) = returns none
  get_host_name (asks s ∷ rest) =
      let later = get_host_name rest in
      elim (api.host_name s) [ ok name ↦ returns (some name) | err e ↦ later ]
