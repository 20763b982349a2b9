-- ===== src/Health/Loop.antt =====
-- NewHealthAgent, Run and Stop of health/agent.go.
use consul_scheduler.Prelude.{
  String, Bool, true, false, Option, none, some, List, [], ◌∷◌, ◌≡◌, refl, ap, Assoc,
}
use consul_scheduler.Api.Results.{
  Outcome, returns, panics, and_then, WhenReturns, WhenReturns-and_then, WhenReturns-any,
}
use consul_scheduler.Api.Backend.{SchedulerApi}
use consul_scheduler.Api.Loops.{Trigger, event, timer, quit, Attempt, get_host_name, Signal, close}
use consul_scheduler.Health.Monitor.{Monitor}
use consul_scheduler.Health.Monitors.{sync}

pub record HealthAgent : Type 0 where
  pub host : String
  pub state : Assoc Monitor
  pub quit_chan : Signal

-- NewHealthAgent makes no channel.
abbrev pub new_health_agent : HealthAgent
new_health_agent = record { host = ""; state = []; quit_chan = none }

-- Stop, once every monitor has taken its message.
unfoldable pub stop : HealthAgent → Outcome HealthAgent
unfolding close
stop h = and_then (close h.quit_chan) (λ q. returns (record h { quit_chan = q }))

abbrev is_closed : Signal → Bool
is_closed (some b) = b
is_closed none = false

abbrev with_name : Option String → HealthAgent → HealthAgent
with_name none h = h
with_name (some n) h = record h { host = n }

module _ {S : Type 0} (api : SchedulerApi S) where
  -- One sync, whose error is dropped.
  unfoldable pub sync_once : S → HealthAgent → Outcome HealthAgent
  unfolding sync
  sync_once s h = and_then (sync api h.host s h.state) (λ r. returns (record h { state = r.0 }))

  -- The loop of Run: the agent then, and whether the loop has ended, which takes a closed channel.
  unfoldable pub run_loop : List (Trigger S) → HealthAgent → Outcome (HealthAgent × Bool)
  unfolding sync_once
  run_loop [] h = returns (h, false)
  run_loop (event s ∷ ts) h = and_then (sync_once s h) (λ h'. run_loop ts h')
  run_loop (timer s ∷ ts) h = and_then (sync_once s h) (λ h'. run_loop ts h')
  run_loop (quit ∷ ts) h =
      let later = run_loop ts h in
      elim (is_closed h.quit_chan) [ true ↦ returns (h, true) | false ↦ later ]

  unfoldable pub run :
      List (Attempt S) → List (Trigger S) → HealthAgent → Outcome (HealthAgent × Bool)
  unfolding get_host_name run_loop
  run attempts ts h = and_then (get_host_name api attempts) (λ name. run_loop ts (with_name name h))

  -- The agent can neither end nor be stopped.
  abbrev pub Unstoppable : HealthAgent × Bool → Type 0
  Unstoppable r = (r.1 ≡ false) × (stop r.0 ≡ panics)

  sync_once-quit :
      (s : S) (h : HealthAgent)
      → h.quit_chan ≡ none
      → WhenReturns (λ (x : HealthAgent). x.quit_chan ≡ none) (sync_once s h)
  unfolding sync_once
  sync_once-quit s h e =
      WhenReturns-and_then (λ r. Unit) (λ (x : HealthAgent). x.quit_chan ≡ none)
        (sync api h.host s h.state) _ (WhenReturns-any (sync api h.host s h.state)) (λ r u. e)

  loop-Unstoppable :
      (ts : List (Trigger S)) (h : HealthAgent)
      → h.quit_chan ≡ none
      → WhenReturns Unstoppable (run_loop ts h)
  unfolding run_loop stop
  loop-Unstoppable [] h e = (refl, rw e refl)
  loop-Unstoppable (event s ∷ ts) h e =
      WhenReturns-and_then (λ (x : HealthAgent). x.quit_chan ≡ none) Unstoppable (sync_once s h) _
        (sync_once-quit s h e) (λ h' e'. loop-Unstoppable ts h' e')
  loop-Unstoppable (timer s ∷ ts) h e =
      WhenReturns-and_then (λ (x : HealthAgent). x.quit_chan ≡ none) Unstoppable (sync_once s h) _
        (sync_once-quit s h e) (λ h' e'. loop-Unstoppable ts h' e')
  loop-Unstoppable (quit ∷ ts) h e =
      let c : is_closed h.quit_chan ≡ false = ap is_closed e in
      rw (c, WhenReturns) (loop-Unstoppable ts h e)

  -- A health agent as NewHealthAgent makes it, whose Run gets the host's name, never ends its loop,
  -- whatever happens, and Stop panics at every point.
  pub run-Unstoppable :
      (attempts : List (Attempt S)) (ts : List (Trigger S))
      → WhenReturns Unstoppable (run attempts ts new_health_agent)
  unfolding run
  run-Unstoppable attempts ts =
      WhenReturns-and_then (λ n. Unit) Unstoppable (get_host_name api attempts) _
        (WhenReturns-any (get_host_name api attempts))
        (elim [
          | none ↦ λ u. loop-Unstoppable ts new_health_agent refl
          | some n ↦ λ u. loop-Unstoppable ts (with_name (some n) new_health_agent) refl
        ])
