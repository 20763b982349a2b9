-- ===== src/Cli/Processes/Starting.antt =====
-- Which processes start, and which of them can be told to end.
use consul_scheduler.Prelude.{
  true-false, pos, ◌≡◌, refl, sym, ◌∙◌, ◌≢◌, ◌↔◌, ◌⊎◌, inl, inr, subst, Bool, true, false, Option,
  none, some, Bool-cases, str_eq,
}
use consul_scheduler.Api.Types.{Resources}
use consul_scheduler.Api.Results.{returned, returns, panics, Returns}
use consul_scheduler.Api.Loops.{Signal}
use consul_scheduler.Health.Loop.{new_health_agent}
use consul_scheduler.Agent.Setup.{AgentConfig, new_agent}
use consul_scheduler.Cli.Config.{Config}
use consul_scheduler.Cli.Processes.{
  ProcessFlags, App, new_app, Command, agent, health_agent, discovery, scheduler, combined, launch,
  exit,
}

returns_panics : {A : Type 0} {x : A} → returns x ≢ panics
returns_panics e = cc

abbrev pub IsClosed {ℓ} : {A : Type ℓ} → Option (A × Signal) → Type 0
IsClosed none = Unit
IsClosed (some (x, q)) = q ≡ some true

-- Every part of the process has had its channel closed.
abbrev pub AllClosed : App → Type 0
AllClosed app = IsClosed app.agent × IsClosed app.master × IsClosed app.discovery

abbrev pub Exits : App → Type 0
Exits app =
    ((app.health ≡ some new_health_agent) × (exit app ≡ panics))
    ⊎ ((app.health ≡ none) × Returns AllClosed (exit app))

module _ (c : Config) (f : ProcessFlags) where
  -- A process panics on its way up exactly when it is the combined one and is asked to run the health
  -- agent as well: the routes of all others have no pattern twice.
  pub launch_panics_iff :
      (k : Command) → (launch c f k new_app ≡ panics) ↔ ((k ≡ combined) × (f.health_agent ≡ true))
  unfolding launch str_eq
  launch_panics_iff agent = elim (Bool-cases f.health_agent) [
    | inl h ↦ ((λ e. absurd (returns_panics (rw h at e))), (λ e. cc (e.0)))
    | inr h ↦ ((λ e. absurd (returns_panics (rw h at e))), (λ e. cc (e.0)))
  ]
  launch_panics_iff health_agent = ((λ e. absurd (returns_panics e)), (λ e. cc (e.0)))
  launch_panics_iff discovery = ((λ e. absurd (returns_panics e)), (λ e. cc (e.0)))
  launch_panics_iff scheduler = ((λ e. absurd (returns_panics e)), (λ e. cc (e.0)))
  launch_panics_iff combined = elim (Bool-cases f.health_agent) [
    | inl h ↦ ((λ e. (refl, h)), (λ e. rw h refl))
    | inr h ↦
        ((λ e. absurd (returns_panics (rw h at e))), (λ e. absurd (true-false (sym (e.1) ∙ h))))
  ]

  Exits-agent :
      (b : Bool)
      → f.health_agent ≡ b
      → (app : App) → launch c f agent new_app ≡ returns app
      → Exits app
  unfolding launch str_eq exit
  Exits-agent true h app e = subst Exits (returned (rw h at e)) (inl (refl, refl))
  Exits-agent false h app e = subst Exits (returned (rw h at e)) (inr (refl, (refl, tt, tt)))

  Exits-combined :
      (b : Bool)
      → f.health_agent ≡ b
      → (app : App) → launch c f combined new_app ≡ returns app
      → Exits app
  unfolding launch str_eq exit
  Exits-combined true h app e = absurd (returns_panics (sym (rw h at e)))
  Exits-combined false h app e = subst Exits (returned (rw h at e)) (inr (refl, (refl, refl, tt)))

  -- At a signal a process that has started either has a health agent, and its exit function panics,
  -- or has none, and its exit function comes back with the channels of all its parts closed.
  pub exit_cases : (k : Command) (app : App) → launch c f k new_app ≡ returns app → Exits app
  unfolding launch str_eq exit
  exit_cases agent app e = Exits-agent f.health_agent refl app e
  exit_cases health_agent app e = subst Exits (returned e) (inl (refl, refl))
  exit_cases discovery app e = subst Exits (returned e) (inr (refl, (tt, tt, refl)))
  exit_cases scheduler app e = subst Exits (returned e) (inr (refl, (tt, refl, tt)))
  exit_cases combined app e = Exits-combined f.health_agent refl app e

  -- An agent that is set up has no resources of its own and no cluster.
  abbrev IsUnlimited : Option (AgentConfig × Signal) → Type 0
  IsUnlimited none = Unit
  IsUnlimited (some (conf, q)) =
      (conf.resources ≡ some (record { memory = pos 0; cpu_units = pos 0; disk_space = pos 0 }))
      × (conf.cluster ≡ "")

  agent_set_up :
      (k : Command) (b : Bool)
      → f.health_agent ≡ b
      → (app : App) → launch c f k new_app ≡ returns app
      → IsUnlimited app.agent
  unfolding launch str_eq
  agent_set_up agent true h app e =
      subst (λ (x : App). IsUnlimited x.agent) (returned (rw h at e)) (refl, refl)
  agent_set_up agent false h app e =
      subst (λ (x : App). IsUnlimited x.agent) (returned (rw h at e)) (refl, refl)
  agent_set_up health_agent b h app e = subst (λ (x : App). IsUnlimited x.agent) (returned e) tt
  agent_set_up discovery b h app e = subst (λ (x : App). IsUnlimited x.agent) (returned e) tt
  agent_set_up scheduler b h app e = subst (λ (x : App). IsUnlimited x.agent) (returned e) tt
  agent_set_up combined true h app e = absurd (returns_panics (sym (rw h at e)))
  agent_set_up combined false h app e =
      subst (λ (x : App). IsUnlimited x.agent) (returned (rw h at e)) (refl, refl)

  -- The agent of a process that has started offers exactly what its machine has free: no flag
  -- limits it, and its cluster is left to the default.
  pub agent_resources :
      {S W : Type 0} (k : Command) (app : App) (conf : AgentConfig) (q : Signal) (found : Resources)
      (s : S) (w : W)
      → launch c f k new_app ≡ returns app
      → app.agent ≡ some (conf, q)
      → ((new_agent found conf s w).resources ≡ found) × (conf.cluster ≡ "")
  unfolding new_agent
  agent_resources k app conf q found s w e h =
      let (r, cl) = subst IsUnlimited h (agent_set_up k f.health_agent refl app e) in
      (rw r refl, cl)
