-- ===== src/Discovery/Silent.antt =====
-- What Run of discovery/discovery.go does, where nothing receives from the channel of changes.
use consul_scheduler.Prelude.{
  String, Bool, true, false, ◌≡◌, refl, ◌↔◌, ◌⊎◌, inl, inr, ap, ◌∙◌, Option, none, List, [], ◌∷◌,
  lookup,
}
use consul_scheduler.Api.Types.{Service, Endpoint, TaskQueryOpts}
use consul_scheduler.Api.Results.{
  Error, ok, err, Outcome, returns, hangs, Result-cases, Returns, Returns-and_then, Returns-value,
  and_then,
}
use consul_scheduler.Api.Backend.{SchedulerApi}
use consul_scheduler.Api.Loops.{Trigger, event, timer, quit}
use consul_scheduler.Discovery.{
  changed, DiscoveryAgent, new_agent, announce, store_endpoints, endpoints, running_of, services_of,
  sync_services, sync,
}
use consul_scheduler.Discovery.Polling.{sync_once, run}

module _ {S : Type 0} (api : SchedulerApi S)
    (lists : (q : TaskQueryOpts) (s : S) → Returns (λ r. Unit) (api.list_tasks q s))
    (managing : List String) where
  endpoints_return : (name : String) (s : S) → Returns (λ r. Unit) (endpoints api name s)
  unfolding endpoints
  endpoints_return name s = elim (Result-cases (api.get_service name s)) [
    | inr (x, e) ↦ rw (e, endpoints) tt
    | inl (v, e) ↦
        rw (e, endpoints)
          (Returns-and_then (λ r. Unit) (λ r. Unit) (api.list_tasks (running_of api v) s) _
            (lists (running_of api v) s) (elim [ ok ts ↦ λ u. tt | err x ↦ λ u. tt ]))
  ]

  -- There is a first service to look at, and its endpoints can be read.
  pub record HasFirst (s : S) : Type 0 where
    pub first : Service
    pub rest : List Service
    pub new : List Endpoint
    pub found : services_of api managing s ≡ ok (first ∷ rest)
    pub reads : endpoints api first.name s ≡ returns (ok new)

  abbrev ag : DiscoveryAgent
  ag = new_agent managing

  -- A sync of a new agent waits for ever at a first service, or it changes nothing.
  sync-cases :
      (s : S)
      → (HasFirst s × (sync api s ag ≡ hangs))
        ⊎ ((¬ HasFirst s) × ((e : Option Error) × (sync api s ag ≡ returns (ag, e))))
  unfolding sync sync_services changed lookup store_endpoints announce
  sync-cases s = elim (Result-cases (services_of api managing s)) [
    | inr (x, e) ↦ inr ((λ h. cc (h.found, e)), (Option.some x, rw (e, sync) refl))
    | inl ([], e) ↦ inr ((λ h. cc (h.found, e)), (none, rw (e, sync) refl))
    | inl (v ∷ vs, e) ↦
        let (got, back) =
          Returns-value (λ r. Unit) (endpoints api v.name s) (endpoints_return v.name s) in
        elim (Result-cases got) [
          | inr (x, f) ↦ inr (
            (λ h. cc (h.found, e, h.reads, back, f)),
            (Option.some x, rw (e, back, f, sync) refl),
          )
          | inl (new, f) ↦
              let reads = back ∙ ap (λ r. returns r) f in
              inl (
                record { first = v; rest = vs; new = new; found = e; reads = reads },
                rw (e, reads, sync) refl,
              )
        ]
  ]

  -- Some sync before the end of Run has a first service.
  abbrev pub Meets : List (Trigger S) → Type 0
  Meets [] = ⊥
  Meets (event s ∷ ts) = HasFirst s ⊎ Meets ts
  Meets (timer s ∷ ts) = HasFirst s ⊎ Meets ts
  Meets (quit ∷ ts) = ⊥

  woken :
      (s : S) (k : DiscoveryAgent → Outcome (DiscoveryAgent × Bool)) (M : Type 0)
      → ((k ag ≡ hangs) ↔ M) × (¬ M → (ended : Bool) × (k ag ≡ returns (ag, ended)))
      → let r = and_then (sync_once api s ag) k in
        ((r ≡ hangs) ↔ (HasFirst s ⊎ M))
        × (¬ (HasFirst s ⊎ M) → (ended : Bool) × (r ≡ returns (ag, ended)))
  unfolding sync_once
  woken s k M (iff, quiet) = elim (sync-cases s) [
    | inl (first, e) ↦ rw e (((λ h. inl first), (λ m. refl)), (λ n. absurd (n (inl first))))
    | inr (calm, (x, e)) ↦ rw e (
      ((λ h. inr (iff.0 h)), elim [ inl f ↦ absurd (calm f) | inr m ↦ iff.1 m ]),
      (λ n. quiet (λ m. n (inr m))),
    )
  ]

  -- A Run of an agent that New has made, at any sequence of messages, timers and the end, where the
  -- listings of tasks come back: it waits for ever, with the agent's lock held, exactly if some sync
  -- before its end finds a first service whose endpoints can be read. Otherwise it leaves the agent as
  -- New made it, with no endpoint of any service.
  pub run-Meets_iff :
      (ts : List (Trigger S))
      → ((run api ts ag ≡ hangs) ↔ Meets ts)
        × (¬ Meets ts → (ended : Bool) × (run api ts ag ≡ returns (ag, ended)))
  unfolding run
  run-Meets_iff [] = (((λ h. cc), (λ m. absurd m)), (λ n. (false, refl)))
  run-Meets_iff (quit ∷ ts) = (((λ h. cc), (λ m. absurd m)), (λ n. (true, refl)))
  run-Meets_iff (event s ∷ ts) = woken s (run api ts) (Meets ts) (run-Meets_iff ts)
  run-Meets_iff (timer s ∷ ts) = woken s (run api ts) (Meets ts) (run-Meets_iff ts)
