-- ===== src/Actions/Scale/Effects.antt =====
-- What Drain and Scale leave behind.
use consul_scheduler.Prelude.{
  ℤ, ◌≤ℤ◌, String, ◌≡◌, refl, ◌≢◌, ◌⊎◌, inl, inr, true, false, none, [], arith, str_eq, str_eq_iff,
  str_eq_ne, Bool-cases,
}
use consul_scheduler.Api.Types.{Deployment}
use consul_scheduler.Api.Results.{ok, is_ok, Result-cases}
use consul_scheduler.Api.Backend.{SchedulerApi}
use consul_scheduler.Api.Validate.{validate_deployment}
use consul_scheduler.Actions.Scale.{rescaled, scale}

module _ {S : Type 0} (api : SchedulerApi S) where
  -- A deployment with a name whose task definition exists passes Validate after it has been scaled,
  -- whatever number is wanted; it desires that number, its minimum is not raised and its maximum is not
  -- lowered.
  pub rescaled_valid :
      (desired : ℤ) (d : Deployment) (s : S)
      → d.name ≢ ""
      → is_ok (api.get_task_definition d.task_name d.task_version s) ≡ true
      → (validate_deployment api s (rescaled api desired d) ≡ [])
        × ((rescaled api desired d).desired ≡ desired)
        × ((rescaled api desired d).min ≤ℤ d.min)
        × (d.max ≤ℤ (rescaled api desired d).max)
  unfolding rescaled validate_deployment
  rescaled_valid desired d s n known =
      let named : str_eq d.name "" ≡ false = str_eq_ne d.name "" n in
      (ground arith, refl, ground arith, ground arith)

  -- Scale fails and writes nothing if no name is given or the deployment cannot be read; else it
  -- writes the rescaled deployment, once.
  pub scale_cases :
      (name : String) (desired : ℤ) (s : S)
      → (((name ≡ "") ⊎ (is_ok (api.get_deployment name s) ≡ false))
          × ((scale api name desired s).0 ≡ s)
          × ((scale api name desired s).1 ≢ none))
        ⊎ ((d : Deployment) × (name ≢ "")
            × (api.get_deployment name s ≡ ok d)
            × (scale api name desired s ≡ api.put_deployment (rescaled api desired d) s))
  unfolding scale
  scale_cases name desired s = elim (Bool-cases (str_eq name "")) [
    | inl e ↦ inl (inl ((str_eq_iff name "").0 e), rw e, rw e (λ q. cc))
    | inr e ↦ elim (Result-cases (api.get_deployment name s)) [
      | inl (d, g) ↦ inr (d, (λ q. cc ((str_eq_iff name "").1 q)), g, rw (e, g, scale))
      | inr (x, g) ↦ inl (inr (rw g), rw (e, g, scale), rw (e, g, scale) (λ q. cc))
    ]
  ]
