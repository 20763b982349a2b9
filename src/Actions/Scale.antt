-- ===== src/Actions/Scale.antt =====
-- Drain and Scale of actions/tools.go.
pub mod Effects
use consul_scheduler.Prelude.{ℤ, ltb_ℤ, String, true, Option, some, if◌then◌else◌, str_eq}
use consul_scheduler.Api.Types.{Deployment}
use consul_scheduler.Api.Results.{Error, failed, ok, err}
use consul_scheduler.Api.Backend.{SchedulerApi}

module _ {S : Type 0} (api : SchedulerApi S) where
  unfoldable pub drain : String → String → S → S × Option Error
  drain cluster_name host_name s =
      if str_eq host_name ""
      then (s, some (failed "no host to scale"))
      else elim (api.get_host cluster_name host_name s) [
        | err e ↦ (s, some e)
        | ok h ↦ api.put_host (record h { draining = true }) s
      ]

  unfoldable pub rescaled : ℤ → Deployment → Deployment
  rescaled desired d = record d {
    min = if ltb_ℤ desired d.min then desired else d.min;
    max = if ltb_ℤ d.max desired then desired else d.max;
    desired = desired;
  }

  unfoldable pub scale : String → ℤ → S → S × Option Error
  unfolding rescaled
  scale service_name desired s =
      if str_eq service_name ""
      then (s, some (failed "no service to scale"))
      else elim (api.get_deployment service_name s) [
        | err e ↦ (s, some e)
        | ok d ↦ api.put_deployment (rescaled desired d) s
      ]
