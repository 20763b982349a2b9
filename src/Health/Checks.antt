-- ===== src/Health/Checks.antt =====
-- The checks of health/health.go. Commands run on the machine; an HTTP client and a TCP dial, which
-- are not part of this repository, are the record Network over the machine's states.
use consul_scheduler.Prelude.{ℕ, String, ◌≡◌, refl, Option, some, [], ◌∷◌, if◌then◌else◌, str_eq}
use consul_scheduler.Api.Types.{Duration, Check, Task}
use consul_scheduler.Api.Results.{Error, failed, Result}
use consul_scheduler.Api.Backend.{SchedulerApi}
use consul_scheduler.Agent.Executors.{Machine}
use consul_scheduler.Health.Monitor.{HealthCheck, Monitor, http_result, round}
use consul_scheduler.Health.Monitors.{monitored}

-- The status code that an address answers with in a time, and whether an address can be dialled.
pub record Network (W : Type 0) : Type 0 where
  pub http_get : String → Duration → W → W × Result ℕ
  pub tcp_dial : String → W → W × Option Error

module _ {W : Type 0} (machine : Machine W) (net : Network W) where
  unfoldable pub check_http : HealthCheck → W → W × Option Error
  unfolding http_result
  check_http c w = let (w', r) = net.http_get c.http c.timeout w in (w', http_result r)

  -- The dial has no timeout.
  unfoldable pub check_tcp : HealthCheck → W → W × Option Error
  check_tcp c w = net.tcp_dial c.tcp w

  unfoldable pub check_script : HealthCheck → W → W × Option Error
  check_script c w = machine.exec [] c.timeout "sh" ("-c" ∷ c.script ∷ []) w

  unfoldable pub check_docker : HealthCheck → W → W × Option Error
  check_docker c w =
      machine.exec [] c.timeout "docker" ("exec" ∷ "-i" ∷ c.docker_id ∷ "sh" ∷ "-c" ∷ c.docker ∷ [])
        w

  unfoldable pub no_checks : W → W × Option Error
  no_checks w = (w, some (failed "no checks"))

  -- checkers[m.Type](m.Check); a type is one of the map's keys.
  unfoldable pub run_check : String → HealthCheck → W → W × Option Error
  unfolding check_http check_tcp check_script check_docker no_checks
  run_check kind c w =
      if str_eq kind "http"
      then check_http c w
      else if str_eq kind "tcp"
      then check_tcp c w
      else if str_eq kind "script"
      then check_script c w
      else if str_eq kind "docker"
      then check_docker c w
      else no_checks w

  -- One round of Monitor.Run, the check included.
  unfoldable pub checked_round : {S : Type 0} → SchedulerApi S → Monitor → S → W → (Monitor × S) × W
  unfolding run_check round
  checked_round api m s w = let (w', e) = run_check m.kind m.check w in (round api e (m, s), w')

  -- A Docker check of a task that the health agent's sync has taken up names no container.
  pub docker_check_unnamed :
      (t : Task) (c : Check) (w : W)
      → check_docker (monitored t c) w
        ≡ machine.exec [] c.timeout "docker" ("exec" ∷ "-i" ∷ "" ∷ "sh" ∷ "-c" ∷ c.docker ∷ []) w
  unfolding check_docker
  docker_check_unnamed t c w = refl
