-- ===== src/Health/Monitor.antt =====
-- health/health.go: a monitor and one round of its loop. The outcome of a check is an argument.
pub mod Statuses
use consul_scheduler.Prelude.{
  ℕ, ℤ, pos, ltb_ℤ, leb_ℤ, eqb_ℤ, add64, String, not, ◌&&◌, ◌||◌, Option, none, some, List, [], ◌∷◌,
  ltb, leb, if◌then◌else◌, str_eq,
}
use consul_scheduler.Api.Types.{Duration, TaskState, pending, running, warning, failing}
use consul_scheduler.Api.Results.{Error, failed, Result, ok, err}
use consul_scheduler.Api.Definitions.{task_id}
use consul_scheduler.Api.Backend.{SchedulerApi}

pub record HealthCheck : Type 0 where
  pub task_id : String
  pub tcp : String
  pub http : String
  pub script : String
  pub docker : String
  pub docker_id : String
  pub timeout : Duration
  pub interval : Duration

pub record Monitor : Type 0 where
  pub failures : ℤ
  pub last_failure : Option Error
  pub status : TaskState
  pub check : HealthCheck
  pub kind : String

unfoldable pub check_type : HealthCheck → String
check_type c =
    if not (str_eq c.http "")
    then "http"
    else if not (str_eq c.tcp "")
    then "tcp"
    else if not (str_eq c.script "")
    then "script"
    else if not (str_eq c.docker "")
    then "docker"
    else "none"

unfoldable pub new_monitor : HealthCheck → Monitor
unfolding check_type
new_monitor c = record {
  failures = pos 0;
  last_failure = none;
  status = pending;
  check = c;
  kind = check_type c;
}

-- The error of checkHTTP, from the answer of the client: an error or a status code.
unfoldable pub http_result : Result ℕ → Option Error
http_result (err e) = some e
http_result (ok code) =
    if ltb code 200 || leb 300 code then some (failed "status code was not 2xx") else none

-- The counter after a check.
unfoldable pub count_failure : Option Error → Monitor → Monitor
count_failure none m = record m { failures = pos 0; last_failure = none }
count_failure (some e) m = record m { failures = add64 m.failures (pos 1); last_failure = some e }

-- The chain of tests on Failures; it leaves the status of a negative counter alone.
unfoldable pub status_of : ℤ → TaskState → TaskState
status_of failures status =
    if ltb_ℤ (pos 3) failures
    then failing
    else if ltb_ℤ (pos 0) failures && leb_ℤ failures (pos 3)
    then warning
    else if eqb_ℤ failures (pos 0)
    then running
    else status

unfoldable pub judge : Monitor → Monitor
unfolding status_of
judge m = record m { status = status_of m.failures m.status }

module _ {S : Type 0} (api : SchedulerApi S) where
  -- One round of Run: the check's outcome is counted, judged and reported.
  unfoldable pub round : Option Error → Monitor × S → Monitor × S
  unfolding count_failure judge
  round outcome (m, s) =
      let m' = judge (count_failure outcome m) in
      (m', (api.put_task_state (m'.check).task_id m'.status s).0)

  unfoldable pub rounds : List (Option Error) → Monitor × S → Monitor × S
  unfolding round
  rounds [] r = r
  rounds (o ∷ os) r = rounds os (round o r)
