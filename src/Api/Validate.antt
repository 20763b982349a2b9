-- ===== src/Api/Validate.antt =====
-- The Validate methods of api/, which collect the texts of what is wrong.
use Prim.Native.String.{◌++◌ as str_append}
use consul_scheduler.Prelude.{
  ℕ, suc, ℤ, pos, String, Bool, List, [], ◌∷◌, ◌++◌, if◌then◌else◌, str_eq, show, ltb_ℤ, ◌&&◌, not,
  ◌*◌,
}
use consul_scheduler.Api.Types.{
  Cluster, Deployment, Service, Check, Container, TaskDefinition, Task, is_none,
}
use consul_scheduler.Api.Results.{Result, ok, err, is_ok, message}
use consul_scheduler.Api.Backend.{SchedulerApi}

-- `if b { errors = append(errors, text) }`
abbrev pub report : Bool → String → List String
report b text = if b then text ∷ [] else []

unfoldable pub validate_cluster : Cluster → List String
validate_cluster c = report (str_eq c.name "") "cluster name is blank"

abbrev report_err {ℓ} : {A : Type ℓ} → String → Result A → List String
report_err prefix (ok a) = []
report_err prefix (err e) = str_append prefix (message e) ∷ []

-- nanoseconds
abbrev pub seconds : ℕ → ℤ
seconds n = pos (n * 1_000_000_000)

unfoldable pub check_id : TaskDefinition → Container → Check → ℕ → String
check_id task c check i = str_append task.name (
    str_append "_"
      (str_append c.name (str_append "-" (str_append check.name (str_append "-" (show i))))))

-- The body of the inner loop of TaskDefinition.Validate: the check with its defaults.
unfoldable pub default_check : TaskDefinition → Container → ℕ → Check → Check
unfolding check_id
default_check task c i check = record check {
  id = check_id task c check i;
  interval = if is_none check.interval then seconds 30 else check.interval;
  timeout = if is_none check.timeout then seconds 5 else check.timeout;
}

unfoldable pub malformed : Check → Bool
malformed check =
    str_eq check.http "" && str_eq check.tcp "" && str_eq check.script "" && str_eq check.docker ""

unfoldable pub default_checks : TaskDefinition → Container → ℕ → List Check → List Check
unfolding default_check
default_checks task c i [] = []
default_checks task c i (x ∷ xs) = default_check task c i x ∷ default_checks task c (suc i) xs

unfoldable pub malformed_checks : List Check → List String
unfolding malformed
malformed_checks [] = []
malformed_checks (x ∷ xs) = report (malformed x) "health check malformed" ++ malformed_checks xs

unfoldable pub default_containers : TaskDefinition → List Container → List Container
unfolding default_checks
default_containers task [] = []
default_containers task (c ∷ cs) =
    record c { checks = default_checks task c 0 c.checks } ∷ default_containers task cs

unfoldable pub malformed_containers : List Container → List String
unfolding malformed_checks
malformed_containers [] = []
malformed_containers (c ∷ cs) = malformed_checks c.checks ++ malformed_containers cs

module _ {S : Type 0} (api : SchedulerApi S) (s : S) where
  unfoldable pub validate_deployment : Deployment → List String
  validate_deployment d =
      report (not (is_ok (api.get_task_definition d.task_name d.task_version s)))
        (str_append "task (" (str_append d.task_name ") does not exist"))
      ++ report (str_eq d.name "") "service name is blank"
      ++ report (ltb_ℤ d.max d.min) "min is greater than max"
      ++ report (ltb_ℤ d.desired d.min) "min is greater than desired"
      ++ report (ltb_ℤ d.max d.desired) "max is less than desired"

  -- The service with the name that Validate gives it, and the errors.
  unfoldable pub validate_service : Service → Service × List String
  validate_service v = (
    (if str_eq v.name ""
        then record v {
          name =
              str_append v.cluster
                (str_append "-" (str_append v.deployment (str_append "-" v.container)));
        }
        else v),
    report_err "cluster: " (api.get_cluster v.cluster s)
        ++ report_err "deployment: " (api.get_deployment v.deployment s),
  )

  unfoldable pub validate_task : Task → List String
  validate_task t =
      report (str_eq t.deployment "") "deployment name is blank"
      ++ report (not (is_ok (api.get_deployment t.deployment s))) "deployment does not exist"

  -- The definition with its defaults, and the errors.
  unfoldable pub validate_task_definition : TaskDefinition → TaskDefinition × List String
  unfolding default_containers malformed_containers
  validate_task_definition t = (
    record t {
      grace_period = if is_none t.grace_period then seconds 60 else t.grace_period;
      containers = default_containers t t.containers;
    },
    report (is_ok (api.get_task_definition t.name t.version s)) "version already provisioned"
        ++ malformed_containers t.containers,
  )
