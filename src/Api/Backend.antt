-- ===== src/Api/Backend.antt =====
-- The interface SchedulerApi of api/generic_api.go over the states `S` of a backend. A read leaves
-- the state alone. A write gives the new state and the error that the call returns, if any.
use consul_scheduler.Prelude.{Bool, ℕ, String, List, Option}
use consul_scheduler.Api.Types.{
  Cluster, Deployment, Service, Host, TaskDefinition, Task, TaskState, TaskQueryOpts,
}
use consul_scheduler.Api.Results.{Error, Result, Outcome}

pub record SchedulerApi (S : Type 0) : Type 0 where
  -- Whether a call that fails gives a nil pointer beside its error.
  pub missing_is_nil : Bool
  pub host_name : S → Result String
  pub list_clusters : S → Result (List Cluster)
  pub get_cluster : String → S → Result Cluster
  pub put_cluster : Cluster → S → S × Option Error
  pub del_cluster : String → S → S × Option Error
  pub list_deployments : S → Result (List Deployment)
  pub get_deployment : String → S → Result Deployment
  pub put_deployment : Deployment → S → S × Option Error
  pub del_deployment : String → S → S × Option Error
  pub list_task_definitions : S → Result (List TaskDefinition)
  pub get_task_definition : String → ℕ → S → Result TaskDefinition
  pub put_task_definition : TaskDefinition → S → S × Option Error
  pub list_services : S → Result (List Service)
  pub get_service : String → S → Result Service
  pub put_service : Service → S → S × Option Error
  pub del_service : String → S → S × Option Error
  pub list_hosts : String → S → Result (List Host)
  pub get_host : String → String → S → Result Host
  pub put_host : Host → S → S × Option Error
  pub del_host : String → String → S → S × Option Error
  pub list_tasks : TaskQueryOpts → S → Outcome (Result (List Task))
  pub get_task : String → S → Result Task
  pub put_task : Task → S → S × Option Error
  pub del_task : Task → S → S × Option Error
  pub get_task_state : Task → S → Result TaskState
  pub put_task_state : String → TaskState → S → S × Option Error
