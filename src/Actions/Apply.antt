-- ===== src/Actions/Apply.antt =====
-- ApplyConfig of actions/apply.go, from the decoded file on.
pub mod Effects
use consul_scheduler.Prelude.{
  String, Bool, true, false, Option, none, some, List, [], ◌∷◌, if◌then◌else◌,
}
use consul_scheduler.Api.Types.{Cluster, Deployment, Service, TaskDefinition}
use consul_scheduler.Api.Results.{Outcome, returns, panics}
use consul_scheduler.Api.Backend.{SchedulerApi}
use consul_scheduler.Api.Validate.{
  validate_cluster, validate_deployment, validate_service, validate_task_definition,
}

-- The struct that the file is read into.
pub record Document : Type 0 where
  pub clusters : List Cluster
  pub deployments : List Deployment
  pub task_definitions : List TaskDefinition
  pub services : List Service
  pub deployment : Option Deployment
  pub task_definition : Option TaskDefinition
  pub cluster : Option Cluster
  pub service : Option Service

-- `valid(errs) == nil`
unfoldable pub valid : List String → Bool
valid [] = true
valid (e ∷ es) = false

module _ {S : Type 0} (api : SchedulerApi S) where
  -- Each put's error is ignored.
  unfoldable pub apply_definition : TaskDefinition → S → S
  unfolding valid
  apply_definition t s =
      let (t', errors) = validate_task_definition api s t in
      if valid errors then (api.put_task_definition t' s).0 else s

  unfoldable pub apply_deployment : Deployment → S → S
  unfolding valid
  apply_deployment d s =
      if valid (validate_deployment api s d) then (api.put_deployment d s).0 else s

  unfoldable pub apply_cluster : Cluster → S → S
  unfolding valid
  apply_cluster c s = if valid (validate_cluster c) then (api.put_cluster c s).0 else s

  unfoldable pub apply_service : Service → S → S
  unfolding valid
  apply_service v s =
      let (v', errors) = validate_service api s v in
      if valid errors then (api.put_service v' s).0 else s

  -- for _, x := range xs
  unfoldable pub each {ℓ} : {A : Type ℓ} → (A → S → S) → List A → S → S
  each f [] s = s
  each f (x ∷ xs) s = each f xs (f x s)

  -- if x != nil
  unfoldable pub if_given {ℓ} : {A : Type ℓ} → (A → S → S) → Option A → S → S
  if_given f none s = s
  if_given f (some x) s = f x s

  -- The last branch validates the cluster, a nil pointer where the file has none, in place of the
  -- task definition.
  unfoldable pub apply_single_definition : Option TaskDefinition → Option Cluster → S → Outcome S
  unfolding valid
  apply_single_definition none c s = returns s
  apply_single_definition (some t) none s = panics
  apply_single_definition (some t) (some c) s =
      returns (if valid (validate_cluster c) then (api.put_task_definition t s).0 else s)

  unfoldable pub apply_config : Document → S → Outcome S
  unfolding each if_given apply_definition apply_deployment apply_cluster apply_service
      apply_single_definition
  apply_config doc s =
      let s1 = each apply_definition doc.task_definitions s in
      let s2 = each apply_deployment doc.deployments s1 in
      let s3 = each apply_cluster doc.clusters s2 in
      let s4 = each apply_service doc.services s3 in
      let s5 = if_given apply_service doc.service s4 in
      let s6 = if_given apply_deployment doc.deployment s5 in
      let s7 = if_given apply_cluster doc.cluster s6 in
      apply_single_definition doc.task_definition doc.cluster s7
