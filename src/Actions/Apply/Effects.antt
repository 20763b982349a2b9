-- ===== src/Actions/Apply/Effects.antt =====
-- actions/apply.go: what applying a file can do to the store.
use consul_scheduler.Prelude.{
  ◌≡◌, refl, Bool, true, false, Option, none, some, List, [], ◌∷◌, if◌then◌else◌,
}
use consul_scheduler.Api.Types.{Cluster, Deployment, Service, TaskDefinition}
use consul_scheduler.Api.Results.{panics, Returns}
use consul_scheduler.Api.Backend.{SchedulerApi}
use consul_scheduler.Api.Validate.{
  validate_cluster, validate_deployment, validate_service, validate_task_definition,
}
use consul_scheduler.Actions.Apply.{
  Document, valid, apply_definition, apply_deployment, apply_cluster, apply_service, each, if_given,
  apply_single_definition, apply_config,
}

module _ {S : Type 0} (api : SchedulerApi S) (P : S → Type 0) where
  each_keeps {ℓ} :
      {A : Type ℓ} (f : A → S → S)
      → ((x : A) (s : S) → P s → P (f x s))
      → (xs : List A) (s : S) → P s
      → P (each api f xs s)
  unfolding each
  each_keeps f k [] s h = h
  each_keeps f k (x ∷ xs) s h = each_keeps f k xs (f x s) (k x s h)

  given_keeps {ℓ} :
      {A : Type ℓ} (f : A → S → S)
      → ((x : A) (s : S) → P s → P (f x s))
      → (o : Option A) (s : S) → P s
      → P (if_given api f o s)
  unfolding if_given
  given_keeps f k none s h = h
  given_keeps f k (some x) s h = k x s h

  guarded : (b : Bool) (s1 s : S) → (b ≡ true → P s1) → P s → P (if b then s1 else s)
  guarded true s1 s k h = k refl
  guarded false s1 s k h = h

  -- The property is kept by each write of what validates: the object that the validation gives back,
  -- in the state that it was validated in.
  pub record KeptByValid : Type 0 where
    pub definition :
        (t : TaskDefinition) (s : S)
        → valid (validate_task_definition api s t).1 ≡ true
        → P s
        → P (api.put_task_definition (validate_task_definition api s t).0 s).0
    pub deployment :
        (d : Deployment) (s : S)
        → valid (validate_deployment api s d) ≡ true
        → P s
        → P (api.put_deployment d s).0
    pub cluster :
        (c : Cluster) (s : S) → valid (validate_cluster c) ≡ true → P s → P (api.put_cluster c s).0
    pub service :
        (v : Service) (s : S)
        → valid (validate_service api s v).1 ≡ true
        → P s
        → P (api.put_service (validate_service api s v).0 s).0

  -- A file with no lone task definition is applied to its end, and each property of the store
  -- that the writes of valid objects keep is kept.
  pub apply_config_keeps :
      KeptByValid
      → (doc : Document) (s : S) → doc.task_definition ≡ none
      → P s
      → Returns P (apply_config api doc s)
  unfolding apply_config apply_single_definition apply_definition apply_deployment apply_cluster
      apply_service
  apply_config_keeps k doc s e h =
      let def =
        λ (t : TaskDefinition) (s : S) (h : P s). guarded _ _ s (λ b. k.definition t s b h) h in
      let dep = λ (d : Deployment) (s : S) (h : P s). guarded _ _ s (λ b. k.deployment d s b h) h in
      let clu = λ (c : Cluster) (s : S) (h : P s). guarded _ _ s (λ b. k.cluster c s b h) h in
      let ser = λ (v : Service) (s : S) (h : P s). guarded _ _ s (λ b. k.service v s b h) h in
      rw e (
        given_keeps (apply_cluster api) clu doc.cluster _ (
          given_keeps (apply_deployment api) dep doc.deployment _ (
            given_keeps (apply_service api) ser doc.service _ (
              each_keeps (apply_service api) ser doc.services _ (
                each_keeps (apply_cluster api) clu doc.clusters _ (
                  each_keeps (apply_deployment api) dep doc.deployments _
                    (each_keeps (apply_definition api) def doc.task_definitions s h)))))))

-- A file with a lone task definition and no lone cluster makes the call panic.
pub apply_config_panics :
    {S : Type 0} (api : SchedulerApi S) (doc : Document) (t : TaskDefinition) (s : S)
    → doc.task_definition ≡ some t
    → doc.cluster ≡ none
    → apply_config api doc s ≡ panics
unfolding apply_config apply_single_definition if_given
apply_config_panics api doc t s e f = rw (e, f)
