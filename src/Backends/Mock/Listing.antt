-- ===== src/Backends/Mock/Listing.antt =====
-- ListTasks of backends/mock/mock_api.go.
use consul_scheduler.Prelude.{
  ◌≡◌, ◌≢◌, ◌↔◌, ◌⊎◌, refl, sym, ◌∙◌, inl, inr, true, false, true-false, List, [], ◌∷◌, keep,
  values, Bool-cases, str_eq_iff, arith,
}
use consul_scheduler.Api.Types.{Task, TaskQueryOpts}
use consul_scheduler.Api.Results.{ok, returns, hangs, hangs-returns}
use consul_scheduler.Backends.Query.{passes, asks_state}
use consul_scheduler.Backends.Mock.{
  MockApi, write_lock, get_task_state, admits, list_loop, list_tasks,
}

List-cases : (ts : List Task) → (ts ≡ []) ⊎ ((t : Task) × (us : List Task) × (ts ≡ t ∷ us))
List-cases [] = inl refl
List-cases (t ∷ ts) = inr (t, ts, refl)

list_loop_lem :
    (q : TaskQueryOpts) (ts : List Task) (a : MockApi)
    → asks_state q ≡ false
    → list_loop q ts a ≡ returns (keep (passes q) ts)
unfolding list_loop admits
list_loop_lem q [] a h = refl
list_loop_lem q (t ∷ ts) a h = rw (h, list_loop_lem q ts a h)

pub list_tasks_lem :
    (q : TaskQueryOpts) (a : MockApi)
    → asks_state q ≡ false
    → list_tasks q a ≡ returns (ok (keep (passes q) (values a.tasks)))
unfolding list_tasks
list_tasks_lem q a h = rw (list_loop_lem q (values a.tasks) a h)

-- What a query asks of a task besides its state: each flag and each name that is set.
pub record Selected (q : TaskQueryOpts) (t : Task) : Type 0 where
  pub scheduled : q.wants_scheduled ≡ true → t.scheduled ≡ true
  pub rejected : q.wants_rejected ≡ true → t.rejected ≡ true
  pub on_host : q.by_host ≢ "" → t.host ≡ q.by_host
  pub in_cluster : q.by_cluster ≢ "" → t.cluster ≡ q.by_cluster
  pub of_deployment : q.by_deployment ≢ "" → t.deployment ≡ q.by_deployment

-- The second list is what the query selects of the first, in its order.
pub data Selects (q : TaskQueryOpts) : List Task → List Task → Type 0 where
  nothing : Selects q [] []
  takes :
      {t : Task} {ts us : List Task} → Selected q t → Selects q ts us → Selects q (t ∷ ts) (t ∷ us)
  leaves : {t : Task} {ts us : List Task} → ¬ Selected q t → Selects q ts us → Selects q (t ∷ ts) us

passes_iff : (q : TaskQueryOpts) (t : Task) → (passes q t ≡ true) ↔ Selected q t
unfolding passes
passes_iff q t = (
  (λ h. record {
    scheduled = λ w. ground (arith);
    rejected = λ w. ground (arith);
    on_host = λ w. ground (arith, str_eq_iff q.by_host "", str_eq_iff t.host q.by_host);
    in_cluster = λ w. ground (arith, str_eq_iff q.by_cluster "", str_eq_iff q.by_cluster t.cluster);
    of_deployment =
        λ w. ground (arith, str_eq_iff q.by_deployment "", str_eq_iff q.by_deployment t.deployment);
  }),
  (λ s. ground (
    arith,
    s.scheduled,
    s.rejected,
    s.on_host,
    s.in_cluster,
    s.of_deployment,
    str_eq_iff q.by_host "",
    str_eq_iff t.host q.by_host,
    str_eq_iff q.by_cluster "",
    str_eq_iff q.by_cluster t.cluster,
    str_eq_iff q.by_deployment "",
    str_eq_iff q.by_deployment t.deployment,
  )),
)

keep-Selects : (q : TaskQueryOpts) (ts : List Task) → Selects q ts (keep (passes q) ts)
keep-Selects q [] = nothing
keep-Selects q (t ∷ ts) = elim (Bool-cases (passes q t)) [
  | inl e ↦ rw e (takes ((passes_iff q t).0 e) (keep-Selects q ts))
  | inr e ↦ rw e (leaves (λ s. true-false (sym ((passes_iff q t).1 s) ∙ e)) (keep-Selects q ts))
]

-- For a query that asks for no state, ListTasks of the in-memory backend comes back with no error and
-- with exactly the stored tasks that the query selects, in the order of the map: a task is selected
-- if and only if it is scheduled and rejected where that is wanted, and has the host, the cluster and
-- the deployment that the query names.
pub list_tasks-Selects :
    (q : TaskQueryOpts) (a : MockApi)
    → asks_state q ≡ false
    → (ts : List Task) × (list_tasks q a ≡ returns (ok ts)) × Selects q (values a.tasks) ts
list_tasks-Selects q a h =
    (keep (passes q) (values a.tasks), list_tasks_lem q a h, keep-Selects q (values a.tasks))

list_tasks_hangs :
    (q : TaskQueryOpts) (a : MockApi) (t : Task) (ts : List Task)
    → asks_state q ≡ true
    → values a.tasks ≡ t ∷ ts
    → list_tasks q a ≡ hangs
unfolding list_tasks list_loop admits get_task_state write_lock
list_tasks_hangs q a t ts h e = rw (e, h)

list_tasks_empty :
    (q : TaskQueryOpts) (a : MockApi) → values a.tasks ≡ [] → list_tasks q a ≡ returns (ok [])
unfolding list_tasks list_loop
list_tasks_empty q a e = rw e

-- ListTasks of the in-memory backend never comes back exactly when the query is for running or failing
-- tasks and a task is stored: the loop holds the lock for reading, while GetTaskState of the first
-- task waits for the same lock.
pub list_tasks-hangs_iff :
    (q : TaskQueryOpts) (a : MockApi)
    → (list_tasks q a ≡ hangs) ↔ ((asks_state q ≡ true) × (values a.tasks ≢ []))
list_tasks-hangs_iff q a = elim (Bool-cases (asks_state q)) [
  | inr n ↦ (
    (λ h. absurd (hangs-returns (sym h ∙ list_tasks_lem q a n))),
    (λ h. absurd (true-false (sym h.0 ∙ n))),
  )
  | inl y ↦ elim (List-cases (values a.tasks)) [
    | inl e ↦
        ((λ h. absurd (hangs-returns (sym h ∙ list_tasks_empty q a e))), (λ h. absurd (h.1 e)))
    | inr (t, ts, e) ↦ ((λ h. (y, (λ f. cc (e, f)))), (λ h. list_tasks_hangs q a t ts y e))
  ]
]
