-- ===== src/Master/Dispatch/Requests.antt =====
-- master/master.go: what a dispatch requests, what the garbage collection writes, and how a request ends.
use consul_scheduler.Prelude.{
  none-some, ℕ, ℤ, pos, add64, String, ◌≡◌, refl, sym, inl, inr, true, false, none, List, [], ◌∷◌,
  map, Bool-cases,
}
use consul_scheduler.Api.Types.{Cluster, Deployment, Task, any_task}
use consul_scheduler.Api.Results.{
  Error, Result, ok, err, returns, panics, Returns, Returns-and_then, Result-cases,
}
use consul_scheduler.Api.Backend.{SchedulerApi}
use Prim.Native.String.{◌++◌ as str_append}
use consul_scheduler.Master.Queue.{Request}
use consul_scheduler.Master.Lockers.{LockApi, SchedulerLocks, lock_service}
use consul_scheduler.Master.Dispatch.{
  in_array_str, dispatch_loop, dispatch_all, collect, run_garbage_collect, Master, lockers,
  with_lockers, schedule_held, master_schedule,
}

module _ {S : Type 0} (api : SchedulerApi S) where
  abbrev pub request : Cluster → String → Request
  request c name = record { cluster = c.name; service = name }

  dispatch_loop_lem :
      (c : Cluster) (names : List String) (s : S)
      → ((n : String) (d : Deployment) → api.get_deployment n s ≡ ok d → d.name ≡ n)
      → (dispatch_loop api c names s).1 ≡ none
      → (dispatch_loop api c names s).0 ≡ map (request c) names
  unfolding dispatch_loop
  dispatch_loop_lem c [] s w h = refl
  dispatch_loop_lem c (n ∷ names) s w h = elim (Result-cases (api.get_deployment n s)) [
    | inr (x, e) ↦ absurd (none-some (sym (rw (e, dispatch_loop) at h)))
    | inl (d, e) ↦
        rw (e, w n d e, dispatch_loop_lem c names s w (rw (e, dispatch_loop) at h), dispatch_loop)
  ]

  -- In a store that gives each deployment under its own name, a dispatch that ends with no error has
  -- requested every deployment of the cluster, once for each time it is listed and in that order.
  pub dispatch_all_lem :
      (name : String) (s : S)
      → ((n : String) (d : Deployment) → api.get_deployment n s ≡ ok d → d.name ≡ n)
      → (dispatch_all api name s).1 ≡ none
      → (c : Cluster) × (api.get_cluster name s ≡ ok c)
        × ((dispatch_all api name s).0 ≡ map (request c) c.deployments)
  unfolding dispatch_all
  dispatch_all_lem name s w h = elim (Result-cases (api.get_cluster name s)) [
    | inr (x, e) ↦ absurd (none-some (sym (rw (e, dispatch_all) at h)))
    | inl (c, e) ↦ (
      c,
      e,
      rw (e, dispatch_all) (dispatch_loop_lem c c.deployments s w (rw (e, dispatch_all) at h)),
    )
  ]

  collect_keeps :
      (P : S → Type 0) (deployments : List String)
      → ((t : Task) (s : S)
          → in_array_str t.deployment deployments ≡ false
          → P s
          → P (api.put_task (record t { scheduled = false }) s).0)
      → (ts : List Task) (s : S) (n : ℤ) → P s
      → P (collect api deployments ts s n).0
  unfolding collect
  collect_keeps P ds k [] s n p = p
  collect_keeps P ds k (t ∷ ts) s n p = elim (Bool-cases (in_array_str t.deployment ds)) [
    | inl e ↦ rw (e, collect) (collect_keeps P ds k ts s n p)
    | inr e ↦ rw (e, collect) (collect_keeps P ds k ts _ (add64 n (pos 1)) (k t s e p))
  ]

  -- Where the listing of tasks comes back, the garbage collection comes back, and keeps every
  -- property of the store that is kept by unscheduling a task whose deployment the cluster does
  -- not list.
  pub run_garbage_collect_keeps :
      (P : S → Type 0) (name : String) (s : S)
      → ((c : Cluster) (t : Task) (s' : S)
          → api.get_cluster name s ≡ ok c
          → in_array_str t.deployment c.deployments ≡ false
          → P s'
          → P (api.put_task (record t { scheduled = false }) s').0)
      → Returns (λ r. Unit) (api.list_tasks (record any_task { by_cluster = name }) s)
      → P s
      → Returns (λ r. P r.0) (run_garbage_collect api name s)
  unfolding run_garbage_collect
  run_garbage_collect_keeps P name s k back p = elim (Result-cases (api.get_cluster name s)) [
    | inr (x, e) ↦ rw (e, run_garbage_collect) p
    | inl (c, e) ↦
        rw (e, run_garbage_collect)
          (Returns-and_then (λ r. Unit) (λ r. P r.0)
            (api.list_tasks (record any_task { by_cluster = name }) s) _ back
            (λ r u. elim (Result-cases r) [
              | inr (x, f) ↦ rw f p
              | inl (ts, f) ↦
                  rw f (collect_keeps P c.deployments (λ t s' o. k c t s' e o) ts s (pos 0) p)
            ]))
  ]

module _ {L S : Type 0} (api : SchedulerApi S) (lock_api : LockApi L S) (draw : ℕ → ℕ → ℕ)
    (fuel : ℕ) where
  abbrev pub locked : String → String → Master L S → SchedulerLocks L S × Result L
  locked cluster dep m =
      lock_service lock_api (str_append cluster (str_append ":" dep))
        (lockers api lock_api draw fuel m)

  -- Where a failed read gives a nil pointer, a request for a cluster that is not stored panics as
  -- soon as its lock is held: the error is logged and the pointer is read.
  pub master_schedule_panics :
      (cluster dep : String) (m : Master L S) (l : L) (x : Error)
      → (locked cluster dep m).1 ≡ ok l
      → lock_api.is_held l (locked cluster dep m).0.store ≡ true
      → api.get_cluster cluster (locked cluster dep m).0.store ≡ err x
      → api.missing_is_nil ≡ true
      → master_schedule api lock_api draw fuel cluster dep m ≡ panics
  unfolding master_schedule schedule_held
  master_schedule_panics cluster dep m l x e held missing nil =
      rw (e, held, missing, nil, schedule_held, master_schedule)

  -- A request whose lock cannot be had comes back with the schedulers and their store as the attempt
  -- to lock left them: nothing is scheduled.
  pub master_schedule_unlocked :
      (cluster dep : String) (m : Master L S) (x : Error)
      → (locked cluster dep m).1 ≡ err x
      → master_schedule api lock_api draw fuel cluster dep m
        ≡ returns (with_lockers api lock_api draw fuel m (locked cluster dep m).0)
  unfolding master_schedule
  master_schedule_unlocked cluster dep m x e = rw (e, master_schedule)
