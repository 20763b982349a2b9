-- ===== src/Master/Dispatch/Release.antt =====
-- The lock of a request after the request.
use consul_scheduler.Prelude.{
  ℕ, String, ◌≡◌, refl, ap, ◌∙◌, ◌⊎◌, inl, inr, false, some, Bool-cases, Option-cases, Assoc,
  lookup, lookup-insert_self,
}
use consul_scheduler.Api.Types.{Cluster, Deployment}
use consul_scheduler.Api.Results.{ok, Returns, Returns-and_then, Result-cases}
use consul_scheduler.Api.Backend.{SchedulerApi}
use Prim.Native.String.{◌++◌ as str_append}
use consul_scheduler.Master.Lockers.{
  LockApi, LockLaws, SchedulerLocks, take_lock, lock_service, unlock_service,
}
use consul_scheduler.Master.Dispatch.{
  in_array_str, Master, lockers, run_scheduler, schedule_held, master_schedule, with_lockers,
}
use consul_scheduler.Scheduler.Schedule.{Scheduler, schedule}

module _ {L S : Type 0} (api : SchedulerApi S) (lock_api : LockApi L S) (draw : ℕ → ℕ → ℕ)
    (fuel : ℕ) where
  -- The lock of the name is in the map.
  abbrev HasLock : String → Assoc L → Type 0
  HasLock l m = (x : L) × (lookup l m ≡ some x)

  taken :
      (name : String) (l : L) (s : SchedulerLocks L S)
      → HasLock name (take_lock lock_api name l s).0.locks
  unfolding take_lock
  taken name l s = (
    (lock_api.acquire l s.store).0,
    lookup-insert_self name (lock_api.acquire l s.store).0 s.locks,
  )

  locked-HasLock :
      (name : String) (s : SchedulerLocks L S) (x : L)
      → (lock_service lock_api name s).1 ≡ ok x
      → HasLock name (lock_service lock_api name s).0.locks
  unfolding lock_service
  locked-HasLock name s x h = elim (Option-cases (lookup name s.locks)) [
    | inr (l, e) ↦ rw (e, lock_service) (taken name l s)
    | inl e ↦ elim (Result-cases (lock_api.new_lock (str_append "schedulers/" name) s.store)) [
      | inl (l, f) ↦ rw (e, lock_service, f) (taken name l s)
      | inr (y, f) ↦ absurd (cc (rw (e, lock_service, f) at h))
    ]
  ]

  -- What is done under the lock leaves the map of locks alone.
  abbrev SameLocks : Master L S → Master L S → Type 0
  SameLocks m m' = m'.locks ≡ m.locks

  -- Schedule comes back, if it is called for the cluster and the deployment.
  abbrev pub ComesBack : String → String → Scheduler S → Type 0
  ComesBack cluster dep s =
      (c : Cluster) (d : Deployment)
      → api.get_cluster cluster s.store ≡ ok c
      → api.get_deployment dep s.store ≡ ok d
      → Returns (λ r. Unit) (schedule api draw fuel d (record s { cluster = some c }))

  -- The cluster is there, or the backend gives no nil for one that is not.
  abbrev pub NoNil : String → Scheduler S → Type 0
  NoNil cluster s =
      (api.missing_is_nil ≡ false) ⊎ ((c : Cluster) × (api.get_cluster cluster s.store ≡ ok c))

  run_scheduler-locks :
      (c : Cluster) (d : Deployment) (m : Master L S)
      → Returns (λ r. Unit) (schedule api draw fuel d (record (m.scheduler) { cluster = some c }))
      → Returns (SameLocks m) (run_scheduler api lock_api draw fuel c d m)
  unfolding run_scheduler
  run_scheduler-locks c d m back =
      let o = schedule api draw fuel d (record (m.scheduler) { cluster = some c }) in
      Returns-and_then (λ r. Unit) (SameLocks m) o _ back (λ r u. refl)

  schedule_held-locks :
      (cluster dep : String) (m : Master L S)
      → NoNil cluster m.scheduler
      → ComesBack cluster dep m.scheduler
      → Returns (SameLocks m) (schedule_held api lock_api draw fuel cluster dep m)
  unfolding schedule_held
  schedule_held-locks cluster dep m no_nil back =
      elim (Result-cases (api.get_cluster cluster (m.scheduler).store)) [
        | inr (x, e) ↦ elim no_nil [
          | inl n ↦ rw (e, n, schedule_held) refl
          | inr (c, f) ↦ absurd (cc (e, f))
        ]
        | inl (c, e) ↦ elim (Result-cases (api.get_deployment dep (m.scheduler).store)) [
          | inr (x, f) ↦ rw (e, f, schedule_held) refl
          | inl (d, f) ↦ elim (Bool-cases (in_array_str d.scheduler m.schedulers)) [
            | inl i ↦ rw (e, f, i, schedule_held) (run_scheduler-locks c d m (back c d e f))
            | inr i ↦ rw (e, f, i, schedule_held) refl
          ]
        ]
      ]

  -- The lock of the name is in the map, and it is not held.
  abbrev pub Released : String → Master L S → Type 0
  Released name m =
      (x : L) × (lookup name m.locks ≡ some x) × (lock_api.is_held x (m.scheduler).store ≡ false)

  unlocked-Released :
      (laws : LockLaws lock_api) (name : String) (s : SchedulerLocks L S) (m : Master L S)
      → HasLock name s.locks
      → Released name (with_lockers api lock_api draw fuel m (unlock_service lock_api name s))
  unfolding unlock_service
  unlocked-Released laws name s m (x, e) =
      let r = lock_api.release x s.store in
      rw (e, unlock_service)
        (r.0, lookup-insert_self name r.0 s.locks, laws.release_frees x s.store)

  -- The scheduler over the backend as it is after the master has asked for the lock.
  abbrev pub locked_scheduler : String → Master L S → Scheduler S
  locked_scheduler name m = record (m.scheduler) {
    store = (lock_service lock_api name (lockers api lock_api draw fuel m)).0.store;
  }

  -- Let an unlock leave a lock not held, and let a request get its lock. Let the cluster be there, or
  -- the backend give no nil for a missing one, and let Schedule come back if the cluster and the
  -- deployment are found. Then the request comes back, and the lock of its name is in the map and not
  -- held: also where the lock was not held, the cluster or the deployment is missing, the deployment's
  -- scheduler is not registered, or Schedule returns an error.
  pub master_schedule-Released :
      (laws : LockLaws lock_api) (cluster dep : String) (m : Master L S) (x : L)
      → let name = str_append cluster (str_append ":" dep) in
        (lock_service lock_api name (lockers api lock_api draw fuel m)).1 ≡ ok x
        → NoNil cluster (locked_scheduler name m)
        → ComesBack cluster dep (locked_scheduler name m)
        → Returns (Released name) (master_schedule api lock_api draw fuel cluster dep m)
  unfolding master_schedule
  master_schedule-Released laws cluster dep m x e no_nil back =
      let name = str_append cluster (str_append ":" dep) in
      let s = (lock_service lock_api name (lockers api lock_api draw fuel m)).0 in
      let m1 = with_lockers api lock_api draw fuel m s in
      let has = locked-HasLock name (lockers api lock_api draw fuel m) x e in
      elim (Bool-cases (lock_api.is_held x s.store)) [
        | inr f ↦ rw (e, f, master_schedule, Returns) (unlocked-Released laws name s m1 has)
        | inl f ↦
            rw (e, f, master_schedule, Returns)
              (Returns-and_then (SameLocks m1) (Released name)
                (schedule_held api lock_api draw fuel cluster dep m1) _
                (schedule_held-locks cluster dep m1 no_nil back)
                (λ m2 same.
                  unlocked-Released laws name (lockers api lock_api draw fuel m2) m2
                    (has.0, ap (λ ls. lookup name ls) same ∙ has.1)))
      ]
