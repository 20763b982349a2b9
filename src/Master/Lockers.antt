-- ===== src/Master/Lockers.antt =====
-- master/lockers.go over any implementation of Lockable.
use consul_scheduler.Prelude.{
  String, ◌≡◌, Bool, false, Option, none, some, [], ◌∷◌, Assoc, lookup, insert,
}
use consul_scheduler.Api.Results.{Error, Result, ok, err}
use Prim.Native.String.{◌++◌ as str_append}

-- api.Lock and the methods of Lockable, over the backend's states `S`; a lock is a value of `L`.
pub record LockApi (L S : Type 0) : Type 0 where
  pub new_lock : String → S → Result L
  pub acquire : L → S → L × S × Option Error
  pub release : L → S → L × S
  pub is_held : L → S → Bool

-- What Unlock promises: the lock is not held afterwards.
pub record LockLaws {L S : Type 0} (api : LockApi L S) : Type 0 where
  pub release_frees : (l : L) (s : S) → api.is_held (api.release l s).0 (api.release l s).1 ≡ false

pub record SchedulerLocks (L S : Type 0) : Type 0 where
  pub locks : Assoc L
  pub store : S

module _ {L S : Type 0} (api : LockApi L S) where
  -- locker.Lock(), with the lock put back where the map keeps its pointer
  unfoldable pub take_lock : String → L → SchedulerLocks L S → SchedulerLocks L S × Result L
  take_lock name l s =
      let (l', store, e) = api.acquire l s.store in
      (
        record { locks = insert name l' s.locks; store = store },
        elim e [ none ↦ ok l' | some x ↦ err x ],
      )

  -- The lock of a service, made at its first use.
  unfoldable pub lock_service : String → SchedulerLocks L S → SchedulerLocks L S × Result L
  unfolding take_lock
  lock_service name s = elim (lookup name s.locks) [
    | some l ↦ take_lock name l s
    | none ↦ elim (api.new_lock (str_append "schedulers/" name) s.store) [
      | err e ↦ (s, err e)
      | ok l ↦ take_lock name l s
    ]
  ]

  unfoldable pub unlock_service : String → SchedulerLocks L S → SchedulerLocks L S
  unlock_service name s = elim (lookup name s.locks) [
    | none ↦ s
    | some l ↦
        let (l', store) = api.release l s.store in
        record { locks = insert name l' s.locks; store = store }
  ]

  -- Stop: each lock of the map is released.
  unfoldable pub unlock_all : Assoc L → S → S
  unlock_all [] store = store
  unlock_all ((k, l) ∷ m) store = unlock_all m (api.release l store).1
