-- ===== src/Master/Workers.antt =====
-- The lock of one deployment in master/master.go, where several workers of several masters take requests
-- for it. Each master has one lock of backends/consul/consul_lock.go for it, which its workers share.
pub mod Keys
pub mod Exclusion
pub mod Sharing
use consul_scheduler.Prelude.{ℕ, ◌≡◌, Option, none, some, if◌then◌else◌, ◌==◌}
use consul_scheduler.Api.Results.{Error}
use consul_scheduler.Backends.Consul.Store.{ConsulApi}
use consul_scheduler.Backends.Consul.Lock.{LockClient, ConsulLockWrapper, consul_locks}

-- Where a worker stands in Master.schedule: before Lock, before IsHeld, in the scheduler, and before
-- the deferred Unlock.
pub data Phase : Type 0 where
  idle asking scheduling leaving : Phase

pub record Masters (H K : Type 0) : Type 0 where
  pub api : ConsulApi K
  pub locks : ℕ → ConsulLockWrapper H
  pub phases : ℕ → Phase

abbrev pub update {ℓ} : {A : Type ℓ} → ℕ → A → (ℕ → A) → ℕ → A
update k a f j = if k == j then a else f j

-- The phase after Lock, by its error.
unfoldable pub after_lock : Option Error → Phase
after_lock none = asking
after_lock (some e) = idle

module _ {H K : Type 0} (client : LockClient H K) (master_of : ℕ → ℕ) where
  -- s.locks.Lock(l) of worker w, for a lock that has been made.
  unfoldable pub take : ℕ → Masters H K → Masters H K
  unfolding after_lock
  take w s =
      let (l, api, e) = (consul_locks client).acquire (s.locks (master_of w)) s.api in
      record {
        api = api;
        locks = update (master_of w) l s.locks;
        phases = update w (after_lock e) s.phases;
      }

  -- if lock.IsHeld()
  unfoldable pub ask : ℕ → Masters H K → Masters H K
  ask w s = record s {
    phases =
        update w
          (if (consul_locks client).is_held (s.locks (master_of w)) s.api
            then scheduling
            else leaving)
          s.phases;
  }

  -- The end of what is done under the lock.
  unfoldable pub done : ℕ → Masters H K → Masters H K
  done w s = record s { phases = update w leaving s.phases }

  -- defer s.locks.Unlock(l)
  unfoldable pub leave : ℕ → Masters H K → Masters H K
  leave w s =
      let (l, api) = (consul_locks client).release (s.locks (master_of w)) s.api in
      record { api = api; locks = update (master_of w) l s.locks; phases = update w idle s.phases }

  -- One worker goes on by one call. No lock is lost.
  pub data Step (s : Masters H K) : Masters H K → Type 0 where
    takes : (w : ℕ) → s.phases w ≡ idle → Step s (take w s)
    asks : (w : ℕ) → s.phases w ≡ asking → Step s (ask w s)
    ends : (w : ℕ) → s.phases w ≡ scheduling → Step s (done w s)
    leaves : (w : ℕ) → s.phases w ≡ leaving → Step s (leave w s)

  pub data Reach (s : Masters H K) : Masters H K → Type 0 where
    here : Reach s s
    next : {t u : Masters H K} → Reach s t → Step t u → Reach s u
