-- ===== src/Backends/Consul/Lock.antt =====
-- backends/consul/consul_lock.go, and Lock of consul_api.go. The lock of the Consul client is not
-- part of this repository: the record LockClient over its handles `H`.
use consul_scheduler.Prelude.{String, refl, Bool, true, false, Option, none, some, if◌then◌else◌}
use consul_scheduler.Api.Results.{Error, Result, ok, err}
use consul_scheduler.Master.Lockers.{LockApi, LockLaws}
use consul_scheduler.Backends.Consul.Store.{ConsulApi}

-- `new_lock` is client.LockOpts with a key and LockTryOnce; `lock` tells whether it gives a channel.
pub record LockClient (H K : Type 0) : Type 0 where
  pub new_lock : String → Bool → K → Result H
  pub lock : H → K → K × Result Bool
  pub unlock : H → K → K × Option Error

pub record ConsulLockWrapper (H : Type 0) : Type 0 where
  pub handle : H
  pub held : Bool
  pub has_quit : Bool

module _ {H K : Type 0} (client : LockClient H K) where
  -- ConsulApi.Lock, with the wrapper's zero values. A handle with an error is not used.
  unfoldable pub new_lock : String → Bool → ConsulApi K → Result (ConsulLockWrapper H)
  new_lock key block a = elim (client.new_lock key (if block then false else true) a.store) [
    | err e ↦ err e
    | ok h ↦ ok (record { handle = h; held = false; has_quit = false })
  ]

  -- Lock: the channel is kept, and the lock is held where there is one.
  unfoldable pub lock :
      ConsulLockWrapper H → ConsulApi K → ConsulLockWrapper H × ConsulApi K × Option Error
  lock l a =
      let (k, r) = client.lock l.handle a.store in
      elim r [
        | err e ↦ (record l { has_quit = false }, record a { store = k }, some e)
        | ok true ↦ (record l { has_quit = true; held = true }, record a { store = k }, none)
        | ok false ↦ (record l { has_quit = false }, record a { store = k }, none)
      ]

  -- The goroutine that Lock starts, once the channel tells that the lock is lost.
  unfoldable pub lost : ConsulLockWrapper H → ConsulLockWrapper H
  lost l = record l { held = false }

  unfoldable pub unlock : ConsulLockWrapper H → ConsulApi K → ConsulLockWrapper H × ConsulApi K
  unlock l a = (record l { held = false }, record a { store = (client.unlock l.handle a.store).0 })

  -- What the master uses: locks that are tried once.
  unfoldable pub consul_locks : LockApi (ConsulLockWrapper H) (ConsulApi K)
  unfolding new_lock lock unlock
  consul_locks = record {
    new_lock = λ key a. new_lock key false a;
    acquire = lock;
    release = unlock;
    is_held = λ l a. l.held;
  }

  pub consul_locks-LockLaws : LockLaws consul_locks
  unfolding consul_locks
  consul_locks-LockLaws = record { release_frees = λ l a. refl }
