-- ===== src/Master/Workers/Sharing.antt =====
-- What the workers of one master share in master/master.go.
use consul_scheduler.Prelude.{ℕ, ◌≡◌, refl, ◌≢◌, true, false, ◌==◌, ==_iff, arith}
use consul_scheduler.Api.Results.{ok}
use consul_scheduler.Backends.Consul.Lock.{LockClient, consul_locks, lock}
use consul_scheduler.Master.Workers.{
  idle, asking, scheduling, Masters, takes, asks, here, next, after_lock, take, ask, Reach,
}

module _ {H K : Type 0} (client : LockClient H K) (master_of : ℕ → ℕ) where
  itself : (n : ℕ) → (n == n) ≡ true
  itself n = (==_iff n n).1 refl

  took :
      (w : ℕ) (s : Masters H K)
      → (client.lock (s.locks (master_of w)).handle s.api.store).1 ≡ ok true
      → let t = take client master_of w s in
        (t.phases w ≡ asking) × ((t.locks (master_of w)).held ≡ true)
  unfolding take consul_locks lock after_lock
  took w s gets = (rw (itself w, gets, lock) refl, rw (itself (master_of w), gets, lock) refl)

  goes_on :
      (w : ℕ) (s : Masters H K)
      → (s.locks (master_of w)).held ≡ true
      → let t = ask client master_of w s in
        (t.phases w ≡ scheduling) × ((t.locks (master_of w)).held ≡ true)
  unfolding ask consul_locks
  goes_on w s held = (rw (itself w, held) refl, held)

  -- Let a worker have come back from Lock with no error, and not yet have asked whether the lock is
  -- held. If another worker of the same master is idle and the client now gives the lock, the two of
  -- them can go on into the scheduler together: IsHeld reads the lock that they share.
  pub both_schedule :
      (v w : ℕ) (s : Masters H K)
      → v ≢ w
      → master_of v ≡ master_of w
      → s.phases v ≡ asking
      → s.phases w ≡ idle
      → (client.lock (s.locks (master_of w)).handle s.api.store).1 ≡ ok true
      → (t : Masters H K) × Reach client master_of s t
        × (t.phases v ≡ scheduling)
        × (t.phases w ≡ scheduling)
  unfolding take ask
  both_schedule v w s apart shared waits free gets =
      let s1 = take client master_of w s in
      let s2 = ask client master_of w s1 in
      let other : (w == v) ≡ false = ground (arith, apart) in
      let (w1, held1) = took w s gets in
      let (w2, held2) = goes_on w s1 held1 in
      let v2 : s2.phases v ≡ asking = rw other waits in
      let held : (s2.locks (master_of v)).held ≡ true = rw shared held2 in
      let (v3, _) = goes_on v s2 held in
      let away : (v == w) ≡ false = ground (arith, apart) in
      let w3 : (ask client master_of v s2).phases w ≡ scheduling = rw away w2 in
      (
        ask client master_of v s2,
        next (next (next here (takes w free)) (asks w w1)) (asks v v2),
        v3,
        w3,
      )
