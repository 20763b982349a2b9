-- ===== src/Master/Workers/Exclusion.antt =====
-- When two workers of master/master.go can be in the scheduler for one deployment.
use consul_scheduler.Prelude.{
  ℕ, ◌≡◌, sym, ap, ◌∙◌, ◌≢◌, inl, inr, Bool, true, false, true-false, if◌then◌else◌, ◌==◌, ==_iff,
  arith, Bool-cases,
}
use consul_scheduler.Api.Results.{ok, Result-cases}
use consul_scheduler.Backends.Consul.Lock.{LockClient, consul_locks, lock, unlock}
use consul_scheduler.Master.Workers.{
  idle, asking, scheduling, leaving, Masters, takes, asks, ends, leaves, here, next, after_lock,
  take, ask, done, leave, Step, Reach,
}
use consul_scheduler.Master.Workers.Keys.{
  KeyLaws, IsExclusive, in_scheduler, not_leaving, idle_out, asking_out, own_handle,
  unmoved-IsExclusive, got-IsExclusive, asked, err_ok, ok_bool,
}

module _ {H K : Type 0} (client : LockClient H K) (master_of : ℕ → ℕ) (handle : ℕ → H)
    (owns : H → K → Bool) where
  ask-IsExclusive :
      (w : ℕ) (s : Masters H K)
      → IsExclusive client master_of handle owns s
      → IsExclusive client master_of handle owns (ask client master_of w s)
  unfolding ask consul_locks
  ask-IsExclusive w s i = record {
    own_handles = i.own_handles;
    working = λ v e. elim (in_scheduler w v _ s.phases e) [
      | inl (same, on) ↦ rw (sym same) (i.marked (master_of w) (asked _ on))
      | inr before ↦ i.working v before
    ];
    marked = i.marked;
    one_owner = i.one_owner;
  }

  done-IsExclusive :
      (w : ℕ) (s : Masters H K)
      → IsExclusive client master_of handle owns s
      → IsExclusive client master_of handle owns (done client master_of w s)
  unfolding done
  done-IsExclusive w s i = record {
    own_handles = i.own_handles;
    working = λ v e. elim (in_scheduler w v leaving s.phases e) [
      | inl (same, on) ↦ absurd (not_leaving on)
      | inr before ↦ i.working v before
    ];
    marked = i.marked;
    one_owner = i.one_owner;
  }

  module _ (laws : KeyLaws client handle owns) where
    leave-IsExclusive :
        (w : ℕ) (s : Masters H K)
        → ((v : ℕ) → master_of w ≡ master_of v → w ≡ v)
        → s.phases w ≡ leaving
        → IsExclusive client master_of handle owns s
        → IsExclusive client master_of handle owns (leave client master_of w s)
    unfolding leave consul_locks unlock
    leave-IsExclusive w s alone at i =
        let m = master_of w in
        let own = i.own_handles m in
        let after : (n : ℕ)
            → owns (handle n) (client.unlock (s.locks m).handle s.api.store).0
              ≡ (if m == n then false else owns (handle n) s.api.store) =
          λ n. rw own (laws.freed m n s.api.store) in
        let kept : (n : ℕ)
            → (m == n) ≡ false
            → owns (handle n) (client.unlock (s.locks m).handle s.api.store).0
              ≡ owns (handle n) s.api.store =
          λ n q. after n ∙ rw q in
        record {
          own_handles = own_handle client master_of handle owns m _ s i own;
          working = λ v e. elim (in_scheduler w v idle s.phases e) [
            | inl (_, on) ↦ absurd (idle_out on)
            | inr before ↦ elim (Bool-cases (m == master_of v)) [
              | inr q ↦ kept (master_of v) q ∙ i.working v before
              | inl q ↦
                  let same = alone v ((==_iff m (master_of v)).0 q) in
                  absurd (not_leaving (sym at ∙ ap s.phases same ∙ before))
            ]
          ];
          marked = λ n e. elim (Bool-cases (m == n)) [
            | inl q ↦ absurd (true-false (sym (rw q at e)))
            | inr q ↦ kept n q ∙ i.marked n (rw q at e)
          ];
          one_owner = λ n o a b. i.one_owner n o (owned n (after n) a) (owned o (after o) b);
        }
      where
        owned :
            (n : ℕ) {x : Bool}
            → x ≡ (if master_of w == n then false else owns (handle n) s.api.store)
            → x ≡ true
            → owns (handle n) s.api.store ≡ true
        owned n e a = ground (arith, sym e ∙ a)

    take-IsExclusive :
        (w : ℕ) (s : Masters H K)
        → IsExclusive client master_of handle owns s
        → IsExclusive client master_of handle owns (take client master_of w s)
    unfolding take consul_locks lock after_lock
    take-IsExclusive w s i =
        let m = master_of w in
        let own = i.own_handles m in
        let k = s.api.store in
        let same : (client.lock (s.locks m).handle k).1 ≢ ok true
            → (n : ℕ) → owns (handle n) (client.lock (s.locks m).handle k).0 ≡ owns (handle n) k =
          λ not. rw own (laws.refused m k (rw own at not)) in
        elim (Result-cases (client.lock (s.locks m).handle k).1) [
          | inr (x, e) ↦
              rw (e, take, lock)
                (unmoved-IsExclusive client master_of handle owns w _ _ idle s idle_out own (λ h. h)
                  (same (λ t. err_ok (sym e ∙ t))) i)
          | inl (false, e) ↦
              rw (e, take, lock)
                (unmoved-IsExclusive client master_of handle owns w _ _ asking s asking_out own
                  (λ h. h) (same (λ t. true-false (sym (ok_bool (sym e ∙ t))))) i)
          | inl (true, e) ↦
              let e' : (client.lock (handle m) k).1 ≡ ok true = rw own at e in
              rw (e, take, lock)
                (got-IsExclusive client master_of handle owns w _ _ asking s asking_out own
                  (laws.gets m k e') (rw own (laws.got m k e')) i)
        ]

    -- Let each master have one worker for a deployment, let no lock be lost, and let the Consul client do
    -- what it documents. From a state in which the workers in the scheduler and the locks marked as held
    -- have the key, and no two handles have it, however the calls of the workers follow one another, two
    -- workers that are in the scheduler for the deployment are one.
    pub at_most_one_schedules :
        {s t : Masters H K}
        → ((w v : ℕ) → master_of w ≡ master_of v → w ≡ v)
        → IsExclusive client master_of handle owns s
        → Reach client master_of s t
        → (w v : ℕ) → t.phases w ≡ scheduling
        → t.phases v ≡ scheduling
        → w ≡ v
    at_most_one_schedules alone i r w v a b =
        let x = reached alone i r in
        alone w v (x.one_owner (master_of w) (master_of v) (x.working w a) (x.working v b))
      where
        step :
            {s t : Masters H K}
            → ((w v : ℕ) → master_of w ≡ master_of v → w ≡ v)
            → Step client master_of s t
            → IsExclusive client master_of handle owns s
            → IsExclusive client master_of handle owns t
        step {s} alone (takes w at) i = take-IsExclusive w s i
        step {s} alone (asks w at) i = ask-IsExclusive w s i
        step {s} alone (ends w at) i = done-IsExclusive w s i
        step {s} alone (leaves w at) i = leave-IsExclusive w s (alone w) at i

        reached :
            {s t : Masters H K}
            → ((w v : ℕ) → master_of w ≡ master_of v → w ≡ v)
            → IsExclusive client master_of handle owns s
            → Reach client master_of s t
            → IsExclusive client master_of handle owns t
        reached alone i here = i
        reached alone i (next r st) = step alone st (reached alone i r)
