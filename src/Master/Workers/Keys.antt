-- ===== src/Master/Workers/Keys.antt =====
-- The lock of one deployment as a key of Consul, and what holds of the masters' locks between two calls.
use consul_scheduler.Prelude.{
  ℕ, ◌≡◌, refl, sym, subst, ap, ◌∙◌, ◌≢◌, ◌⊎◌, inl, inr, Bool, true, false, true-false,
  if◌then◌else◌, ◌==◌, ==_iff, Bool-cases,
}
use consul_scheduler.Api.Results.{Error, ok, err}
use consul_scheduler.Backends.Consul.Lock.{LockClient, ConsulLockWrapper}
use consul_scheduler.Master.Workers.{Phase, idle, asking, scheduling, leaving, Masters, update}

-- A worker that is in the scheduler after an update is the one that was updated, or was there before.
pub in_scheduler :
    (w v : ℕ) (x : Phase) (f : ℕ → Phase)
    → update w x f v ≡ scheduling
    → ((w ≡ v) × (x ≡ scheduling)) ⊎ (f v ≡ scheduling)
in_scheduler w v x f e = elim (Bool-cases (w == v)) [
  | inl q ↦ inl ((==_iff w v).0 q, rw q at e)
  | inr q ↦ inr (rw q at e)
]

pub not_leaving : leaving ≢ scheduling
not_leaving e = cc

pub idle_out : idle ≢ scheduling
idle_out e = cc

pub asking_out : asking ≢ scheduling
asking_out e = cc

pub err_ok : {e : Error} {b : Bool} → err e ≢ ok b
err_ok e = cc

pub ok_bool : {a b : Bool} → ok a ≡ ok b → a ≡ b
ok_bool e = cc

pub asked : (b : Bool) → (if b then scheduling else leaving) ≡ scheduling → b ≡ true
asked true e = refl
asked false e = absurd (not_leaving e)

-- What the Consul client documents of the handles of one key, each with a session of its own: a handle
-- gets the key where no handle has it, and otherwise nothing changes; to unlock it gives it up.
pub record KeyLaws {H K : Type 0} (client : LockClient H K) (handle : ℕ → H) (owns : H → K → Bool)
    : Type 0 where
  pub gets :
      (m : ℕ) (k : K) → (client.lock (handle m) k).1 ≡ ok true → (n : ℕ) → owns (handle n) k ≡ false
  pub got :
      (m : ℕ) (k : K)
      → (client.lock (handle m) k).1 ≡ ok true
      → (n : ℕ) → owns (handle n) (client.lock (handle m) k).0 ≡ (m == n)
  pub refused :
      (m : ℕ) (k : K)
      → (client.lock (handle m) k).1 ≢ ok true
      → (n : ℕ) → owns (handle n) (client.lock (handle m) k).0 ≡ owns (handle n) k
  pub freed :
      (m n : ℕ) (k : K)
      → owns (handle n) (client.unlock (handle m) k).0
        ≡ (if m == n then false else owns (handle n) k)

module _ {H K : Type 0} (client : LockClient H K) (master_of : ℕ → ℕ) (handle : ℕ → H)
    (owns : H → K → Bool) where
  -- A worker in the scheduler is on a master whose handle has the key, as is a lock that is marked as
  -- held, and no two handles have it.
  pub record IsExclusive (s : Masters H K) : Type 0 where
    pub own_handles : (m : ℕ) → (s.locks m).handle ≡ handle m
    pub working : (w : ℕ) → s.phases w ≡ scheduling → owns (handle (master_of w)) s.api.store ≡ true
    pub marked : (m : ℕ) → (s.locks m).held ≡ true → owns (handle m) s.api.store ≡ true
    pub one_owner :
        (m n : ℕ) → owns (handle m) s.api.store ≡ true → owns (handle n) s.api.store ≡ true → m ≡ n

  -- A worker and its master's lock after a call of the lock.
  abbrev pub moved : ℕ → ConsulLockWrapper H → K → Phase → Masters H K → Masters H K
  moved w l k x s = record {
    api = record (s.api) { store = k };
    locks = update (master_of w) l s.locks;
    phases = update w x s.phases;
  }

  pub own_handle :
      (m : ℕ) (l : ConsulLockWrapper H) (s : Masters H K)
      → IsExclusive s
      → l.handle ≡ handle m
      → (n : ℕ) → (update m l s.locks n).handle ≡ handle n
  own_handle m l s i own n = elim (Bool-cases (m == n)) [
    | inl q ↦ rw q (own ∙ ap handle ((==_iff m n).0 q))
    | inr q ↦ rw q (i.own_handles n)
  ]

  -- The key went to no other handle, and the lock is marked no more than it was.
  pub unmoved-IsExclusive :
      (w : ℕ) (l : ConsulLockWrapper H) (k : K) (x : Phase) (s : Masters H K)
      → x ≢ scheduling
      → l.handle ≡ handle (master_of w)
      → (l.held ≡ true → (s.locks (master_of w)).held ≡ true)
      → ((n : ℕ) → owns (handle n) k ≡ owns (handle n) s.api.store)
      → IsExclusive s
      → IsExclusive (moved w l k x s)
  unmoved-IsExclusive w l k x s out own mark same i = record {
    own_handles = own_handle (master_of w) l s i own;
    working = λ v e. elim (in_scheduler w v x s.phases e) [
      | inl (_, on) ↦ absurd (out on)
      | inr before ↦ same (master_of v) ∙ i.working v before
    ];
    marked = λ n e. elim (Bool-cases (master_of w == n)) [
      | inl q ↦
          same n
          ∙ i.marked n (
              subst (λ z. (s.locks z).held ≡ true) ((==_iff (master_of w) n).0 q)
                (mark (rw q at e)))
      | inr q ↦ same n ∙ i.marked n (rw q at e)
    ];
    one_owner = λ n o a b. i.one_owner n o (sym (same n) ∙ a) (sym (same o) ∙ b);
  }

  -- The key was free, and has gone to the worker's handle.
  pub got-IsExclusive :
      (w : ℕ) (l : ConsulLockWrapper H) (k : K) (x : Phase) (s : Masters H K)
      → x ≢ scheduling
      → l.handle ≡ handle (master_of w)
      → ((n : ℕ) → owns (handle n) s.api.store ≡ false)
      → ((n : ℕ) → owns (handle n) k ≡ (master_of w == n))
      → IsExclusive s
      → IsExclusive (moved w l k x s)
  got-IsExclusive w l k x s out own free gone i = record {
    own_handles = own_handle (master_of w) l s i own;
    working = λ v e. elim (in_scheduler w v x s.phases e) [
      | inl (_, on) ↦ absurd (out on)
      | inr before ↦ absurd (true-false (sym (i.working v before) ∙ free (master_of v)))
    ];
    marked = λ n e. elim (Bool-cases (master_of w == n)) [
      | inl q ↦ gone n ∙ q
      | inr q ↦ absurd (true-false (sym (i.marked n (rw q at e)) ∙ free n))
    ];
    one_owner = λ n o a b.
        sym ((==_iff (master_of w) n).0 (sym (gone n) ∙ a))
        ∙ (==_iff (master_of w) o).0 (sym (gone o) ∙ b);
  }
