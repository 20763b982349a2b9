-- ===== src/Scheduler/Schedule/Syncing.antt =====
-- The map of hosts that Schedule works on, and the whole of Schedule.
use consul_scheduler.Prelude.{
  ℕ, String, ◌≡◌, refl, ap, ◌∙◌, ◌≢◌, inl, inr, Bool, true, false, Option, none, some, List, [],
  ◌∷◌, arith, if◌then◌else◌, str_eq_iff, Option-cases, All, Assoc, lookup, insert, lookup-insert,
}
use consul_scheduler.Api.Types.{Cluster, Deployment, Host, TaskDefinition, Task}
use consul_scheduler.Api.Results.{
  Error, Result, ok, err, Outcome, returns, hangs, panics, Ensures, Ensures-and_then,
  and_then-returns, Result-cases,
}
use consul_scheduler.Api.Backend.{SchedulerApi}
use consul_scheduler.Scheduler.Hosts.Fit.{NonNegative}
use consul_scheduler.Scheduler.Hosts.Choice.{IsKeyed}
use consul_scheduler.Scheduler.Schedule.Keeps.{Contract, IsGood}
use consul_scheduler.Scheduler.Schedule.Keeps.Placing.{run_pass-IsGood}
use consul_scheduler.Scheduler.Hosts.Standing.{AllFit, AllFit-insert, IsKeyed-insert}
use consul_scheduler.Scheduler.Schedule.{
  Scheduler, add_hosts, sync_hosts, run_pass, start_pass, query_of, schedule_listed,
  schedule_synced, schedule,
}

-- If every listed host of a name is draining, the map holds under that name what it held before:
-- the host is not entered, and an entry from an earlier call is neither taken out nor changed.
pub add_hosts_draining :
    (n : String) (hosts : Assoc Host) (listed : List Host)
    → All (λ h. h.name ≡ n → h.draining ≡ true) listed
    → lookup n (add_hosts hosts listed) ≡ lookup n hosts
unfolding add_hosts
add_hosts_draining n hosts [] a = refl
add_hosts_draining n hosts (h ∷ hs) a =
    add_hosts_draining n (if h.draining then hosts else insert h.name h hosts) hs a.1
    ∙ ground (arith, a.0, lookup-insert h.name n h hosts, str_eq_iff h.name n)

-- What the backend lists.
abbrev pub ListedHost : Host → Type 0
ListedHost h = (h.name ≢ "") × NonNegative h.calculated_resources

if_keeps :
    (Q : Assoc Host → Type 0) (b : Bool) (x y : Assoc Host) → Q x → Q y → Q (if b then x else y)
if_keeps Q true x y hx hy = hx
if_keeps Q false x y hx hy = hy

pub add_hosts-IsKeyed :
    (hosts : Assoc Host) (listed : List Host)
    → All ListedHost listed
    → IsKeyed hosts
    → IsKeyed (add_hosts hosts listed)
unfolding add_hosts
add_hosts-IsKeyed hosts [] a w = w
add_hosts-IsKeyed hosts (h ∷ hs) a w =
    add_hosts-IsKeyed (if h.draining then hosts else insert h.name h hosts) hs a.1 (
      if_keeps IsKeyed h.draining hosts (insert h.name h hosts) w
        (IsKeyed-insert h.name h hosts refl (a.0).0 w))

pub add_hosts-AllFit :
    (hosts : Assoc Host) (listed : List Host)
    → All ListedHost listed
    → AllFit hosts
    → AllFit (add_hosts hosts listed)
unfolding add_hosts
add_hosts-AllFit hosts [] a w = w
add_hosts-AllFit hosts (h ∷ hs) a w =
    add_hosts-AllFit (if h.draining then hosts else insert h.name h hosts) hs a.1 (
      if_keeps AllFit h.draining hosts (insert h.name h hosts) w
        (AllFit-insert h.name h hosts (a.0).1 w))

module _ {S : Type 0} (api : SchedulerApi S) (draw : ℕ → ℕ → ℕ) (fuel : ℕ) where
  listed_error :
      (c : Cluster) (d : Deployment) (def : TaskDefinition) (s : Scheduler S)
      (l : Result (List Task)) (s' : Scheduler S) (e : Error)
      → schedule_listed api draw fuel c d def s l ≡ returns (s', some e)
      → s' ≡ s
  unfolding schedule_listed
  listed_error c d def s (err x) s' e q = ground arith
  listed_error c d def s (ok tasks) s' e q =
      let (p, _, r) =
        and_then-returns (run_pass api draw fuel c def d tasks (start_pass api s tasks)) _ q in
      absurd (ground arith)

  synced_error :
      (c : Cluster) (d : Deployment) (s : Scheduler S) (hosts : Assoc Host) (s' : Scheduler S)
      (e : Error)
      → s.hosts ≡ hosts
      → schedule_synced api draw fuel c d s ≡ returns (s', some e)
      → s' ≡ s
  unfolding schedule_synced
  synced_error c d s [] s' e q r = let r' = rw (q, schedule_synced) at r in ground arith
  synced_error c d s (x ∷ xs) s' e q r =
      elim (Result-cases (api.get_task_definition d.task_name d.task_version s.store)) [
        | inr (x', n) ↦ let r' = rw (q, n, schedule_synced) at r in ground arith
        | inl (def, n) ↦
            let r' = rw (q, n, schedule_synced) at r in
            let (l, _, last) =
              and_then-returns (api.list_tasks (query_of c d) s.store)
                (schedule_listed api draw fuel c d def s) r' in
            listed_error c d def s l s' e last
      ]

  sync_hosts-store :
      (c : Cluster) (s s' : Scheduler S) → sync_hosts api c s ≡ ok s' → s'.store ≡ s.store
  unfolding sync_hosts
  sync_hosts-store c s s' q = elim (Result-cases (api.list_hosts c.name s.store)) [
    | inl (hosts, n) ↦ let q' = rw (n, sync_hosts) at q in ground arith
    | inr (e, n) ↦ let q' = rw (n, sync_hosts) at q in ground arith
  ]

  -- Whenever Schedule returns an error, the backend is as it was.
  pub schedule_error_untouched :
      (d : Deployment) (s s' : Scheduler S) (e : Error)
      → schedule api draw fuel d s ≡ returns (s', some e)
      → s'.store ≡ s.store
  unfolding schedule
  schedule_error_untouched d s s' e q = elim (Option-cases s.cluster) [
    | inl n ↦ let q' = rw (n, schedule) at q in ground arith
    | inr (c, n) ↦ elim (Result-cases (sync_hosts api c s)) [
      | inr (x, m) ↦ let q' = rw (n, m, schedule) at q in ground arith
      | inl (s1, m) ↦
          let q' = rw (n, m, schedule) at q in
          ap (λ (z : Scheduler S). z.store) (synced_error c d s1 s1.hosts s' e refl q')
          ∙ sync_hosts-store c s s1 m
    ]
  ]

module _ {S : Type 0} (api : SchedulerApi S) (P : S → Type 0) where
  abbrev pub Kept : Scheduler S × Option Error → Type 0
  Kept r = IsKeyed (r.0).hosts × AllFit (r.0).hosts × P (r.0).store

  -- What a scheduler and its backend must give for a call of Schedule.
  pub record IsReady (s : Scheduler S) : Type 0 where
    pub keyed : IsKeyed s.hosts
    pub fit : AllFit s.hosts
    pub kept : P s.store
    pub lists_hosts :
        (c : String) (hosts : List Host)
        → api.list_hosts c s.store ≡ ok hosts
        → All ListedHost hosts
    pub lists_tasks :
        (c : Cluster) (d : Deployment) → api.list_tasks (query_of c d) s.store ≢ panics

  module _ (draw : ℕ → ℕ → ℕ) (fuel : ℕ) (contract : Contract api P) where
    listed-Kept :
        (c : Cluster) (d : Deployment) (def : TaskDefinition) (s : Scheduler S)
        (l : Result (List Task))
        → Kept (s, none)
        → Ensures Kept (schedule_listed api draw fuel c d def s l)
    unfolding schedule_listed start_pass
    listed-Kept c d def s (err x) k = k
    listed-Kept c d def s (ok tasks) k =
        Ensures-and_then (IsGood api P) Kept
          (run_pass api draw fuel c def d tasks (start_pass api s tasks)) _
          (run_pass-IsGood api P contract draw fuel c def d tasks (start_pass api s tasks)
            (record { keyed = k.0; fit = k.1; kept = k.2 }))
          (λ p g. (g.keyed, g.fit, g.kept))

    not_panics : (o : Outcome (Result (List Task))) → o ≢ panics → Ensures (λ _. Unit {0}) o
    not_panics (returns a) n = tt
    not_panics hangs n = tt
    not_panics panics n = n refl

    synced-Kept :
        (c : Cluster) (d : Deployment) (s : Scheduler S) (hosts : Assoc Host)
        → s.hosts ≡ hosts
        → Kept (s, none)
        → api.list_tasks (query_of c d) s.store ≢ panics
        → Ensures Kept (schedule_synced api draw fuel c d s)
    unfolding schedule_synced
    synced-Kept c d s [] q k n = rw (q, schedule_synced) k
    synced-Kept c d s (x ∷ xs) q k n =
        elim (Result-cases (api.get_task_definition d.task_name d.task_version s.store)) [
          | inr (e, m) ↦ rw (q, m, schedule_synced) k
          | inl (def, m) ↦
              rw (q, m, schedule_synced)
                (Ensures-and_then (λ _. Unit {0}) Kept (api.list_tasks (query_of c d) s.store) _
                  (not_panics _ n) (λ l _. listed-Kept c d def s l k))
        ]

    -- Let the hosts of the scheduler stand under their own names with no resource below zero, let
    -- the backend list such hosts and not panic on listing tasks, and let its invariant P survive
    -- the two kinds of write. Then Schedule does not panic; and where it returns, with an error or
    -- without, no host has a resource below zero, the hosts stand under their own names, and the
    -- invariant holds.
    pub schedule-Kept :
        (d : Deployment) (s : Scheduler S) → IsReady s → Ensures Kept (schedule api draw fuel d s)
    unfolding schedule
    schedule-Kept d s r = elim (Option-cases s.cluster) [
      | inl n ↦ rw (n, schedule) (r.keyed, r.fit, r.kept)
      | inr (c, n) ↦ elim (Result-cases (api.list_hosts c.name s.store)) [
        | inr (x, m) ↦
            let e : sync_hosts api c s ≡ err x = unfold sync_hosts in rw m in
            rw (n, e, schedule) (r.keyed, r.fit, r.kept)
        | inl (hosts, m) ↦
            let s1 = record s { hosts = add_hosts s.hosts hosts } in
            let e : sync_hosts api c s ≡ ok s1 = unfold sync_hosts in rw m in
            let l = r.lists_hosts c.name hosts m in
            rw (n, e, schedule)
              (synced-Kept c d s1 s1.hosts refl
                (
                  add_hosts-IsKeyed s.hosts hosts l r.keyed,
                  add_hosts-AllFit s.hosts hosts l r.fit,
                  r.kept,
                )
                (r.lists_tasks c d))
      ]
    ]
