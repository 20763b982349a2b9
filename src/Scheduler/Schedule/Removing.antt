-- ===== src/Scheduler/Schedule/Removing.antt =====
-- What the downward loop of Schedule of scheduler/scheduler.go writes to the backend.
use consul_scheduler.Prelude.{
  ℕ, zero, suc, ℤ, pos, ltb_ℤ, sub64, String, ◌≡◌, refl, sym, ap, ◌∙◌, inl, inr, false, none, some,
  str_eq, str_eq_iff, none-some, some_inj, Bool-cases, Option-cases, lookup, lookup-delete,
  if◌then◌else◌,
}
use consul_scheduler.Api.Types.{Cluster, Deployment, Task}
use consul_scheduler.Api.Results.{ok}
use consul_scheduler.Api.Definitions.{task_name, task_id, make_task_id}
use consul_scheduler.Api.Backend.{SchedulerApi}
use consul_scheduler.Scheduler.Schedule.Written.{TaskStore, put_reads}
use consul_scheduler.Scheduler.Schedule.{Pass, unschedule, remove_instance, scale_down, shrink}

module _ {S : Type 0} (api : SchedulerApi S) (laws : TaskStore api) (p : Pass S) where
  -- Every task of the map stands under its id.
  abbrev pub IsKept : Type 0
  IsKept = (k : String) (t : Task) → lookup k p.task_map ≡ some t → task_id t ≡ k

  abbrev off : Task → Task
  off t = record t { scheduled = false }

  -- The task under a key of the first pass is in the map still, with the backend as it was for it, or
  -- it is out of the map and the backend has it as one that is not scheduled.
  pub data Fate (q : Pass S) (k : String) (t : Task) : Type 0 where
    stays :
        lookup k q.task_map ≡ some t → api.get_task k q.store ≡ api.get_task k p.store → Fate q k t
    leaves :
        lookup k q.task_map ≡ none
        → api.get_task k q.store ≡ ok (record t { scheduled = false })
        → Fate q k t

  -- Each task of the first pass has its fate, and nothing has come into the map or into the backend
  -- under a key that had no task.
  pub record Accounts (q : Pass S) : Type 0 where
    pub fates : (k : String) (t : Task) → lookup k p.task_map ≡ some t → Fate q k t
    pub fresh : (k : String) → lookup k p.task_map ≡ none → lookup k q.task_map ≡ none
    pub others :
        (k : String) → lookup k p.task_map ≡ none → api.get_task k q.store ≡ api.get_task k p.store

  -- A task of the map is the one that the first pass had under its key.
  origin :
      (q : Pass S) (k : String) (t : Task)
      → Accounts q
      → lookup k q.task_map ≡ some t
      → (lookup k p.task_map ≡ some t) × (api.get_task k q.store ≡ api.get_task k p.store)
  origin q k t a l = elim (Option-cases (lookup k p.task_map)) [
    | inl n ↦ absurd (none-some (sym (a.fresh k n) ∙ l))
    | inr (u, h) ↦ elim (a.fates k u h) [
      | stays in_map same ↦ (h ∙ sym in_map ∙ l, same)
      | leaves out written ↦ absurd (none-some (sym out ∙ l))
    ]
  ]

  off_id : (t : Task) → task_id (off t) ≡ task_id t
  unfolding task_id task_name
  off_id t = refl

  unschedule-Accounts :
      (key : String) (t : Task) (q : Pass S)
      → IsKept
      → lookup key q.task_map ≡ some t
      → Accounts q
      → Accounts (unschedule api key t q)
  unfolding unschedule
  unschedule-Accounts key t q kept l a =
      let (from, _) = origin q key t a l in
      let named : task_id (off t) ≡ key = off_id t ∙ kept key t from in
      let reads : (k : String)
          → api.get_task k (api.put_task (off t) q.store).0
            ≡ (if str_eq key k then ok (off t) else api.get_task k q.store) =
        λ k.
          put_reads api laws (off t) k q.store
          ∙ ap (λ z. if str_eq z k then ok (off t) else api.get_task k q.store) named in
      record {
        fates = λ k u h. elim (Bool-cases (str_eq key k)) [
          | inl same ↦
              let at = (str_eq_iff key k).0 same in
              let is : t ≡ u = some_inj (sym from ∙ ap (λ z. lookup z p.task_map) at ∙ h) in
              leaves (lookup-delete key k q.task_map ∙ rw same) (reads k ∙ rw (same, is))
          | inr apart ↦ elim (a.fates k u h) [
            | stays in_map was ↦
                stays (lookup-delete key k q.task_map ∙ rw apart in_map) (reads k ∙ rw apart was)
            | leaves out written ↦
                leaves (lookup-delete key k q.task_map ∙ rw apart out) (reads k ∙ rw apart written)
          ]
        ];
        fresh = λ k n. elim (Bool-cases (str_eq key k)) [
          | inl same ↦ lookup-delete key k q.task_map ∙ rw same
          | inr apart ↦ lookup-delete key k q.task_map ∙ rw apart (a.fresh k n)
        ];
        others = λ k n. elim (Bool-cases (str_eq key k)) [
          | inl same ↦
              let at = (str_eq_iff key k).0 same in
              absurd (none-some (sym n ∙ ap (λ z. lookup z p.task_map) (sym at) ∙ from))
          | inr apart ↦ reads k ∙ rw apart (a.others k n)
        ];
      }

  start-Accounts : Accounts p
  start-Accounts = record { fates = λ k t h. stays h refl; fresh = λ k n. n; others = λ k n. refl }

  module _ (cl : Cluster) (d : Deployment) (kept : IsKept) where
    remove_instance-Accounts :
        (i : ℤ) (q : Pass S) → Accounts q → Accounts (remove_instance api cl d i q)
    unfolding remove_instance
    remove_instance-Accounts i q a = elim (Option-cases (lookup (make_task_id cl d i) q.task_map)) [
      | inl e ↦ rw (e, remove_instance) a
      | inr (t, e) ↦
          rw (e, remove_instance) (unschedule-Accounts (make_task_id cl d i) t q kept e a)
    ]

    scale_down-Accounts :
        (fuel : ℕ) (i : ℤ) (q : Pass S) → Accounts q → Accounts (scale_down api fuel cl d i q).1
    unfolding scale_down
    scale_down-Accounts zero i q a = a
    scale_down-Accounts (suc fuel) i q a = elim (Bool-cases (ltb_ℤ (sub64 d.desired (pos 1)) i)) [
      | inl e ↦
          rw (e, scale_down)
            (scale_down-Accounts fuel (sub64 i (pos 1)) (remove_instance api cl d i q)
              (remove_instance-Accounts i q a))
      | inr e ↦ rw (e, scale_down) a
    ]

    pub shrink-Accounts : (count : ℤ) → Accounts (shrink api cl d count p)
    unfolding shrink
    shrink-Accounts count = elim (Bool-cases (ltb_ℤ d.desired (sub64 count p.removed))) [
      | inl e ↦ rw e (scale_down-Accounts _ _ p start-Accounts)
      | inr e ↦ rw e start-Accounts
    ]
