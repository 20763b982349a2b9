-- ===== src/Scheduler/Schedule/Written.antt =====
-- What the backend holds for the task map of Schedule of scheduler/scheduler.go.
pub mod Phases
use consul_scheduler.Prelude.{
  String, ◌≡◌, refl, sym, subst, ap, ◌∙◌, inl, inr, Bool, true, false, none, some, List, [], ◌∷◌,
  if◌then◌else◌, str_eq, str_eq_iff, str_eq_refl, some_inj, none-some, Bool-cases, All, All-insert,
  Assoc, lookup, insert, lookup-insert, lookup-delete,
}
use consul_scheduler.Api.Types.{Task}
use consul_scheduler.Api.Results.{ok}
use consul_scheduler.Api.Definitions.{task_name, task_id}
use consul_scheduler.Api.Backend.{SchedulerApi}
use consul_scheduler.Api.StoreLaws.{Stores, Stores-reads}
use consul_scheduler.Scheduler.Schedule.{Pass, task_map_of, unschedule}

-- The backend takes every task that is put, and gives it back under its id.
pub record TaskStore {S : Type 0} (api : SchedulerApi S) : Type 0 where
  pub stored : Stores api.put_task api.get_task task_id
  pub takes : (t : Task) (s : S) → (api.put_task t s).1 ≡ none

-- Each entry of the map stands under its task's id.
abbrev pub IsNamed : Assoc Task → Type 0
IsNamed m = All (λ e. task_id e.1 ≡ e.0) m

pub task_map_of-IsNamed : (m : Assoc Task) (ts : List Task) → IsNamed m → IsNamed (task_map_of m ts)
unfolding task_map_of
task_map_of-IsNamed m [] n = n
task_map_of-IsNamed m (t ∷ ts) n =
    task_map_of-IsNamed (insert (task_id t) t m) ts (All-insert _ (task_id t) t m refl n)

pub lookup-IsNamed :
    (m : Assoc Task) (k : String) (t : Task) → IsNamed m → lookup k m ≡ some t → task_id t ≡ k
unfolding lookup
lookup-IsNamed [] k t n h = absurd (none-some h)
lookup-IsNamed ((j, u) ∷ m) k t n h = elim (Bool-cases (str_eq j k)) [
  | inl q ↦ ap task_id (sym (some_inj (rw q at h))) ∙ n.0 ∙ (str_eq_iff j k).0 q
  | inr q ↦ lookup-IsNamed m k t n.1 (rw q at h)
]

module _ {S : Type 0} (api : SchedulerApi S) where
  -- The backend has the task under the key, as one that is scheduled.
  pub record IsWrittenAs (s : S) (k : String) (t : Task) : Type 0 where
    pub stored : api.get_task k s ≡ ok t
    pub scheduled : t.scheduled ≡ true
    pub named : task_id t ≡ k

  abbrev pub Written : S → Assoc Task → Type 0
  Written s m = (k : String) (t : Task) → lookup k m ≡ some t → IsWrittenAs s k t

  -- An entry of the map is the one that was put last, or one from before under another key.
  insert-Written :
      (s : S) (m : Assoc Task) (key : String) (t : Task) (k : String) (u : Task)
      → IsWrittenAs s key t
      → (str_eq key k ≡ false → (v : Task) → lookup k m ≡ some v → IsWrittenAs s k v)
      → lookup k (insert key t m) ≡ some u
      → IsWrittenAs s k u
  insert-Written s m key t k u h w l = elim (Bool-cases (str_eq key k)) [
    | inl q ↦
        let same : some t ≡ some u = rw q at (sym (lookup-insert key k t m) ∙ l) in
        subst (λ z. IsWrittenAs s z u) ((str_eq_iff key k).0 q)
          (subst (λ z. IsWrittenAs s key z) (some_inj same) h)
    | inr q ↦ w q u (rw q at (sym (lookup-insert key k t m) ∙ l))
  ]

  pub task_map_of-Written :
      (s : S) (m : Assoc Task) (ts : List Task)
      → Written s m
      → All (λ t. IsWrittenAs s (task_id t) t) ts
      → Written s (task_map_of m ts)
  unfolding task_map_of
  task_map_of-Written s m [] w a = w
  task_map_of-Written s m (t ∷ ts) w a =
      task_map_of-Written s (insert (task_id t) t m) ts
        (λ k u l. insert-Written s m (task_id t) t k u a.0 (λ _ v e. w k v e) l) a.1

  module _ (laws : TaskStore api) where
    pub put_reads :
        (t : Task) (k : String) (s : S)
        → api.get_task k (api.put_task t s).0
          ≡ (if str_eq (task_id t) k then ok t else api.get_task k s)
    put_reads t k s =
        Stores-reads api.put_task api.get_task task_id laws.stored t k s (laws.takes t s)

    -- A put leaves what the backend has under another key.
    kept :
        (t : Task) (s : S) (k : String) (v : Task)
        → str_eq (task_id t) k ≡ false
        → IsWrittenAs s k v
        → IsWrittenAs (api.put_task t s).0 k v
    kept t s k v away h = record {
      stored = rw away at (put_reads t k s) ∙ h.stored;
      scheduled = h.scheduled;
      named = h.named;
    }

    pub put-Written :
        (t : Task) (s : S) (m : Assoc Task)
        → t.scheduled ≡ true
        → Written s m
        → Written (api.put_task t s).0 (insert (task_id t) t m)
    put-Written t s m on w k u l =
        insert-Written (api.put_task t s).0 m (task_id t) t k u
          (record {
            stored = put_reads t (task_id t) s ∙ rw (str_eq_refl (task_id t));
            scheduled = on;
            named = refl;
          })
          (λ away v e. kept t s k v away (w k v e)) l

    pub unschedule-Written :
        (key : String) (t : Task) (p : Pass S)
        → task_id t ≡ key
        → Written p.store p.task_map
        → Written (unschedule api key t p).store (unschedule api key t p).task_map
    unfolding unschedule task_id task_name
    unschedule-Written key t p n w k u l = elim (Bool-cases (str_eq key k)) [
      | inl q ↦ absurd (none-some (rw q at (sym (lookup-delete key k p.task_map) ∙ l)))
      | inr q ↦
          let off = record t { scheduled = false } in
          let away : str_eq (task_id off) k ≡ false = ap (λ z. str_eq z k) n ∙ q in
          kept off p.store k u away (w k u (rw q at (sym (lookup-delete key k p.task_map) ∙ l)))
    ]
