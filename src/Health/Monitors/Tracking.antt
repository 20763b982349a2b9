-- ===== src/Health/Monitors/Tracking.antt =====
-- Which monitors a sync keeps.
use consul_scheduler.Prelude.{
  none-some, some_inj, String, ◌≡◌, sym, ap, ◌∙◌, inl, inr, true, false, none, some, List, [], ◌∷◌,
  str_eq, str_eq_iff, Bool-cases, Assoc, lookup, delete, lookup-delete, lookup-delete_self,
}
use consul_scheduler.Api.Types.{Task}
use consul_scheduler.Health.Monitor.{Monitor}
use consul_scheduler.Health.Monitors.{add_tasks, has_task, collect, sync_monitors}

kept_by_delete :
    (j k : String) (m : Assoc Monitor) (x : Monitor)
    → lookup k (delete j m) ≡ some x
    → lookup k m ≡ some x
kept_by_delete j k m x h = elim (Bool-cases (str_eq j k)) [
  | inl e ↦ absurd (none-some (rw e at (sym (lookup-delete j k m) ∙ h)))
  | inr e ↦ rw e at (sym (lookup-delete j k m) ∙ h)
]

delete-none : (j k : String) (m : Assoc Monitor) → lookup k m ≡ none → lookup k (delete j m) ≡ none
delete-none j k m h = elim (Bool-cases (str_eq j k)) [
  | inl e ↦ lookup-delete j k m ∙ rw e
  | inr e ↦ lookup-delete j k m ∙ rw e h
]

-- The collection only removes.
collect-none :
    (tasks : List Task) (rest m : Assoc Monitor) (k : String)
    → lookup k m ≡ none
    → lookup k (collect tasks rest m) ≡ none
unfolding collect
collect-none tasks [] m k h = h
collect-none tasks ((j, x) ∷ rest) m k h = elim (Bool-cases (has_task (x.check).task_id tasks)) [
  | inl e ↦ rw e (collect-none tasks rest m k h)
  | inr e ↦ rw e (collect-none tasks rest (delete j m) k (delete-none j k m h))
]

collect_gone :
    (tasks : List Task) (rest m : Assoc Monitor) (k : String) (x : Monitor)
    → lookup k rest ≡ some x
    → has_task (x.check).task_id tasks ≡ false
    → lookup k (collect tasks rest m) ≡ none
unfolding collect lookup
collect_gone tasks [] m k x l h = absurd (none-some l)
collect_gone tasks ((j, y) ∷ rest) m k x l h = elim (Bool-cases (str_eq j k)) [
  | inl e ↦
      let same : j ≡ k = (str_eq_iff j k).0 e in
      let y_is_x : y ≡ x = some_inj (rw e at l) in
      let gone : lookup k (delete j m) ≡ none =
        ap (λ i. lookup k (delete i m)) same ∙ lookup-delete_self k m in
      let off : has_task (y.check).task_id tasks ≡ false =
        ap (λ z. has_task (z.check).task_id tasks) y_is_x ∙ h in
      rw off (collect-none tasks rest (delete j m) k gone)
  | inr e ↦ collect_gone tasks rest _ k x (rw e at l) h
]

collect_same :
    (tasks : List Task) (rest m : Assoc Monitor) (k : String) (x : Monitor)
    → lookup k (collect tasks rest m) ≡ some x
    → lookup k m ≡ some x
unfolding collect
collect_same tasks [] m k x h = h
collect_same tasks ((j, y) ∷ rest) m k x h = elim (Bool-cases (has_task (y.check).task_id tasks)) [
  | inl e ↦ collect_same tasks rest m k x (rw e at h)
  | inr e ↦ kept_by_delete j k m x (collect_same tasks rest (delete j m) k x (rw e at h))
]

-- Every monitor that a sync leaves in the map watches a task that was listed.
pub sync_monitors_listed :
    (tasks : List Task) (m : Assoc Monitor) (k : String) (x : Monitor)
    → lookup k (sync_monitors tasks m) ≡ some x
    → has_task (x.check).task_id tasks ≡ true
unfolding sync_monitors
sync_monitors_listed tasks m k x h =
    let all = add_tasks tasks m in
    elim (Bool-cases (has_task (x.check).task_id tasks)) [
      | inl e ↦ e
      | inr e ↦ absurd (
          none-some (sym (collect_gone tasks all all k x (collect_same tasks all all k x h) e) ∙ h))
    ]
