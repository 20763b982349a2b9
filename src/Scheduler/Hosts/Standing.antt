-- ===== src/Scheduler/Hosts/Standing.antt =====
-- Maps of hosts that stand under their own names with no resource below zero.
use consul_scheduler.Prelude.{
  String, ◌≡◌, refl, subst, ◌≢◌, inl, inr, false, none, [], ◌∷◌, arith, str_eq, str_eq_iff,
  Bool-cases, All, All-insert, Assoc, lookup, insert, lookup-insert,
}
use consul_scheduler.Api.Types.{Host, Task}
use consul_scheduler.Scheduler.Hosts.{match_host}
use consul_scheduler.Scheduler.Hosts.Fit.{NonNegative}
use consul_scheduler.Scheduler.Hosts.Choice.{IsKeyed}

abbrev pub AllFit : Assoc Host → Type 0
AllFit m = All (λ e. NonNegative (e.1).calculated_resources) m

pub AllFit-insert :
    (k : String) (h : Host) (m : Assoc Host)
    → NonNegative h.calculated_resources
    → AllFit m
    → AllFit (insert k h m)
AllFit-insert k h m n a = All-insert (λ e. NonNegative (e.1).calculated_resources) k h m n a

pub IsKeyed-insert :
    (k : String) (h : Host) (m : Assoc Host)
    → h.name ≡ k
    → k ≢ ""
    → IsKeyed m
    → IsKeyed (insert k h m)
unfolding insert lookup
IsKeyed-insert k h [] e n w = (e, n, refl, tt)
IsKeyed-insert k h ((j, x) ∷ m) e n w = elim (Bool-cases (str_eq j k)) [
  | inl q ↦ rw q (e, n, subst (λ s. lookup s m ≡ none) ((str_eq_iff j k).0 q) w.2, w.3)
  | inr q ↦
      let away : str_eq k j ≡ false = ground (arith, str_eq_iff j k, str_eq_iff k j) in
      rw q (w.0, w.1, rw (lookup-insert k j h m, away) w.2, IsKeyed-insert k h m e n w.3)
]

-- matchHost reads nothing of a task but its definition.
pub same_match :
    (t u : Task) (h : Host)
    → u.task_definition ≡ t.task_definition
    → match_host t h ≡ none
    → match_host u h ≡ none
unfolding match_host
same_match t u h e fits = rw e fits
