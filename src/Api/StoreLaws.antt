-- ===== src/Api/StoreLaws.antt =====
-- What every backend promises of its configuration objects: api/generic_api.go read as a store.
use consul_scheduler.Prelude.{
  true-false, String, ◌≡◌, sym, subst, ◌∙◌, ◌≢◌, inl, inr, Option, none, if◌then◌else◌, str_eq,
  str_eq_iff, Bool-cases,
}
use consul_scheduler.Api.Types.{Cluster, Deployment, Service}
use consul_scheduler.Api.Results.{Error, Result, ok}
use consul_scheduler.Api.Backend.{SchedulerApi}

-- A kind of object: its key, its put and its get. A put with no error is read back, and no put
-- touches the object of another key.
pub record Stores {S A K : Type 0} (put : A → S → S × Option Error) (get : K → S → Result A)
    (key : A → K) : Type 0 where
  pub get_put : (x : A) (s : S) → (put x s).1 ≡ none → get (key x) (put x s).0 ≡ ok x
  pub get_put_other : (x : A) (k : K) (s : S) → key x ≢ k → get k (put x s).0 ≡ get k s

pub record StoreLaws {S : Type 0} (api : SchedulerApi S) : Type 0 where
  pub clusters : Stores api.put_cluster api.get_cluster (λ (c : Cluster). c.name)
  pub deployments : Stores api.put_deployment api.get_deployment (λ (d : Deployment). d.name)
  pub services : Stores api.put_service api.get_service (λ (v : Service). v.name)

-- After a put with no error, a get of any key reads the object that was put, or what it read before.
pub Stores-reads :
    {S A : Type 0} (put : A → S → S × Option Error) (get : String → S → Result A) (key : A → String)
    → Stores put get key
    → (x : A) (j : String) (s : S) → (put x s).1 ≡ none
    → get j (put x s).0 ≡ (if str_eq (key x) j then ok x else get j s)
Stores-reads put get key w x j s e = elim (Bool-cases (str_eq (key x) j)) [
  | inl q ↦
      rw q (subst (λ k. get k (put x s).0 ≡ ok x) ((str_eq_iff (key x) j).0 q) (w.get_put x s e))
  | inr q ↦ rw q (w.get_put_other x j s (λ p. true-false (sym ((str_eq_iff (key x) j).1 p) ∙ q)))
]
