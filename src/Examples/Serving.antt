-- ===== src/Examples/Serving.antt =====
-- The theorems of the master, of the discovery and of the commands, at the small cluster.
use consul_scheduler.Prelude.{
  String, ◌≡◌, refl, sym, ap, ◌∙◌, ◌≢◌, ◌↔◌, inl, inr, true, false, none, some, [], ◌∷◌, map, arith,
  str_eq, str_eq_iff, Bool-cases, lookup, values,
}
use consul_scheduler.Api.Types.{Cluster, Deployment, any_task}
use consul_scheduler.Api.Results.{Error, ok, err, returns, Returns}
use consul_scheduler.Backends.Mock.{MockApi, mock_api, find}
use consul_scheduler.Master.Queue.{Slice, contents, do_enqueue, Listen, Request, same_request}
use consul_scheduler.Master.Queue.Cells.{Distinct}
use consul_scheduler.Master.Queue.Unique.{do_enqueue_lem, Listen-InOrder, InOrder}
use consul_scheduler.Master.Queue.Removal.{Enqueued}
use consul_scheduler.Master.Dispatch.{dispatch_loop, dispatch_all, run_garbage_collect, Master}
use consul_scheduler.Master.Dispatch.Requests.{request, dispatch_all_lem, run_garbage_collect_keeps}
use consul_scheduler.Actions.Apply.{Document, apply_config}
use consul_scheduler.Actions.Apply.Effects.{KeptByValid, apply_config_keeps}
use consul_scheduler.Examples.Fixtures.{ne_of, site, main, store, ready_scheduler}

abbrev ask : String → Request
ask name = record { cluster = "main"; service = name }

same_request_iff : (a b : Request) → (same_request a b ≡ true) ↔ (a ≡ b)
unfolding same_request
same_request_iff a b =
    ground (arith, str_eq_iff a.cluster b.cluster, str_eq_iff a.service b.service)

abbrev waiting : Slice Request
waiting = record { array = ask "one" ∷ ask "two" ∷ []; len = 2 }

one_two : str_eq "one" "two" ≡ false
unfolding str_eq
one_two = refl

two-Distinct : Distinct (contents waiting)
two-Distinct = (((λ e. ne_of "one" "two" one_two (ap (λ r. r.service) e)), tt), (tt, tt))

do_enqueue_lem_example :
    (t : Slice Request) × (do_enqueue same_request (ask "one") waiting ≡ returns t)
    × Enqueued same_request (ask "one") waiting t
do_enqueue_lem_example =
    do_enqueue_lem same_request (ask "one") same_request_iff waiting (omega arith) two-Distinct

abbrev served : Slice Request
served = record { array = ask "one" ∷ ask "two" ∷ []; len = 1 }

takes_last : Listen same_request waiting served
unfolding consul_scheduler.Master.Queue.do_dequeue
takes_last = Listen.dequeued (ask "two") served refl

Listen-InOrder_example : InOrder served
Listen-InOrder_example =
    Listen-InOrder same_request same_request_iff waiting served (omega arith, two-Distinct)
      takes_last

err_ok : {d : Deployment} {x : Error} → err x ≢ ok d
err_ok e = cc

ok_inj : {c d : Deployment} → ok c ≡ ok d → c ≡ d
ok_inj e = cc

own_names : (n : String) (d : Deployment) → mock_api.get_deployment n store ≡ ok d → d.name ≡ n
unfolding mock_api consul_scheduler.Backends.Mock.find lookup
own_names n d h = elim (Bool-cases (str_eq "site" n)) [
  | inl e ↦
      ap (λ x. x.name) (sym (ok_inj (rw (e, find, lookup, mock_api) at h)))
      ∙ (str_eq_iff "site" n).0 e
  | inr e ↦ absurd (err_ok (rw (e, find, lookup, mock_api) at h))
]

dispatched : (dispatch_all mock_api "main" store).1 ≡ none
unfolding dispatch_all dispatch_loop mock_api consul_scheduler.Backends.Mock.find lookup str_eq
dispatched = refl

dispatch_all_lem_example :
    (c : Cluster) × (mock_api.get_cluster "main" store ≡ ok c)
    × ((dispatch_all mock_api "main" store).0 ≡ map (request mock_api c) c.deployments)
dispatch_all_lem_example = dispatch_all_lem mock_api "main" store own_names dispatched

lists_back :
    Returns (λ r. Unit {0}) (mock_api.list_tasks (record any_task { by_cluster = "main" }) store)
unfolding mock_api consul_scheduler.Backends.Mock.list_tasks
    consul_scheduler.Backends.Mock.list_loop values
lists_back = tt

run_garbage_collect_keeps_example :
    Returns (λ r. (r.0).clusters ≡ store.clusters) (run_garbage_collect mock_api "main" store)
unfolding mock_api consul_scheduler.Backends.Mock.put_task consul_scheduler.Backends.Mock.emit
run_garbage_collect_keeps_example =
    run_garbage_collect_keeps mock_api (λ (s : MockApi). s.clusters ≡ store.clusters) "main" store
      (λ c t s e o p. p) lists_back refl

abbrev master : Master (Unit {0}) MockApi
master = record { schedulers = "" ∷ []; scheduler = ready_scheduler; locks = [] }

abbrev document : Document
document = record {
  clusters = main ∷ [];
  deployments = [];
  task_definitions = [];
  services = [];
  deployment = some site;
  task_definition = none;
  cluster = none;
  service = none;
}

keeps_tasks : KeptByValid mock_api (λ (s : MockApi). s.tasks ≡ [])
unfolding mock_api consul_scheduler.Backends.Mock.put_cluster
    consul_scheduler.Backends.Mock.put_deployment consul_scheduler.Backends.Mock.put_service
    consul_scheduler.Backends.Mock.put_task_definition consul_scheduler.Backends.Mock.emit
keeps_tasks = record {
  definition = λ t s e p. p;
  deployment = λ d s e p. p;
  cluster = λ c s e p. p;
  service = λ v s e p. p;
}

apply_config_keeps_example : Returns (λ s. s.tasks ≡ []) (apply_config mock_api document store)
apply_config_keeps_example =
    apply_config_keeps mock_api (λ (s : MockApi). s.tasks ≡ []) keeps_tasks document store refl refl
