-- ===== src/Examples/Scaling.antt =====
-- A pass at the small cluster, with one task more than is wanted.
use consul_scheduler.Prelude.{
  ℕ, ℤ, ◌≤◌, ◌<◌, pos, String, ◌≡◌, refl, some, List, [], ◌∷◌, inl, arith, str_eq, length, lookup,
  show, show_fuel,
}
use consul_scheduler.Api.Types.{Task}
use consul_scheduler.Api.Results.{returns}
use consul_scheduler.Api.Definitions.{task_id, task_name, new_task}
use consul_scheduler.Backends.Mock.{MockApi, mock_api}
use consul_scheduler.Backends.Mock.Filling.{mock-TaskStore}
use consul_scheduler.Scheduler.Schedule.Written.{IsNamed, lookup-IsNamed}
use consul_scheduler.Scheduler.Schedule.{Pass, run_pass}
use consul_scheduler.Scheduler.Schedule.Settled.{IsSettled}
use consul_scheduler.Scheduler.Schedule.Scaling.{ScaledDown, run_pass_scales_down}
use consul_scheduler.Examples.Fixtures.{
  host_one, web_definition, site, main, placed_task, no_draw, first_pass,
}

abbrev instance : ℤ → Task
instance i = record placed_task { instance_no = i }

abbrev three : List Task
three = instance (pos 0) ∷ instance (pos 1) ∷ instance (pos 2) ∷ []

abbrev full_pass : Pass MockApi
full_pass = record first_pass {
  task_map =
      ("main-site-1-0", instance (pos 0))
      ∷ ("main-site-1-1", instance (pos 1))
      ∷ ("main-site-1-2", instance (pos 2))
      ∷ [];
}

instance-IsSettled : (i : ℤ) → IsSettled (("one", host_one) ∷ []) site 3 (instance i)
unfolding lookup str_eq new_task
instance-IsSettled i = record { placed = (host_one, refl); accepted = refl; version = inl refl }

full_pass-IsNamed : IsNamed full_pass.task_map
unfolding task_id task_name new_task show show_fuel consul_scheduler.Prelude.show_ℤ
full_pass-IsNamed = (refl, (refl, (refl, tt)))

keys_kept : (k : String) (t : Task) → lookup k full_pass.task_map ≡ some t → task_id t ≡ k
keys_kept k t h = lookup-IsNamed full_pass.task_map k t full_pass-IsNamed h

run_pass_scales_down_example :
    (q : Pass MockApi) × (run_pass mock_api no_draw 9 main web_definition site three full_pass
      ≡ returns q)
    × ScaledDown mock_api main site 2 (length three) full_pass q
run_pass_scales_down_example =
    run_pass_scales_down mock_api main site mock-TaskStore no_draw 9 web_definition 2 three
      full_pass (omega arith) (omega arith) refl refl keys_kept
      (instance-IsSettled (pos 0), (instance-IsSettled (pos 1), (instance-IsSettled (pos 2), tt)))
