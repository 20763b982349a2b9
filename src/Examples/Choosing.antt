-- ===== src/Examples/Choosing.antt =====
-- The theorems of the choice of hosts and ports, at the small cluster.
use consul_scheduler.Prelude.{
  ℕ, ◌≤◌, ℤ, pos, String, ◌≡◌, refl, ◌≢◌, ◌↔◌, ◌⊎◌, false, none, some, [], ◌∷◌, map, arith, str_eq,
  All, elem, Assoc, lookup, insert,
}
use consul_scheduler.Api.Types.{Host}
use consul_scheduler.Api.Definitions.{all_ports}
use mathlib.Core.List.{Perm}
use consul_scheduler.Scheduler.Rankers.{RankedHost, score, insert_ranked, rank}
use consul_scheduler.Scheduler.Rankers.Order.{
  rank-perm, insert_ranked-IsDescending_iff, IsDescending, FallsBetween, ranked,
}
use consul_scheduler.Scheduler.Hosts.{match_host, book, select_host}
use consul_scheduler.Scheduler.Hosts.Fit.{match_host_iff, NonNegative, Apart}
use consul_scheduler.Scheduler.Hosts.Choice.{select_host_cases, IsKeyed}
use consul_scheduler.Scheduler.Ports.{select_port, Picked}
use consul_scheduler.Scheduler.Ports.Search.{select_port_sound, select_port_total}
use consul_scheduler.Examples.Fixtures.{ne_of, host_one, site_task, no_draw}

pub host-IsKeyed : IsKeyed (("one", host_one) ∷ [])
unfolding str_eq lookup
host-IsKeyed = (refl, ne_of "one" "" refl, refl, tt)

match_host_iff_example : (match_host site_task host_one ≡ none) ↔ (
    NonNegative (book site_task host_one).calculated_resources
    × Apart (all_ports site_task.task_definition) host_one.reserved_ports)
match_host_iff_example = match_host_iff site_task host_one

select_host_cases_example :
    ((h : Host) × (lookup
          (select_host "" site_task (("one", host_one) ∷ [])).0
          (("one", host_one) ∷ [])
        ≡ some h)
      × (h.name ≡ (select_host "" site_task (("one", host_one) ∷ [])).0)
      × (match_host site_task h ≡ none))
    ⊎ (((select_host "" site_task (("one", host_one) ∷ [])).0 ≡ "")
        × All (λ (e : String × Host). match_host site_task e.1 ≢ none) (("one", host_one) ∷ []))
select_host_cases_example = select_host_cases "" site_task (("one", host_one) ∷ []) host-IsKeyed

abbrev given_9001 : Assoc ℕ
given_9001 = ("one", 9001) ∷ []

picked : select_port no_draw 9 0 host_one [] ≡ some (record { port = 9001; calls = 1 }, given_9001)
unfolding select_port consul_scheduler.Scheduler.Ports.find_port
    consul_scheduler.Scheduler.Ports.first_port lookup insert
picked = refl

select_port_sound_example :
    (elem 9001 host_one.reserved_ports ≡ false)
    × (9001 ≤ 65535)
    × (lookup host_one.name given_9001 ≡ some 9001)
select_port_sound_example =
    select_port_sound no_draw 9 0 host_one [] (record { port = 9001; calls = 1 }) given_9001 picked

select_port_total_example : (r : Picked × Assoc ℕ) × (select_port no_draw 9 0 host_one [] ≡ some r)
unfolding lookup
select_port_total_example =
    select_port_total no_draw 9 0 host_one [] (omega arith) (λ j. (omega arith, omega arith))
      (omega arith) (omega arith) (omega arith)

rank-perm_example :
    Perm (rank score (host_one ∷ host_one ∷ [])) (map (ranked score) (host_one ∷ host_one ∷ []))
rank-perm_example = rank-perm score (host_one ∷ host_one ∷ [])

abbrev scored : ℤ → RankedHost
scored n = record { name = "one"; score = n }

insert_ranked-IsDescending_iff_example :
    IsDescending (insert_ranked (scored (pos 5)) (scored (pos 9) ∷ scored (pos 2) ∷ []))
    ↔ (¬ FallsBetween (scored (pos 5)) (scored (pos 9) ∷ scored (pos 2) ∷ []))
insert_ranked-IsDescending_iff_example =
    insert_ranked-IsDescending_iff (scored (pos 5)) (scored (pos 9) ∷ scored (pos 2) ∷ [])
      (omega arith, tt)
