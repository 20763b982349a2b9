-- ===== src/Scheduler/Rankers.antt =====
-- scheduler/rankers.go. The hosts come in the order in which `range` visits the map.
pub mod Order
use consul_scheduler.Prelude.{
  ℤ, pos, leb_ℤ, add64, sub64, mul64, String, ◌&&◌, List, [], ◌∷◌, ◌++◌, if◌then◌else◌,
}
use consul_scheduler.Api.Types.{Host}

pub record RankedHost : Type 0 where
  pub name : String
  pub score : ℤ

abbrev mem_weight : ℤ
mem_weight = pos 8

abbrev disk_weight : ℤ
disk_weight = pos 1

abbrev cpu_weight : ℤ
cpu_weight = pos 4

abbrev pub pack_max_score : ℤ
pack_max_score = pos 1000000

unfoldable pub score : Host → ℤ
score h =
    let r = h.calculated_resources in
    add64 (add64 (mul64 r.cpu_units cpu_weight) (mul64 r.disk_space disk_weight))
      (mul64 r.memory mem_weight)

-- rs[len(rs)-1] of the list x ∷ xs
unfoldable pub last_of : RankedHost → List RankedHost → RankedHost
last_of x [] = x
last_of x (y ∷ ys) = last_of y ys

-- The `for i` loop of rank, from its first pair on: the new host goes before the first element of
-- a pair that it lies between.
unfoldable pub insert_between : RankedHost → RankedHost → List RankedHost → List RankedHost
insert_between r x [] = x ∷ []
insert_between r x (y ∷ ys) =
    if leb_ℤ r.score x.score && leb_ℤ y.score r.score
    then r ∷ x ∷ y ∷ ys
    else x ∷ insert_between r y ys

unfoldable pub insert_ranked : RankedHost → List RankedHost → List RankedHost
insert_ranked r [] = r ∷ []
insert_ranked r (x ∷ xs) =
    if leb_ℤ x.score r.score
    then r ∷ x ∷ xs
    else if leb_ℤ r.score (last_of x xs).score
    then (x ∷ xs) ++ r ∷ []
    else insert_between r x xs

unfoldable pub rank_from : (Host → ℤ) → List RankedHost → List Host → List RankedHost
rank_from f rs [] = rs
rank_from f rs (h ∷ hs) = rank_from f (insert_ranked (record { name = h.name; score = f h }) rs) hs

unfoldable pub rank : (Host → ℤ) → List Host → List RankedHost
unfolding rank_from insert_ranked insert_between last_of
rank f hosts = rank_from f [] hosts

unfoldable pub spread_ranker : List Host → List RankedHost
unfolding rank score
spread_ranker hosts = rank score hosts

unfoldable pub pack_ranker : List Host → List RankedHost
unfolding rank score
pack_ranker hosts = rank (λ h. sub64 pack_max_score (score h)) hosts
