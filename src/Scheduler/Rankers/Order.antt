-- ===== src/Scheduler/Rankers/Order.antt =====
-- The order and the content of what rank returns.
use consul_scheduler.Prelude.{
  ℤ, ◌≤ℤ◌, ◌<ℤ◌, leb_ℤ, ◌≡◌, ◌↔◌, inl, inr, false, ◌&&◌, List, [], ◌∷◌, ◌++◌, map, arith,
  Bool-cases,
}
use consul_scheduler.Api.Types.{Host}
use mathlib.Core.List.{Perm, perm_middle, append-nil}
use mathlib.Core.List.Perm
use consul_scheduler.Scheduler.Rankers.{
  RankedHost, last_of, insert_between, insert_ranked, rank_from, rank,
}

-- From the highest score down.
abbrev pub IsDescending : List RankedHost → Type 0
IsDescending [] = Unit {0}
IsDescending (x ∷ []) = Unit {0}
IsDescending (x ∷ y ∷ ys) = (y.score ≤ℤ x.score) × IsDescending (y ∷ ys)

abbrev pub ranked : (Host → ℤ) → Host → RankedHost
ranked f h = record { name = h.name; score = f h }

-- The case that the loop is written for.
abbrev pub Between : RankedHost → RankedHost → List RankedHost → Type 0
Between r x xs = (r.score <ℤ x.score) × ((last_of x xs).score <ℤ r.score)

insert_between-perm :
    (r x : RankedHost) (xs : List RankedHost)
    → Between r x xs
    → Perm (insert_between r x xs) (r ∷ x ∷ xs)
unfolding insert_between last_of
insert_between-perm r x [] b = absurd (omega arith)
insert_between-perm r x (y ∷ ys) b =
    elim (Bool-cases (leb_ℤ r.score x.score && leb_ℤ y.score r.score)) [
      | inl e ↦ rw e (Perm.refl _)
      | inr e ↦ rw e (
          Perm.trans (Perm.cons x (insert_between-perm r y ys (ground arith, b.1)))
            (Perm.swap r x _))
    ]

insert_ranked-perm : (r : RankedHost) (rs : List RankedHost) → Perm (insert_ranked r rs) (r ∷ rs)
unfolding insert_ranked
insert_ranked-perm r [] = Perm.refl _
insert_ranked-perm r (x ∷ xs) = elim (Bool-cases (leb_ℤ x.score r.score)) [
  | inl e ↦ rw e (Perm.refl _)
  | inr e ↦ rw e (elim (Bool-cases (leb_ℤ r.score (last_of x xs).score)) [
    | inl l ↦ rw l (rw append-nil at (perm_middle {a = r} (x ∷ xs) []))
    | inr l ↦ rw l (insert_between-perm r x xs (ground arith))
  ])
]

rank_from-perm :
    (f : Host → ℤ) (rs : List RankedHost) (hs : List Host)
    → Perm (rank_from f rs hs) (map (ranked f) hs ++ rs)
unfolding rank_from
rank_from-perm f rs [] = Perm.refl _
rank_from-perm f rs (h ∷ hs) = Perm.trans (rank_from-perm f (insert_ranked (ranked f h) rs) hs) (
    Perm.trans (Perm.append (Perm.refl (map (ranked f) hs)) (insert_ranked-perm (ranked f h) rs))
      (perm_middle (map (ranked f) hs) rs))

-- Whatever the order in which the hosts are visited, rank returns each host once, with its score.
pub rank-perm : (f : Host → ℤ) (hs : List Host) → Perm (rank f hs) (map (ranked f) hs)
unfolding rank
rank-perm f hs = rw append-nil at (rank_from-perm f [] hs)

IsDescending-tail :
    (x : RankedHost) (xs : List RankedHost) → IsDescending (x ∷ xs) → IsDescending xs
IsDescending-tail x [] h = tt
IsDescending-tail x (y ∷ ys) h = h.1

insert_between_unsorted :
    (r x : RankedHost) (xs : List RankedHost)
    → Between r x xs
    → ¬ IsDescending (insert_between r x xs)
unfolding insert_between last_of
insert_between_unsorted r x [] b h = omega arith
insert_between_unsorted r x (y ∷ ys) b h =
    elim (Bool-cases (leb_ℤ r.score x.score && leb_ℤ y.score r.score)) [
      | inl e ↦ absurd (omega (arith, (rw e at h).0, b.0))
      | inr e ↦
          insert_between_unsorted r y ys (ground arith, b.1) (IsDescending-tail x _ (rw e at h))
    ]

append_last-IsDescending :
    (r x : RankedHost) (xs : List RankedHost)
    → r.score ≤ℤ (last_of x xs).score
    → IsDescending (x ∷ xs)
    → IsDescending (x ∷ xs ++ r ∷ [])
unfolding last_of
append_last-IsDescending r x [] l h = (l, tt)
append_last-IsDescending r x (y ∷ ys) l h = (h.0, append_last-IsDescending r y ys l h.1)

abbrev pub FallsBetween : RankedHost → List RankedHost → Type 0
FallsBetween r [] = ⊥
FallsBetween r (x ∷ xs) = Between r x xs

insert_ranked-IsDescending :
    (r : RankedHost) (rs : List RankedHost)
    → IsDescending rs
    → ¬ FallsBetween r rs
    → IsDescending (insert_ranked r rs)
unfolding insert_ranked
insert_ranked-IsDescending r [] h n = tt
insert_ranked-IsDescending r (x ∷ xs) h n = elim (Bool-cases (leb_ℤ x.score r.score)) [
  | inl e ↦ rw e (ground arith, h)
  | inr e ↦ rw e (elim (Bool-cases (leb_ℤ r.score (last_of x xs).score)) [
    | inl l ↦ rw l (append_last-IsDescending r x xs (ground arith) h)
    | inr l ↦ absurd (n (ground arith))
  ])
]

insert_ranked_unsorted :
    (r : RankedHost) (rs : List RankedHost)
    → FallsBetween r rs
    → ¬ IsDescending (insert_ranked r rs)
unfolding insert_ranked
insert_ranked_unsorted r [] b h = b
insert_ranked_unsorted r (x ∷ xs) b h =
    let e : leb_ℤ x.score r.score ≡ false = ground arith in
    let l : leb_ℤ r.score (last_of x xs).score ≡ false = ground arith in
    insert_between_unsorted r x xs b (rw (e, l) at h)

-- One round of rank keeps a ranking in descending order exactly when the score of the new host
-- does not lie strictly between the scores of the last host and of the first.
pub insert_ranked-IsDescending_iff :
    (r : RankedHost) (rs : List RankedHost)
    → IsDescending rs
    → IsDescending (insert_ranked r rs) ↔ (¬ FallsBetween r rs)
insert_ranked-IsDescending_iff r rs h =
    ((λ s b. insert_ranked_unsorted r rs b s), insert_ranked-IsDescending r rs h)
