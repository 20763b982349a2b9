-- ===== src/Scheduler/Hosts/Choice.antt =====
-- selectHost of scheduler/scheduler.go against the map of hosts.
use consul_scheduler.Prelude.{
  true-false, none-some, ℤ, sub64, String, ◌≡◌, refl, sym, ap, subst, ◌∙◌, ◌≢◌, ◌⊎◌, inl, inr, none,
  some, List, [], ◌∷◌, ◌++◌, arith, str_eq, str_eq_iff, str_eq_refl, Bool-cases, Option-cases, All,
  Assoc, lookup, values,
}
use consul_scheduler.Api.Types.{Host, Task}
use mathlib.Core.HLevel.{⊥_prop, Π_prop}
use mathlib.Core.List.{Mem, mem-cons, not-mem-nil, mem-map_of_mem, mem-cons_self}
use mathlib.Core.List.Perm
use mathlib.Core.Logic.Or
use consul_scheduler.Scheduler.Rankers.{
  RankedHost, rank, spread_ranker, pack_ranker, pack_max_score, score,
}
use consul_scheduler.Scheduler.Rankers.Order.{rank-perm}
use consul_scheduler.Scheduler.Hosts.{match_host, first_match, ranking, select_host}

-- Each host stands under its own name, once, and no name is empty.
abbrev pub IsKeyed : Assoc Host → Type 0
IsKeyed [] = Unit {0}
IsKeyed ((k, h) ∷ m) = (h.name ≡ k) × (k ≢ "") × (lookup k m ≡ none) × IsKeyed m

pub name_of_key :
    (k : String) (h : Host) (hosts : Assoc Host)
    → IsKeyed hosts
    → lookup k hosts ≡ some h
    → (h.name ≡ k) × (k ≢ "")
unfolding lookup
name_of_key k h [] w e = absurd (ground arith)
name_of_key k h ((j, x) ∷ m) w e = elim (Bool-cases (str_eq j k)) [
  | inl q ↦
      let j_is_k = (str_eq_iff j k).0 q in
      let x_is_h : x ≡ h = ground arith in (cc (w.0), subst (λ (s : String). s ≢ "") j_is_k w.1)
  | inr q ↦ name_of_key k h m w.3 (ground arith)
]

-- A host of the map, in the order of range, is looked up under its name.
mem-values :
    (k : String) (h : Host) (hosts : Assoc Host) → lookup k hosts ≡ some h → Mem h (values hosts)
unfolding lookup values
mem-values k h [] e = absurd (ground arith)
mem-values k h ((j, x) ∷ m) e = elim (Bool-cases (str_eq j k)) [
  | inl q ↦ let x_is_h : x ≡ h = ground arith in rw x_is_h mem-cons_self
  | inr q ↦ mem-cons.1 (Or.inr (mem-values k h m (ground arith)))
]

module _ (t : Task) (hosts : Assoc Host) where
  first_match_sound :
      (rs : List RankedHost) (errors : List String)
      → IsKeyed hosts
      → (first_match t hosts rs errors).0 ≢ ""
      → (h : Host) × (lookup (first_match t hosts rs errors).0 hosts ≡ some h)
        × (match_host t h ≡ none)
  unfolding first_match
  first_match_sound [] errors w n = absurd (n refl)
  first_match_sound (r ∷ rs) errors w n = elim (Option-cases (lookup r.name hosts)) [
    | inl e ↦
        let n' : (first_match t hosts rs errors).0 ≢ "" = rw (e, first_match) at n in
        rw (e, first_match) (first_match_sound rs errors w n')
    | inr (cand, e) ↦ elim (Option-cases (match_host t cand)) [
      | inl fits ↦
          rw (e, first_match)
            (rw fits (
              cand,
              subst (λ s. lookup s hosts ≡ some cand) (sym (name_of_key r.name cand hosts w e).0) e,
              fits,
            ))
      | inr (text, fails) ↦
          let n' : (first_match t hosts rs (errors ++ text ∷ [])).0 ≢ "" =
            rw fails at (rw (e, first_match) at n) in
          rw (e, first_match) (rw fails (first_match_sound rs (errors ++ text ∷ []) w n'))
    ]
  ]

  first_match_complete :
      (rs : List RankedHost) (errors : List String) (r : RankedHost) (h : Host)
      → IsKeyed hosts
      → Mem r rs
      → lookup r.name hosts ≡ some h
      → match_host t h ≡ none
      → (first_match t hosts rs errors).0 ≢ ""
  unfolding first_match
  first_match_complete [] errors r h w m e fits = absurd (not-mem-nil m)
  first_match_complete (x ∷ rs) errors r h w m e fits = elim (Option-cases (lookup x.name hosts)) [
    | inl missing ↦
        rw (missing, first_match)
          (Or.elim (Π_prop (λ _. ⊥_prop)) (mem-cons.0 m)
            (λ (q : r ≡ x). absurd (cc (q, e, missing)))
            (λ m'. first_match_complete rs errors r h w m' e fits))
    | inr (cand, found) ↦ elim (Option-cases (match_host t cand)) [
      | inl ok' ↦
          let named = name_of_key x.name cand hosts w found in
          rw (found, first_match) (rw ok' (λ q. named.1 (sym named.0 ∙ q)))
      | inr (text, fails) ↦
          rw (found, first_match)
            (rw fails (
              Or.elim (Π_prop (λ _. ⊥_prop)) (mem-cons.0 m)
                (λ (q : r ≡ x). absurd (cc (q, e, found, fits, fails)))
                (λ m'. first_match_complete rs (errors ++ text ∷ []) r h w m' e fits)))
    ]
  ]

ranking_cases :
    (name : String) (hosts : Assoc Host)
    → (ranking name hosts ≡ spread_ranker (values hosts))
      ⊎ (ranking name hosts ≡ pack_ranker (values hosts))
unfolding ranking
ranking_cases name hosts = ground arith

-- rank gives each host a place.
mem-rank :
    (f : Host → ℤ) (h : Host) (hs : List Host)
    → Mem h hs
    → Mem (record { name = h.name; score = f h }) (rank f hs)
mem-rank f h hs m = (Perm.mem_iff (rank-perm f hs)).1 (mem-map_of_mem _ m)

mem-ranking :
    (name : String) (h : Host) (hosts : Assoc Host)
    → Mem h (values hosts)
    → (r : RankedHost) × (r.name ≡ h.name) × Mem r (ranking name hosts)
unfolding spread_ranker pack_ranker
mem-ranking name h hosts m = elim (ranking_cases name hosts) [
  | inl e ↦ (record { name = h.name; score = score h }, refl, rw e (mem-rank score h _ m))
  | inr e ↦ (
    record { name = h.name; score = sub64 pack_max_score (score h) },
    refl,
    rw e (mem-rank (λ x. sub64 pack_max_score (score x)) h _ m),
  )
]

-- What selectHost returns, by the two cases of the name.
pub select_host_lem :
    (name : String) (t : Task) (hosts : Assoc Host)
    → IsKeyed hosts
    → ((select_host name t hosts).0 ≢ ""
        → (h : Host) × (lookup (select_host name t hosts).0 hosts ≡ some h)
          × (match_host t h ≡ none))
      × ((select_host name t hosts).0 ≡ ""
          → (k : String) (h : Host) → lookup k hosts ≡ some h
          → match_host t h ≢ none)
unfolding select_host
select_host_lem name t hosts w = (
  first_match_sound t hosts (ranking name hosts) [] w,
  λ empty k h e fits.
      let (r, named, m) = mem-ranking name h hosts (mem-values k h hosts e) in
      let own = name_of_key k h hosts w e in
      first_match_complete t hosts (ranking name hosts) [] r h w m
        (subst (λ s. lookup s hosts ≡ some h) (sym (named ∙ own.0)) e) fits empty,
)

All-of_lookup :
    (Q : Host → Type 0) (m : Assoc Host)
    → IsKeyed m
    → ((k : String) (h : Host) → lookup k m ≡ some h → Q h)
    → All (λ e. Q e.1) m
unfolding lookup
All-of_lookup Q [] w q = tt
All-of_lookup Q ((j, x) ∷ m) w q = (
  q j x (rw (str_eq_refl j)),
  All-of_lookup Q m w.3 (λ k h e. q k h (elim (Bool-cases (str_eq j k)) [
    | inl s ↦ absurd (none-some (sym w.2 ∙ ap (λ i. lookup i m) ((str_eq_iff j k).0 s) ∙ e))
    | inr s ↦ rw s e
  ])),
)

-- Where selectHost returns the empty name, matchHost accepts no host.
pub select_host_refused :
    (name : String) (t : Task) (hosts : Assoc Host)
    → IsKeyed hosts
    → (select_host name t hosts).0 ≡ ""
    → All (λ e. match_host t e.1 ≢ none) hosts
select_host_refused name t hosts w empty =
    All-of_lookup (λ h. match_host t h ≢ none) hosts w ((select_host_lem name t hosts w).1 empty)

-- Over a map whose hosts stand under their own names, selectHost returns either the name of a
-- host of the map that matchHost accepts, or the empty name, and then matchHost accepts no host of
-- the map.
pub select_host_cases :
    (name : String) (t : Task) (hosts : Assoc Host)
    → IsKeyed hosts
    → ((h : Host) × (lookup (select_host name t hosts).0 hosts ≡ some h)
        × (h.name ≡ (select_host name t hosts).0)
        × (match_host t h ≡ none))
      ⊎ (((select_host name t hosts).0 ≡ "") × All (λ e. match_host t e.1 ≢ none) hosts)
select_host_cases name t hosts w =
    let l = select_host_lem name t hosts w in
    elim (Bool-cases (str_eq (select_host name t hosts).0 "")) [
      | inl e ↦
          let blank = (str_eq_iff (select_host name t hosts).0 "").0 e in
          inr (blank, select_host_refused name t hosts w blank)
      | inr e ↦
          let (h, at, fits) =
            l.0 (λ b. true-false (sym ((str_eq_iff (select_host name t hosts).0 "").1 b) ∙ e)) in
          inl (h, at, (name_of_key (select_host name t hosts).0 h hosts w at).0, fits)
    ]
