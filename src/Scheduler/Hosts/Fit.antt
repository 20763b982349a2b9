-- ===== src/Scheduler/Hosts/Fit.antt =====
-- What matchHost promises about the host that updateHost then books.
use consul_scheduler.Prelude.{
  ℕ, ◌≤ℤ◌, ◌≡◌, refl, ◌↔◌, inl, inr, false, none, List, [], ◌∷◌, arith, Option-cases, All,
  All-append, All-split, elem,
}
use consul_scheduler.Api.Types.{Resources, Host, PortMapping, Container, Task}
use consul_scheduler.Api.Definitions.{all_ports, ports_of, fixed_ports}
use consul_scheduler.Scheduler.Hosts.{match_host, book, taken_port, taken_ports, zero_ℤ}

abbrev pub NonNegative : Resources → Type 0
NonNegative r = (zero_ℤ ≤ℤ r.memory) × (zero_ℤ ≤ℤ r.cpu_units) × (zero_ℤ ≤ℤ r.disk_space)

-- No number of the first list is in the second.
abbrev pub Apart : List ℕ → List ℕ → Type 0
Apart ports reserved = All (λ p. elem p reserved ≡ false) ports

match_host_resources :
    (t : Task) (h : Host) → match_host t h ≡ none → NonNegative (book t h).calculated_resources
unfolding match_host book
match_host_resources t h e = ground arith

taken_port-Apart :
    (reserved : List ℕ) (ps : List PortMapping)
    → taken_port reserved ps ≡ none
    → Apart (fixed_ports ps) reserved
unfolding taken_port fixed_ports
taken_port-Apart reserved [] e = tt
taken_port-Apart reserved (p ∷ ps) e = ground (arith, taken_port-Apart reserved ps)

taken_ports-Apart :
    (reserved : List ℕ) (cs : List Container)
    → taken_ports reserved cs ≡ none
    → Apart (ports_of cs) reserved
unfolding taken_ports ports_of
taken_ports-Apart reserved [] e = tt
taken_ports-Apart reserved (c ∷ cs) e = elim (Option-cases (taken_port reserved c.ports)) [
  | inl n ↦
      All-append (λ p. elem p reserved ≡ false) (fixed_ports c.ports) (ports_of cs)
        (taken_port-Apart reserved c.ports n) (taken_ports-Apart reserved cs (ground arith))
  | inr (p, n) ↦ absurd (ground arith)
]

match_host_ports :
    (t : Task) (h : Host)
    → match_host t h ≡ none
    → Apart (all_ports t.task_definition) h.reserved_ports
unfolding match_host all_ports
match_host_ports t h e =
    taken_ports-Apart h.reserved_ports t.task_definition.containers (ground arith)

taken_port-none :
    (reserved : List ℕ) (ps : List PortMapping)
    → Apart (fixed_ports ps) reserved
    → taken_port reserved ps ≡ none
unfolding taken_port fixed_ports
taken_port-none reserved [] a = refl
taken_port-none reserved (p ∷ ps) a = ground (arith, taken_port-none reserved ps)

taken_ports-none :
    (reserved : List ℕ) (cs : List Container)
    → Apart (ports_of cs) reserved
    → taken_ports reserved cs ≡ none
unfolding taken_ports ports_of
taken_ports-none reserved [] a = refl
taken_ports-none reserved (c ∷ cs) a =
    let (l, r) = All-split (λ p. elem p reserved ≡ false) (fixed_ports c.ports) (ports_of cs) a in
    rw (taken_port-none reserved c.ports l, taken_ports) (taken_ports-none reserved cs r)

match_host_accepts :
    (t : Task) (h : Host)
    → NonNegative (book t h).calculated_resources
    → Apart (all_ports t.task_definition) h.reserved_ports
    → match_host t h ≡ none
unfolding match_host book all_ports
match_host_accepts t h r a =
    ground (arith, taken_ports-none h.reserved_ports t.task_definition.containers a)

-- matchHost accepts a host exactly when none of its three resources is below zero after updateHost
-- has booked the task on it, also where the subtractions wrap, and none of the task's fixed ports
-- is reserved on it.
pub match_host_iff :
    (t : Task) (h : Host)
    → (match_host t h ≡ none) ↔ (
        NonNegative (book t h).calculated_resources
        × Apart (all_ports t.task_definition) h.reserved_ports)
match_host_iff t h = (
  (λ e. (match_host_resources t h e, match_host_ports t h e)),
  (λ r. match_host_accepts t h r.0 r.1),
)
