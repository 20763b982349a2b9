-- ===== src/Scheduler/Ports.antt =====
-- selectPort of scheduler/scheduler.go. `draw k n` is what the k-th call of rand.Intn gives for n.
-- The `for` loop takes fuel and gives none where the fuel runs out.
pub mod Search
use consul_scheduler.Prelude.{
  ℕ, zero, suc, ◌+◌, ◌%◌, ◌^◌, true, false, Option, none, some, List, ltb, if◌then◌else◌, elem,
  Assoc, lookup, insert,
}
use consul_scheduler.Api.Types.{Host}
use consul_scheduler.Api.Definitions.{or_zero}

pub record Picked : Type 0 where
  pub port : ℕ
  pub calls : ℕ

module _ (draw : ℕ → ℕ → ℕ) where
  unfoldable pub find_port : ℕ → ℕ → ℕ → List ℕ → Option Picked
  find_port zero k p reserved = none
  find_port (suc fuel) k p reserved = elim (elem p reserved) [
    | true ↦ find_port fuel (suc k) ((p + draw k 1000) % 2 ^ 64) reserved
    | false ↦ elim (ltb 65535 p) [
      | true ↦ find_port fuel k 8000 reserved
      | false ↦ some (record { port = p; calls = k })
    ]
  ]

  -- The port that the search begins with.
  unfoldable pub first_port : ℕ → ℕ → ℕ
  first_port k top =
      let p = (top + draw k 2000) % 2 ^ 64 in if ltb p 9000 then (p + 9000) % 2 ^ 64 else p

  -- The port and the number of draws made, with the new maxPort map.
  unfoldable pub select_port : ℕ → ℕ → Host → Assoc ℕ → Option (Picked × Assoc ℕ)
  unfolding find_port first_port
  select_port fuel k host max_port =
      elim (find_port fuel (suc k) (first_port k (or_zero (lookup host.name max_port)))
        host.reserved_ports) [
          | none ↦ none
          | some picked ↦ some (picked, insert host.name picked.port max_port)
        ]
