-- ===== src/Scheduler/Ports/Search.antt =====
-- selectPort of scheduler/scheduler.go: what its search finds, and when it ends.
use consul_scheduler.Prelude.{
  ℕ, zero, suc, ◌+◌, ◌*◌, ◌%◌, ◌^◌, ◌≤◌, ◌<◌, ◌≡◌, refl, ap, ◌∙◌, inl, inr, true, false, Option,
  some, List, [], ◌∷◌, arith, ltb, if◌then◌else◌, le→ltb, Bool-cases, Option-cases, length, elem,
  Assoc, lookup, insert, lookup-insert_self,
}
use consul_scheduler.Api.Types.{Host}
use consul_scheduler.Api.Definitions.{or_zero}
use consul_scheduler.Scheduler.Ports.{Picked, find_port, first_port, select_port}

-- How many numbers of the list are p or more.
above : ℕ → List ℕ → ℕ
above p [] = 0
above p (x ∷ xs) = if ltb x p then above p xs else suc (above p xs)

above_mono : (p q : ℕ) (xs : List ℕ) → p ≤ q → above q xs ≤ above p xs
unfolding above
above_mono p q [] h = omega arith
above_mono p q (x ∷ xs) h = ground (arith, above_mono p q xs)

above-drop : (p q : ℕ) (xs : List ℕ) → elem p xs ≡ true → p < q → above q xs < above p xs
unfolding above
above-drop p q [] e h = cc
above-drop p q (x ∷ xs) e h = ground (arith, above-drop p q xs, above_mono p q xs)

above-le-length : (p : ℕ) (xs : List ℕ) → above p xs ≤ length xs
unfolding above
above-le-length p [] = omega arith
above-le-length p (x ∷ xs) = ground (arith, above-le-length p xs)

module _ (draw : ℕ → ℕ → ℕ) where
  find_port_sound :
      (fuel k p : ℕ) (reserved : List ℕ) (r : Picked)
      → find_port draw fuel k p reserved ≡ some r
      → (elem r.port reserved ≡ false) × (r.port ≤ 65535)
  unfolding find_port
  find_port_sound zero k p reserved r e = absurd (ground arith)
  find_port_sound (suc fuel) k p reserved r e = elim (Bool-cases (elem p reserved)) [
    | inl q ↦
        find_port_sound fuel (suc k) ((p + draw k 1000) % 2 ^ 64) reserved r
          (rw (q, find_port) at e)
    | inr q ↦ elim (Bool-cases (ltb 65535 p)) [
      | inl l ↦ find_port_sound fuel k 8000 reserved r (rw (q, l, find_port) at e)
      | inr l ↦ let port : r.port ≡ p = ground arith in (rw port q, rw port (ground arith))
    ]
  ]

  find_port_total :
      (fuel k p : ℕ) (reserved : List ℕ)
      → ((j : ℕ) → (0 < draw j 1000) × (draw j 1000 < 1000))
      → above p reserved < fuel
      → p + 1000 * above p reserved ≤ 65535
      → (r : Picked) × (find_port draw fuel k p reserved ≡ some r)
  unfolding find_port
  find_port_total zero k p reserved d f b = absurd (omega arith)
  find_port_total (suc fuel) k p reserved d f b = elim (Bool-cases (elem p reserved)) [
    | inl q ↦
        let step : (p + draw k 1000) % 2 ^ 64 ≡ p + draw k 1000 = omega (arith, d k) in
        let fewer = above-drop p (p + draw k 1000) reserved q (omega (arith, d k)) in
        rw (q, step, find_port)
          ((find_port_total fuel (suc k) (p + draw k 1000) reserved d (omega arith)
            (omega (arith, d k))))
    | inr q ↦
        let small : ltb 65535 p ≡ false = le→ltb 65535 p (omega arith) in
        rw (q, small, find_port) ((record { port = p; calls = k }, refl))
  ]

  -- A port that selectPort hands out is not reserved on the host, is at most 65535, and is the
  -- host's new maxPort, whatever the random numbers are.
  pub select_port_sound :
      (fuel k : ℕ) (host : Host) (max_port : Assoc ℕ) (r : Picked) (m : Assoc ℕ)
      → select_port draw fuel k host max_port ≡ some (r, m)
      → (elem r.port host.reserved_ports ≡ false)
        × (r.port ≤ 65535)
        × (lookup host.name m ≡ some r.port)
  unfolding select_port
  select_port_sound fuel k host max_port r m e =
      let start = first_port draw k (or_zero (lookup host.name max_port)) in
      elim (Option-cases (find_port draw fuel (suc k) start host.reserved_ports)) [
        | inl n ↦ absurd (ground arith)
        | inr (x, n) ↦
            let port : r ≡ x = ground arith in
            let next : m ≡ insert host.name x.port max_port = ground arith in
            let sound = find_port_sound fuel (suc k) start host.reserved_ports x n in
            rw port (sound.0, sound.1, rw next (lookup-insert_self host.name x.port max_port))
      ]

  -- With positive draws in range and n reserved ports, n + 1 rounds find a port if the search
  -- starts low enough: the last port given out plus 2000 and 1000 n stay within 65535, and so do
  -- 18000 and 1000 n.
  pub select_port_total :
      (fuel k : ℕ) (host : Host) (max_port : Assoc ℕ)
      → draw k 2000 < 2000
      → ((j : ℕ) → (0 < draw j 1000) × (draw j 1000 < 1000))
      → length host.reserved_ports < fuel
      → or_zero (lookup host.name max_port) + 2000 + 1000 * length host.reserved_ports ≤ 65535
      → 18000 + 1000 * length host.reserved_ports ≤ 65535
      → (r : Picked × Assoc ℕ) × (select_port draw fuel k host max_port ≡ some r)
  unfolding select_port first_port
  select_port_total fuel k host max_port d0 d f b c =
      let top = or_zero (lookup host.name max_port) in
      let low : first_port draw k top + 1000 * length host.reserved_ports ≤ 65535 = ground arith in
      let (x, e) =
        find_port_total fuel (suc k) (first_port draw k top) host.reserved_ports d
          (omega (arith, above-le-length (first_port draw k top) host.reserved_ports))
          (omega (arith, above-le-length (first_port draw k top) host.reserved_ports)) in
      rw (e, select_port) ((x, insert host.name x.port max_port), refl)

  first_port_same : (k p : ℕ) → draw k 2000 ≡ 0 → 9000 ≤ p → p ≤ 65535 → first_port draw k p ≡ p
  unfolding first_port
  first_port_same k p d low high = ground arith

  find_port_at_once :
      (fuel k p : ℕ) (reserved : List ℕ)
      → 0 < fuel
      → elem p reserved ≡ false
      → p ≤ 65535
      → find_port draw fuel k p reserved ≡ some (record { port = p; calls = k })
  unfolding find_port
  find_port_at_once zero k p reserved f free high = absurd (omega arith)
  find_port_at_once (suc fuel) k p reserved f free high =
      let small : ltb 65535 p ≡ false = le→ltb 65535 p high in rw (free, small, find_port)

  -- When the draw is 0, selectPort gives a host the same port once more: the port that it gave
  -- out last, if that is from 9000 to 65535 and not among the host's reserved ports.
  pub select_port_repeats :
      (fuel k : ℕ) (host : Host) (max_port : Assoc ℕ) (p : ℕ)
      → 0 < fuel
      → lookup host.name max_port ≡ some p
      → draw k 2000 ≡ 0
      → 9000 ≤ p
      → p ≤ 65535
      → elem p host.reserved_ports ≡ false
      → select_port draw fuel k host max_port
        ≡ some (record { port = p; calls = suc k }, insert host.name p max_port)
  unfolding select_port
  select_port_repeats fuel k host max_port p f e d low high free =
      let top = or_zero (lookup host.name max_port) in
      let same : first_port draw k top ≡ p =
        ap (λ (o : Option ℕ). first_port draw k (or_zero o)) e ∙ first_port_same k p d low high in
      let found : find_port draw fuel (suc k) (first_port draw k top) host.reserved_ports
          ≡ some (record { port = p; calls = suc k }) =
        ap (λ (x : ℕ). find_port draw fuel (suc k) x host.reserved_ports) same
        ∙ find_port_at_once fuel (suc k) p host.reserved_ports f free high in
      rw (found, select_port)
