-- ===== src/Prelude/Parse/Printing/Octal.antt =====
-- What a printed decimal number is read as in base 8.
use consul_scheduler.Prelude.{
  ℕ, zero, suc, ◌+◌, ◌*◌, ◌/◌, ◌%◌, ◌≤◌, ◌<◌, ◌≡◌, refl, ◌∙◌, sym, inl, inr, some, [], ◌∷◌, arith,
  ltb, ltb→lt, ltb→le, Bool-cases, Option-cases, codes, codes-append, digit, show_fuel, show, ℤ,
  pos,
}
use consul_scheduler.Prelude.Parse.{parse_digits, in_range, parse_int}
use consul_scheduler.Prelude.Parse.Printing.{
  codes-digit, parse_digits-append, parse_digit, show-Begins, parse_unsigned, in_range_value,
}

read_octal_digit :
    (acc m d r : ℕ)
    → d < 10
    → acc ≤ m
    → (8 ≤ m → acc < m)
    → parse_digits 8 acc ((b'0' + d) ∷ []) ≡ some r
    → (r ≤ m * 10 + d) × (8 ≤ m * 10 + d → r < m * 10 + d)
read_octal_digit acc m d r h le lt e = let e' = rw (parse_digit 8 acc d h) at e in ground arith

-- Base 8: what is read is no larger, and less for a number of two digits or more.
read_octal :
    (fuel n r : ℕ)
    → n ≤ fuel
    → parse_digits 8 0 (codes (show_fuel fuel n)) ≡ some r
    → (r ≤ n) × (8 ≤ n → r < n)
unfolding show_fuel
read_octal zero n r h e =
    let z : n ≡ 0 = omega arith in
    let e' : parse_digits 8 0 (codes (digit n)) ≡ some r = e in
    let small : n < 10 = omega arith in
    let got =
      read_octal_digit 0 0 n r small (omega arith) (λ g. absurd (omega arith))
        (rw (codes-digit n small) at e') in
    (omega (arith, got.0), (λ g. absurd (omega arith)))
read_octal (suc fuel) n r h e = elim (Bool-cases (ltb n 10)) [
  | inl c ↦
      let small = ltb→lt n 10 c in
      let got =
        read_octal_digit 0 0 n r small (omega arith) (λ g. absurd (omega arith))
          (rw (c, show_fuel, codes-digit n small) at e) in
      (omega (arith, got.0), (λ g. omega (arith, got.1 (omega arith))))
  | inr c ↦
      let big = ltb→le n 10 c in
      let small : n % 10 < 10 = omega arith in
      let xs = codes (show_fuel fuel (n / 10)) in
      let e' =
        rw
          (
            c,
            show_fuel,
            codes-append (show_fuel fuel (n / 10)) (digit (n % 10)),
            codes-digit (n % 10) small,
            parse_digits-append 8 0 xs ((b'0' + n % 10) ∷ []),
          )
          at e in
      elim (Option-cases (parse_digits 8 0 xs)) [
        | inl bad ↦ absurd (cc (rw bad at e'))
        | inr (q, good) ↦
            let (le, lt) = read_octal fuel (n / 10) q (omega arith) good in
            let got = read_octal_digit q (n / 10) (n % 10) r small le lt (rw good at e') in
            let whole : n / 10 * 10 + n % 10 ≡ n = omega arith in
            (omega (arith, got.0), (λ g. omega (arith, got.1 (omega arith))))
      ]
]

-- The decimal form of a number, read as base 8 in 64 bits: no more than the number, and less from 8
-- on.
pub octal_of_show :
    (n : ℕ) (l : ℤ)
    → parse_int 8 64 (show n) ≡ some l
    → (m : ℕ) × (l ≡ pos m) × (m ≤ n) × (8 ≤ n → m < n)
unfolding parse_int show
octal_of_show n l e =
    let whole = parse_unsigned 8 64 (codes (show_fuel n n)) (show-Begins n n (omega arith)) in
    let ranged : in_range 64 (parse_digits 8 0 (codes (show_fuel n n))) ≡ some l = sym whole ∙ e in
    elim (Option-cases (parse_digits 8 0 (codes (show_fuel n n)))) [
      | inl bad ↦ absurd (cc (rw (bad, in_range) at ranged))
      | inr (m, read) ↦
          let (le, lt) = read_octal n n m (omega arith) read in
          (m, in_range_value 64 m l (rw read at ranged), le, lt)
    ]

pub octal_below : (n : ℕ) → n < 8 → parse_int 8 64 (show n) ≡ some (pos n)
unfolding parse_int show
octal_below zero h = refl
octal_below (suc zero) h = refl
octal_below (suc (suc zero)) h = refl
octal_below (suc (suc (suc zero))) h = refl
octal_below (suc (suc (suc (suc zero)))) h = refl
octal_below (suc (suc (suc (suc (suc zero))))) h = refl
octal_below (suc (suc (suc (suc (suc (suc zero)))))) h = refl
octal_below (suc (suc (suc (suc (suc (suc (suc zero))))))) h = refl
octal_below (suc (suc (suc (suc (suc (suc (suc (suc n)))))))) h = absurd (omega arith)
