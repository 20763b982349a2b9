-- ===== src/Prelude/Parse/Printing.antt =====
-- What a printed decimal number looks like to ParseInt.
pub mod Octal
use consul_scheduler.Prelude.{
  ℕ, zero, suc, ◌+◌, ◌-◌, ◌*◌, ◌/◌, ◌%◌, ◌≤◌, ◌<◌, ◌≡◌, refl, inl, inr, true, false, Option, none,
  some, List, [], ◌∷◌, ◌++◌, arith, ltb, ltb→lt, ltb→le, Bool-cases, codes, codes-append, digit,
  show_fuel, show, ℤ, pos,
}
use consul_scheduler.Prelude.Parse.{digit_value, parse_digits, parse_uint, in_range, parse_codes}

pub codes-digit : (d : ℕ) → d < 10 → codes (digit d) ≡ (b'0' + d) ∷ []
codes-digit zero h = refl
codes-digit (suc zero) h = refl
codes-digit (suc (suc zero)) h = refl
codes-digit (suc (suc (suc zero))) h = refl
codes-digit (suc (suc (suc (suc zero)))) h = refl
codes-digit (suc (suc (suc (suc (suc zero))))) h = refl
codes-digit (suc (suc (suc (suc (suc (suc zero)))))) h = refl
codes-digit (suc (suc (suc (suc (suc (suc (suc zero))))))) h = refl
codes-digit (suc (suc (suc (suc (suc (suc (suc (suc zero)))))))) h = refl
codes-digit (suc (suc (suc (suc (suc (suc (suc (suc (suc zero))))))))) h = refl
codes-digit (suc (suc (suc (suc (suc (suc (suc (suc (suc (suc n)))))))))) h = absurd (omega arith)

pub value_of_digit : (d : ℕ) → d < 10 → digit_value (b'0' + d) ≡ d
unfolding digit_value
value_of_digit d h = ground arith

-- Reading on from what has been read.
abbrev pub read_on : ℕ → Option ℕ → List ℕ → Option ℕ
read_on base none cs = none
read_on base (some acc) cs = parse_digits base acc cs

pub parse_digits-append :
    (base acc : ℕ) (xs ys : List ℕ)
    → parse_digits base acc (xs ++ ys) ≡ read_on base (parse_digits base acc xs) ys
unfolding parse_digits
parse_digits-append base acc [] ys = refl
parse_digits-append base acc (x ∷ xs) ys =
    ground (arith, parse_digits-append base (acc * base + digit_value x) xs ys)

pub parse_digit :
    (base acc d : ℕ)
    → d < 10
    → parse_digits base acc ((b'0' + d) ∷ [])
      ≡ (elim (ltb d base) [ true ↦ some (acc * base + d) | false ↦ none ])
unfolding parse_digits
parse_digit base acc d h = ground (arith, value_of_digit d h)

-- A printed number begins with a digit, so no sign is read.
abbrev pub Begins : List ℕ → Type 0
Begins [] = ⊥
Begins (c ∷ cs) = b'0' ≤ c

pub Begins-append : (xs ys : List ℕ) → Begins xs → Begins (xs ++ ys)
Begins-append [] ys h = absurd h
Begins-append (x ∷ xs) ys h = h

pub show-Begins : (fuel n : ℕ) → n ≤ fuel → Begins (codes (show_fuel fuel n))
unfolding show_fuel
show-Begins zero n h = rw (codes-digit n (omega arith)) (omega arith)
show-Begins (suc fuel) n h = elim (Bool-cases (ltb n 10)) [
  | inl c ↦ rw (c, show_fuel, codes-digit n (ltb→lt n 10 c)) (omega arith)
  | inr c ↦
      let big = ltb→le n 10 c in
      rw (c, show_fuel, codes-append (show_fuel fuel (n / 10)) (digit (n % 10)))
        (Begins-append _ _ (show-Begins fuel (n / 10) (omega arith)))
]

pub parse_unsigned :
    (base bits : ℕ) (cs : List ℕ)
    → Begins cs
    → parse_codes base bits cs ≡ in_range bits (parse_digits base 0 cs)
unfolding parse_codes parse_uint
parse_unsigned base bits [] h = absurd h
parse_unsigned base bits (c ∷ cs) h = ground arith

pub in_range_value : (bits r : ℕ) (l : ℤ) → in_range bits (some r) ≡ some l → l ≡ pos r
unfolding in_range
in_range_value bits r l h = ground arith
