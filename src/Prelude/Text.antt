-- ===== src/Prelude/Text.antt =====
-- Texts as lists of code points, and numbers printed in decimal, as `%d` and `%v` do.
use Prim.Native.Nat.{ℕ, zero, suc, ◌/◌, ◌%◌}
use Prim.Native.Char.{code}
use Prim.Native.String.{String, ◌++◌}
use Prim.Native.String.append
use text.Mathlib.TextEquality.{Char-path}
use mathlib.Core.Path.{◌≡◌, refl, ap, ◌∙◌}
use mathlib.Core.Bool.{true, false}
use mathlib.Core.List.{List, [], ◌∷◌}
use mathlib.Core.List.{◌++◌ as list_append}
use consul_scheduler.Prelude.Tests.{ltb, ◌==◌}
use consul_scheduler.Prelude.Int.{ℤ, pos, negsuc}

-- the runes of a text
abbrev pub codes : String → List ℕ
codes String.[] = []
codes (String.◌∷◌ c s) = code c ∷ codes s

pub codes-append : (s t : String) → codes (s ++ t) ≡ list_append (codes s) (codes t)
codes-append String.[] t = ap codes (append.nil t)
codes-append (String.◌∷◌ c s) t =
    ap codes (append.cons c s t) ∙ ap (λ r. code c ∷ r) (codes-append s t)

pub codes-injective : (s t : String) → codes s ≡ codes t → s ≡ t
codes-injective String.[] String.[] h = refl
codes-injective String.[] (String.◌∷◌ d t) h = absurd (cc)
codes-injective (String.◌∷◌ c s) String.[] h = absurd (cc)
codes-injective (String.◌∷◌ c s) (String.◌∷◌ d t) h =
    let e : c ≡ d = Char-path c d (cc h) in let r : s ≡ t = codes-injective s t (cc h) in cc (e, r)

abbrev pub digit : ℕ → String
digit d = elim (d == 0) [
  | true ↦ "0"
  | false ↦ elim (d == 1) [
    | true ↦ "1"
    | false ↦ elim (d == 2) [
      | true ↦ "2"
      | false ↦ elim (d == 3) [
        | true ↦ "3"
        | false ↦ elim (d == 4) [
          | true ↦ "4"
          | false ↦ elim (d == 5) [
            | true ↦ "5"
            | false ↦ elim (d == 6) [
              | true ↦ "6"
              | false ↦ elim (d == 7) [
                | true ↦ "7"
                | false ↦ elim (d == 8) [ true ↦ "8" | false ↦ "9" ]
              ]
            ]
          ]
        ]
      ]
    ]
  ]
]

-- The digits of `n`, the lowest last. A number has no more digits than its value, plus one.
unfoldable pub show_fuel : ℕ → ℕ → String
show_fuel zero n = digit n
show_fuel (suc fuel) n = elim (ltb n 10) [
  | true ↦ digit n
  | false ↦ show_fuel fuel (n / 10) ++ digit (n % 10)
]

unfoldable pub show : ℕ → String
unfolding show_fuel
show n = show_fuel n n

unfoldable pub show_ℤ : ℤ → String
unfolding show
show_ℤ (pos n) = show n
show_ℤ (negsuc n) = "-" ++ show (suc n)

show_runs : show 4093 ≡ "4093"
unfolding show
show_runs = refl
