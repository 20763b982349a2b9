-- ===== src/Prelude/Parse.antt =====
-- strconv.ParseInt of the standard library for a base that is given and at most 36. An error is
-- `none`; its text is not kept.
pub mod Printing
use Prim.Native.Nat.{ℕ, ◌+◌, ◌-◌, ◌*◌, ◌^◌}
use Prim.Native.String.{String}
use mathlib.Core.Path.{◌≡◌, refl}
use mathlib.Core.Bool.{◌&&◌}
use mathlib.Core.List.{List, [], ◌∷◌}
use mathlib.Core.Option.{Option, none, some}
use consul_scheduler.Prelude.Tests.{ltb, leb, ◌==◌, if◌then◌else◌}
use consul_scheduler.Prelude.Int.{ℤ, pos, negsuc, ◌-ℤ◌}
use consul_scheduler.Prelude.Text.{codes}

-- 0 to 9, a to z and A to Z; anything else is no digit of any base.
unfoldable pub digit_value : ℕ → ℕ
digit_value c =
    if leb b'0' c && leb c b'9'
    then c - b'0'
    else if leb b'a' c && leb c b'z'
    then c - b'a' + 10
    else if leb b'A' c && leb c b'Z'
    then c - b'A' + 10
    else 36

unfoldable pub parse_digits : ℕ → ℕ → List ℕ → Option ℕ
unfolding digit_value
parse_digits base acc [] = some acc
parse_digits base acc (c ∷ cs) =
    let rest = parse_digits base (acc * base + digit_value c) cs in
    if ltb (digit_value c) base then rest else none

unfoldable pub parse_uint : ℕ → List ℕ → Option ℕ
unfolding parse_digits
parse_uint base [] = none
parse_uint base (c ∷ cs) = parse_digits base 0 (c ∷ cs)

-- The range of a number of `bits` bits.
unfoldable pub in_range : ℕ → Option ℕ → Option ℤ
in_range bits none = none
in_range bits (some n) = if ltb n (2 ^ (bits - 1)) then some (pos n) else none

unfoldable pub in_range_negative : ℕ → Option ℕ → Option ℤ
in_range_negative bits none = none
in_range_negative bits (some n) = if leb n (2 ^ (bits - 1)) then some (pos 0 -ℤ pos n) else none

unfoldable pub parse_codes : ℕ → ℕ → List ℕ → Option ℤ
unfolding parse_uint in_range in_range_negative
parse_codes base bits [] = none
parse_codes base bits (c ∷ cs) =
    if c == b'-'
    then in_range_negative bits (parse_uint base cs)
    else if c == b'+'
    then in_range bits (parse_uint base cs)
    else in_range bits (parse_uint base (c ∷ cs))

unfoldable pub parse_int : ℕ → ℕ → String → Option ℤ
unfolding parse_codes
parse_int base bits s = parse_codes base bits (codes s)

parses_hex : parse_int 16 8 "7f" ≡ some (pos 127)
unfolding parse_int
parses_hex = refl

parses_negative : parse_int 8 64 "-12" ≡ some (negsuc 9)
unfolding parse_int ◌-ℤ◌
parses_negative = refl

parses_out_of_range : parse_int 16 8 "80" ≡ none
unfolding parse_int
parses_out_of_range = refl
