-- ===== src/Actions/Table.antt =====
-- The table printing of actions/tools.go, over texts as lists of runes. A cell comes printed.
pub mod Widths
use consul_scheduler.Prelude.{
  ℕ, zero, suc, ◌+◌, ◌-◌, none, some, List, [], ◌∷◌, ◌++◌, ltb, if◌then◌else◌, length, get_elem?,
}
use consul_scheduler.Api.Results.{Outcome, returns, panics, and_then}
use consul_scheduler.Api.Definitions.{counts}

abbrev pub Text : Type 0
Text = List ℕ

abbrev pub space : ℕ
space = b' '

abbrev pub spaces : ℕ → Text
spaces zero = []
spaces (suc n) = space ∷ spaces n

-- The loop adds as many spaces as the width exceeds the length of the text by.
unfoldable pub pad : Text → ℕ → Text
pad x padding = x ++ spaces (padding - length x)

-- `counts[i]`: a row longer than the widths panics.
unfoldable pub row : List Text → List ℕ → Outcome Text
unfolding pad
row [] counts = returns []
row (item ∷ items) [] = panics
row (item ∷ items) (c ∷ counts) = and_then (row items counts) (λ rest. returns (pad item c ++ rest))

-- The inner loop of table: the width of column i, widened by each row that needs it.
unfoldable pub widen : ℕ → ℕ → List (List Text) → Outcome ℕ
widen i width [] = returns width
widen i width (r ∷ rows) = elim (get_elem? r i) [
  | none ↦ panics
  | some val ↦ widen i (if ltb width (length val + 5) then length val + 5 else width) rows
]

-- The widths of the columns from the i-th on.
unfoldable pub widths : ℕ → List Text → List (List Text) → Outcome (List ℕ)
unfolding widen
widths i [] rows = returns []
widths i (h ∷ header) rows =
    and_then (widen i (length h + 5) rows)
      (λ w. and_then (widths (suc i) header rows) (λ ws. returns (w ∷ ws)))

unfoldable pub print_rows : List (List Text) → List ℕ → Outcome (List Text)
unfolding row
print_rows [] counts = returns []
print_rows (r ∷ rows) counts =
    and_then (row r counts) (λ x. and_then (print_rows rows counts) (λ xs. returns (x ∷ xs)))

abbrev pub dashes : ℕ → Text
dashes zero = []
dashes (suc n) = b'-' ∷ dashes n

-- The lines of the table: an empty one, the header, dashes, the rows.
unfoldable pub table : List Text → List (List Text) → Outcome (List Text)
unfolding widths print_rows row
table header rows = and_then (widths 0 header rows) (λ counts. and_then (row header counts) (λ head.
    and_then (print_rows rows counts)
      (λ lines. returns ([] ∷ head ∷ dashes (length head) ∷ lines))))
