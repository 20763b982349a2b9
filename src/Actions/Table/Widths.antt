-- ===== src/Actions/Table/Widths.antt =====
-- table, row and pad of actions/tools.go: the lengths of the printed lines.
use consul_scheduler.Prelude.{
  ℕ, zero, suc, ◌+◌, ◌-◌, ◌≤◌, ◌<◌, ◌≡◌, refl, ap, ◌∙◌, ◌≢◌, inl, inr, Option, none, some, List, [],
  ◌∷◌, arith, ltb, if◌then◌else◌, Option-cases, length, get_elem?, drop, length-append, All,
}
use consul_scheduler.Api.Results.{Outcome, returns, hangs, panics, Returns, Returns-and_then}
use consul_scheduler.Actions.Table.{
  Text, spaces, pad, row, widen, widths, print_rows, table, dashes,
}

sum : List ℕ → ℕ
sum [] = 0
sum (x ∷ xs) = x + sum xs

length-spaces : (n : ℕ) → length (spaces n) ≡ n
length-spaces zero = refl
length-spaces (suc n) = ap suc (length-spaces n)

length-pad : (x : Text) (w : ℕ) → length x ≤ w → length (pad x w) ≡ w
unfolding pad
length-pad x w h =
    omega (arith, length-append x (spaces (w - length x)), length-spaces (w - length x))

-- A row whose cells fit the widths, one to each.
abbrev pub Fits : List Text → List ℕ → Type 0
Fits [] [] = Unit {0}
Fits [] (w ∷ ws) = ⊥
Fits (x ∷ xs) [] = ⊥
Fits (x ∷ xs) (w ∷ ws) = (length x ≤ w) × Fits xs ws

-- A row whose cells fit the widths is printed, and its length is the sum of the widths.
row-length :
    (items : List Text) (ws : List ℕ)
    → Fits items ws
    → Returns (λ x. length x ≡ sum ws) (row items ws)
unfolding row sum
row-length [] [] f = refl
row-length [] (w ∷ ws) f = absurd f
row-length (x ∷ xs) [] f = absurd f
row-length (x ∷ xs) (w ∷ ws) f =
    Returns-and_then (λ r. length r ≡ sum ws) (λ r. length r ≡ w + sum ws) (row xs ws) _
      (row-length xs ws f.1) (λ r e. omega (arith, length-append (pad x w) r, length-pad x w f.0))

get_elem-some : {A : Type 0} (xs : List A) (i : ℕ) → i < length xs → get_elem? xs i ≢ none
get_elem-some [] i h = absurd (omega (arith, h))
get_elem-some (x ∷ xs) zero h = λ e. cc
get_elem-some (x ∷ xs) (suc i) h = get_elem-some xs i (omega arith)

weaken :
    {A : Type 0} (P Q : A → Type 0) (m : Outcome A)
    → ((a : A) → P a → Q a)
    → Returns P m
    → Returns Q m
weaken P Q (returns a) k h = k a h
weaken P Q hangs k h = h
weaken P Q panics k h = h

-- A cell is there and fits the width.
abbrev CellFits : ℕ → Option Text → Type 0
CellFits w none = ⊥
CellFits w (some x) = length x ≤ w

-- A column is at least as wide as it began, and each row has a cell that fits it.
widen_fits :
    (i w : ℕ) (rows : List (List Text))
    → All (λ r. i < length r) rows
    → Returns (λ v. (w ≤ v) × All (λ r. CellFits v (get_elem? r i)) rows) (widen i w rows)
unfolding widen
widen_fits i w [] a = (omega arith, tt)
widen_fits i w (r ∷ rows) a = elim (Option-cases (get_elem? r i)) [
  | inl e ↦ absurd (get_elem-some r i a.0 e)
  | inr (x, e) ↦
      let v = if ltb w (length x + 5) then length x + 5 else w in
      let wide : (w ≤ v) × (length x ≤ v) = ground arith in
      rw (e, widen)
        (weaken (λ u. (v ≤ u) × All (λ q. CellFits u (get_elem? q i)) rows)
          (λ u. (w ≤ u) × ((length x ≤ u) × All (λ q. CellFits u (get_elem? q i)) rows))
          (widen i v rows) (λ u h. (omega (arith, h.0, wide.0), (omega (arith, h.0, wide.1), h.1)))
          (widen_fits i v rows a.1))
]

drop-cell :
    (r : List Text) (i w : ℕ) (ws : List ℕ)
    → CellFits w (get_elem? r i)
    → Fits (drop (suc i) r) ws
    → Fits (drop i r) (w ∷ ws)
drop-cell [] i w ws c f = absurd c
drop-cell (x ∷ r) zero w ws c f = (c, f)
drop-cell (x ∷ r) (suc i) w ws c f = drop-cell r i w ws c f

drop-all : (r : List Text) (i : ℕ) → length r ≡ i + 0 → Fits (drop i r) []
drop-all [] zero h = tt
drop-all [] (suc i) h = tt
drop-all (x ∷ r) zero h = absurd (omega arith)
drop-all (x ∷ r) (suc i) h = drop-all r i (omega arith)

All-zip :
    {A : Type 0} (P Q R : A → Type 0) (xs : List A)
    → ((x : A) → P x → Q x → R x)
    → All P xs
    → All Q xs
    → All R xs
All-zip P Q R [] k a b = tt
All-zip P Q R (x ∷ xs) k a b = (k x a.0 b.0, All-zip P Q R xs k a.1 b.1)

All-map :
    {A : Type 0} (P Q : A → Type 0) (xs : List A) → ((x : A) → P x → Q x) → All P xs → All Q xs
All-map P Q [] k a = tt
All-map P Q (x ∷ xs) k a = (k x a.0, All-map P Q xs k a.1)

abbrev AllRowsFit : ℕ → List (List Text) → List Text → List ℕ → Type 0
AllRowsFit i rows header ws = Fits header ws × All (λ r. Fits (drop i r) ws) rows

widths_fit :
    (i : ℕ) (header : List Text) (rows : List (List Text))
    → All (λ r. length r ≡ i + length header) rows
    → Returns (AllRowsFit i rows header) (widths i header rows)
unfolding widths
widths_fit i [] rows a = (tt, All-map _ (λ r. Fits (drop i r) []) rows (λ r e. drop-all r i e) a)
widths_fit i (h ∷ header) rows a =
    Returns-and_then (λ v. (length h + 5 ≤ v) × All (λ r. CellFits v (get_elem? r i)) rows)
      (AllRowsFit i rows (h ∷ header)) (widen i (length h + 5) rows) _
      (widen_fits i (length h + 5) rows
        (All-map _ (λ r. i < length r) rows (λ r e. omega (arith, e)) a))
      (λ w f.
        Returns-and_then (AllRowsFit (suc i) rows header) (AllRowsFit i rows (h ∷ header))
          (widths (suc i) header rows) _
          (widths_fit (suc i) header rows
            (All-map _ (λ r. length r ≡ suc i + length header) rows (λ r e. omega (arith, e)) a))
          (λ ws g. (
            (omega (arith, f.0), g.0),
            All-zip (λ r. CellFits w (get_elem? r i)) (λ r. Fits (drop (suc i) r) ws)
                (λ r. Fits (drop i r) (w ∷ ws)) rows (λ r c d. drop-cell r i w ws c d) f.1 g.1,
          )))

print_rows_lem :
    (rows : List (List Text)) (ws : List ℕ)
    → All (λ r. Fits r ws) rows
    → Returns (λ lines. All (λ l. length l ≡ sum ws) lines) (print_rows rows ws)
unfolding print_rows
print_rows_lem [] ws a = tt
print_rows_lem (r ∷ rows) ws a =
    Returns-and_then (λ x. length x ≡ sum ws) (λ lines. All (λ l. length l ≡ sum ws) lines)
      (row r ws) _ (row-length r ws a.0)
      (λ x e.
        Returns-and_then (λ lines. All (λ l. length l ≡ sum ws) lines)
          (λ lines. All (λ l. length l ≡ sum ws) lines) (print_rows rows ws) _
          (print_rows_lem rows ws a.1) (λ xs f. (e, f)))

length-dashes : (n : ℕ) → length (dashes n) ≡ n
length-dashes zero = refl
length-dashes (suc n) = ap suc (length-dashes n)

-- Every line but the first, which is empty, has the same length.
abbrev pub IsRectangular : List Text → Type 0
IsRectangular [] = ⊥
IsRectangular (first ∷ lines) = (first ≡ []) × ((w : ℕ) × All (λ l. length l ≡ w) lines)

-- A table whose rows all have as many cells as its header is printed with no panic, and its lines after the
-- empty first one are all of one length.
pub table-IsRectangular :
    (header : List Text) (rows : List (List Text))
    → All (λ r. length r ≡ length header) rows
    → Returns IsRectangular (table header rows)
unfolding table
table-IsRectangular header rows a =
    Returns-and_then (AllRowsFit 0 rows header) IsRectangular (widths 0 header rows) _
      (widths_fit 0 header rows
        (All-map _ (λ r. length r ≡ 0 + length header) rows (λ r e. omega (arith, e)) a))
      (λ ws f.
        Returns-and_then (λ x. length x ≡ sum ws) IsRectangular (row header ws) _
          (row-length header ws f.0)
          (λ x e.
            Returns-and_then (λ lines. All (λ l. length l ≡ sum ws) lines) IsRectangular
              (print_rows rows ws) _ (print_rows_lem rows ws f.1)
              (λ lines g. (refl, (sum ws, (e, (length-dashes (length x) ∙ e, g)))))))
