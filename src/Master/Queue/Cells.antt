-- ===== src/Master/Queue/Cells.antt =====
-- Lists as the cells of a slice.
use consul_scheduler.Prelude.{
  ℕ, zero, suc, ◌+◌, ◌≤◌, ◌≡◌, refl, ap, ◌∙◌, ◌≢◌, inl, inr, Bool, true, false, some, List, [], ◌∷◌,
  ◌++◌, arith, Bool-cases, length, get_elem?, take, drop, keep, All, All-append,
}

pub ap2 {κ μ ν} :
    {B : Type κ} {C : Type μ} {D : Type ν} (f : B → C → D) {a b : B} {c d : C}
    → a ≡ b
    → c ≡ d
    → f a c ≡ f b d
ap2 f p q = rw (p, q)

pub true-false : true ≢ false
true-false e = cc

pub zero_add : (n : ℕ) → 0 + n ≡ n
zero_add n = omega arith

pub add_zero : (n : ℕ) → n + 0 ≡ n
add_zero n = omega arith

pub suc_add : (m n : ℕ) → suc m + n ≡ suc (m + n)
suc_add m n = omega arith

pub add_suc : (m n : ℕ) → m + suc n ≡ suc m + n
add_suc m n = omega arith

module _ {ℓ} {A : Type ℓ} where
  pub drop-cons :
      (xs : List A) (i : ℕ) (y : A) (ys : List A)
      → drop i xs ≡ y ∷ ys
      → (get_elem? xs i ≡ some y) × (drop (suc i) xs ≡ ys)
  drop-cons [] zero y ys h = absurd cc
  drop-cons [] (suc i) y ys h = absurd cc
  drop-cons (x ∷ xs) zero y ys h = (cc, cc)
  drop-cons (x ∷ xs) (suc i) y ys h = drop-cons xs i y ys h

  pub take-append : (xs ys : List A) (n : ℕ) → take (length xs + n) (xs ++ ys) ≡ xs ++ take n ys
  take-append [] ys n = ap (λ k. take k ys) (zero_add n)
  take-append (x ∷ xs) ys n =
      ap (λ k. take k (x ∷ (xs ++ ys))) (suc_add (length xs) n)
      ∙ ap (λ r. x ∷ r) (take-append xs ys n)

  pub drop-append : (xs ys : List A) (n : ℕ) → drop (length xs + n) (xs ++ ys) ≡ drop n ys
  drop-append [] ys n = ap (λ k. drop k ys) (zero_add n)
  drop-append (x ∷ xs) ys n =
      ap (λ k. drop k (x ∷ (xs ++ ys))) (suc_add (length xs) n) ∙ drop-append xs ys n

  pub take-length : (xs ys : List A) → take (length xs) (xs ++ ys) ≡ xs
  take-length [] ys = refl
  take-length (x ∷ xs) ys = ap (λ r. x ∷ r) (take-length xs ys)

  pub drop-length : (xs ys : List A) → drop (length xs) (xs ++ ys) ≡ ys
  drop-length [] ys = refl
  drop-length (x ∷ xs) ys = drop-length xs ys

  pub drop-suc : (xs : List A) (y : A) (ys : List A) → drop (suc (length xs)) (xs ++ y ∷ ys) ≡ ys
  drop-suc [] y ys = refl
  drop-suc (x ∷ xs) y ys = drop-suc xs y ys

  pub append_assoc : (xs ys zs : List A) → (xs ++ ys) ++ zs ≡ xs ++ (ys ++ zs)
  append_assoc [] ys zs = refl
  append_assoc (x ∷ xs) ys zs = ap (λ r. x ∷ r) (append_assoc xs ys zs)

  abbrev pub Distinct : List A → Type ℓ
  Distinct [] = Unit
  Distinct (x ∷ xs) = All (λ y. x ≢ y) xs × Distinct xs

  pub Distinct-later :
      (pre : List A) (v : A) (post : List A) → Distinct (pre ++ v ∷ post) → All (λ y. v ≢ y) post
  Distinct-later [] v post d = d.0
  Distinct-later (x ∷ pre) v post d = Distinct-later pre v post d.1

  pub All-keep : (P : A → Type ℓ) (p : A → Bool) (xs : List A) → All P xs → All P (keep p xs)
  All-keep P p [] a = tt
  All-keep P p (x ∷ xs) a = elim (Bool-cases (p x)) [
    | inl e ↦ rw e (a.0, All-keep P p xs a.1)
    | inr e ↦ rw e (All-keep P p xs a.1)
  ]

  pub Distinct-snoc :
      (xs : List A) (y : A) → Distinct xs → All (λ x. x ≢ y) xs → Distinct (xs ++ y ∷ [])
  Distinct-snoc [] y d a = (tt, tt)
  Distinct-snoc (x ∷ xs) y d a =
      (All-append (λ z. x ≢ z) xs (y ∷ []) d.0 (a.0, tt), Distinct-snoc xs y d.1 a.1)

  pub All-shorter :
      (P : A → Type ℓ) (n m : ℕ) (xs : List A) → n ≤ m → All P (take m xs) → All P (take n xs)
  All-shorter P zero m xs h a = tt
  All-shorter P (suc n) zero xs h a = absurd (omega (arith, h))
  All-shorter P (suc n) (suc m) [] h a = tt
  All-shorter P (suc n) (suc m) (x ∷ xs) h a = (a.0, All-shorter P n m xs (omega arith) a.1)

  -- The first elements of a shorter slice.
  pub Distinct-shorter :
      (n m : ℕ) (xs : List A) → n ≤ m → Distinct (take m xs) → Distinct (take n xs)
  Distinct-shorter zero m xs h d = tt
  Distinct-shorter (suc n) zero xs h d = absurd (omega (arith, h))
  Distinct-shorter (suc n) (suc m) [] h d = tt
  Distinct-shorter (suc n) (suc m) (x ∷ xs) h d =
      (All-shorter (λ y. x ≢ y) n m xs (omega arith) d.0, Distinct-shorter n m xs (omega arith) d.1)

  pub take-drop : (n : ℕ) (xs : List A) → take n xs ++ drop n xs ≡ xs
  take-drop zero xs = refl
  take-drop (suc n) [] = refl
  take-drop (suc n) (x ∷ xs) = ap (λ r. x ∷ r) (take-drop n xs)

  pub length-take : (n : ℕ) (xs : List A) → n ≤ length xs → length (take n xs) ≡ n
  length-take zero xs h = refl
  length-take (suc n) [] h = absurd (omega (arith, h))
  length-take (suc n) (x ∷ xs) h = ap suc (length-take n xs (omega (arith, h)))
