-- ===== src/Master/Queue/Removal.antt =====
-- The loop that removes an element from the queue, followed through its array.
use consul_scheduler.Prelude.{
  ℕ, suc, ◌+◌, ◌-◌, ◌≤◌, ◌≡◌, refl, sym, ap, ◌∙◌, ◌≢◌, ◌↔◌, ◌⊎◌, inl, inr, Bool, true, false, not,
  List, [], ◌∷◌, ◌++◌, arith, ltb, lt→ltb, Bool-cases, length, take, drop, keep, length-append, All,
  All-append,
}
use consul_scheduler.Api.Results.{returns}
use consul_scheduler.Master.Queue.{Slice, contents, remove_at, push_back, remove_loop}
use consul_scheduler.Master.Queue.Cells.{
  ap2, add_suc, add_zero, append_assoc, drop-append, drop-cons, drop-length, drop-suc, suc_add,
  take-append, take-length, zero_add,
}

module _ {ℓ} {A : Type ℓ} (eq : A → A → Bool) (val : A) where
  abbrev pub Differs : A → Type 0
  Differs e = eq e val ≡ false

  -- The cells from i on, n of them, that are not val.
  pub loop_skips :
      (n i : ℕ) (s : Slice A) (cells rest : List A)
      → drop i s.array ≡ cells ++ rest
      → All Differs cells
      → remove_loop eq (length cells + n) i val s ≡ remove_loop eq n (i + length cells) val s
  unfolding remove_loop
  loop_skips n i s [] rest h a =
      ap (λ k. remove_loop eq k i val s) (zero_add n)
      ∙ ap (λ k. remove_loop eq n k val s) (sym (add_zero i))
  loop_skips n i s (c ∷ cells) rest h a =
      let (d, d') = drop-cons s.array i c (cells ++ rest) h in
      ap (λ k. remove_loop eq k i val s) (suc_add (length cells) n)
      ∙ rw (d, a.0, remove_loop) (loop_skips n (suc i) s cells rest d' a.1)
      ∙ ap (λ k. remove_loop eq n k val s) (sym (add_suc i (length cells)))

  -- A list has no element that is val, or it has a first one.
  pub split_at :
      (xs : List A)
      → All Differs xs
        ⊎ ((pre : List A) × (v : A) × (post : List A) × (xs ≡ pre ++ v ∷ post)
            × All Differs pre
            × (eq v val ≡ true))
  split_at [] = inl tt
  split_at (x ∷ xs) = elim (Bool-cases (eq x val)) [
    | inl e ↦ inr ([], x, xs, refl, tt, e)
    | inr e ↦ elim (split_at xs) [
      | inl a ↦ inl (e, a)
      | inr (pre, v, post, q, a, t) ↦ inr (x ∷ pre, v, post, ap (λ r. x ∷ r) q, (e, a), t)
    ]
  ]

  pub take_all : (xs : List A) → take (length xs) xs ≡ xs
  take_all [] = refl
  take_all (x ∷ xs) = ap (λ r. x ∷ r) (take_all xs)

  pub push_back-contents :
      (s : Slice A) (xs : List A)
      → contents s ≡ xs
      → length xs ≡ s.len
      → (contents (push_back eq val s) ≡ xs ++ val ∷ [])
        × ((push_back eq val s).len ≤ length (push_back eq val s).array)
  unfolding push_back
  push_back-contents s xs c l =
      let q : suc s.len ≡ length xs + 1 = omega arith in
      (
        rw c (
            ap (λ k. take k (xs ++ val ∷ drop (suc s.len) s.array)) q
            ∙ take-append xs (val ∷ drop (suc s.len) s.array) 1),
        rw c (omega (arith, length-append xs (val ∷ drop (suc s.len) s.array))),
      )

  abbrev pub others : List A → List A
  others = keep (λ e. not (eq e val))

  pub keep-Differs : (xs : List A) → All Differs xs → others xs ≡ xs
  keep-Differs [] a = refl
  keep-Differs (x ∷ xs) a = rw (a.0, keep-Differs xs a.1)

  pub keep-split :
      (pre post : List A) (v : A)
      → All Differs pre
      → eq v val ≡ true
      → All Differs post
      → others (pre ++ v ∷ post) ≡ pre ++ post
  keep-split [] post v a e b = rw (e, keep-Differs post b)
  keep-split (x ∷ pre) post v a e b = rw (a.0, keep-split pre post v a.1 e b)

  -- The last cell that shows again behind the shortened slice.
  pub last_cell :
      (q : A) (post rest : List A)
      → All Differs (q ∷ post)
      → (z : A) × (drop (length post) (q ∷ post ++ rest) ≡ z ∷ rest) × Differs z
  last_cell q [] rest a = (q, refl, a.0)
  last_cell q (p ∷ post) rest a = last_cell p post rest a.1

  module _ (pre : List A) (v : A) (post rest : List A) where
    abbrev pub cells : List A
    cells = pre ++ v ∷ post

    abbrev pub before : Slice A
    before = record { array = cells ++ rest; len = length cells }

    abbrev pub tail : List A
    tail = drop (length cells - 1) (cells ++ rest)

    abbrev pub after : Slice A
    after = record { array = pre ++ (post ++ tail); len = length cells - 1 }

    pub remove_at_lem : remove_at eq (length pre) before ≡ returns after
    unfolding remove_at
    remove_at_lem =
        let inside : ltb (length pre) (length cells) ≡ true =
          lt→ltb _ _ (omega (arith, length-append pre (v ∷ post))) in
        rw (inside, take-length (pre ++ v ∷ post) rest)
          (ap (λ xs. returns (record { array = xs; len = length cells - 1 }))
            (ap2 (λ l m. l ++ (m ++ tail))
              (ap (take (length pre)) (append_assoc pre (v ∷ post) rest)
                ∙ take-length pre (v ∷ post ++ rest))
              (drop-suc pre v post)))

    pub tail_lem : tail ≡ drop (length post) (v ∷ post ++ rest)
    tail_lem =
        let q : length cells - 1 ≡ length pre + length post =
          omega (arith, length-append pre (v ∷ post)) in
        ap (λ k. drop k (cells ++ rest)) q
        ∙ ap (drop (length pre + length post)) (append_assoc pre (v ∷ post) rest)
        ∙ drop-append pre (v ∷ post ++ rest) (length post)

  pub walks_on :
      (pre : List A) (v : A) (post rest : List A)
      → All Differs post
      → remove_loop eq (length post) (suc (length pre)) val (after pre v post rest)
        ≡ returns (after pre v post rest)
  unfolding remove_loop
  walks_on pre v [] rest b = refl
  walks_on pre v (q ∷ post) rest b =
      let s = after pre v (q ∷ post) rest in
      let (z, found, differs) = last_cell q post rest b in
      let shown : drop (suc (length pre)) s.array ≡ (post ++ z ∷ []) ++ rest =
        drop-suc pre q (post ++ tail pre v (q ∷ post) rest)
        ∙ ap (λ r. post ++ r) (tail_lem pre v (q ∷ post) rest ∙ found)
        ∙ sym (append_assoc post (z ∷ []) rest) in
      let n : length (post ++ z ∷ []) + 0 ≡ suc (length post) =
        omega (arith, length-append post (z ∷ [])) in
      ap (λ k. remove_loop eq k (suc (length pre)) val s) (sym n)
      ∙ loop_skips 0 (suc (length pre)) s (post ++ z ∷ []) rest shown
          (All-append Differs post (z ∷ []) b.1 (differs, tt))

  -- The loop removes v and walks on over cells that differ.
  pub loop_removes :
      (pre : List A) (v : A) (post rest : List A)
      → All Differs pre
      → eq v val ≡ true
      → All Differs post
      → remove_loop eq (length (cells pre v post rest)) 0 val (before pre v post rest)
        ≡ returns (after pre v post rest)
  unfolding remove_loop
  loop_removes pre v post rest a e b =
      let s = before pre v post rest in
      let d = drop-cons s.array (length pre) v (post ++ rest) (
        ap (drop (length pre)) (append_assoc pre (v ∷ post) rest)
        ∙ drop-length pre (v ∷ post ++ rest)) in
      ap (λ k. remove_loop eq k 0 val s) (length-append pre (v ∷ post))
      ∙ loop_skips (suc (length post)) 0 s pre (v ∷ post ++ rest) (append_assoc pre (v ∷ post) rest)
          a
      ∙ ap (λ k. remove_loop eq (suc (length post)) k val s) (zero_add (length pre))
      ∙ rw (d.0, e, remove_at_lem pre v post rest, remove_loop) (walks_on pre v post rest b)

  pub length-after :
      (pre : List A) (v : A) (post rest : List A)
      → length (pre ++ post) ≡ (after pre v post rest).len
  length-after pre v post rest = omega (arith, length-append pre post, length-append pre (v ∷ post))

  pub after-contents :
      (pre : List A) (v : A) (post rest : List A) → contents (after pre v post rest) ≡ pre ++ post
  after-contents pre v post rest =
      ap2 (λ k xs. take k xs) (sym (length-after pre v post rest))
        (sym (append_assoc pre post (tail pre v post rest)))
      ∙ take-length (pre ++ post) (tail pre v post rest)

  -- The cells behind an element that val equals differ from val.
  pub later_differ :
      ((a b : A) → (eq a b ≡ true) ↔ (a ≡ b))
      → (v : A) (xs : List A) → eq v val ≡ true
      → All (λ y. v ≢ y) xs
      → All Differs xs
  later_differ w v [] e d = tt
  later_differ w v (x ∷ xs) e d = (
    elim (Bool-cases (eq x val)) [
      | inl f ↦ absurd (d.0 ((w v val).0 e ∙ sym ((w x val).0 f)))
      | inr f ↦ f
    ],
    later_differ w v xs e d.1,
  )

  abbrev pub Enqueued : Slice A → Slice A → Type ℓ
  Enqueued s t = (contents t ≡ others (contents s) ++ val ∷ []) × (t.len ≤ length t.array)
