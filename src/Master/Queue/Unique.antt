-- ===== src/Master/Queue/Unique.antt =====
-- The queue as a list: what an enqueue and a dequeue do to a queue with no element twice.
use consul_scheduler.Prelude.{
  none-some, some_inj, suc, ◌-◌, ◌≤◌, ◌≡◌, refl, sym, ap, subst, ◌∙◌, ◌≢◌, ◌↔◌, inl, inr, Bool,
  true, not, some, List, [], ◌∷◌, ◌++◌, arith, ltb, ltb→lt, Bool-cases, Option-cases, length,
  get_elem?, drop, All,
}
use consul_scheduler.Api.Results.{returned, returns}
use consul_scheduler.Master.Queue.{
  Slice, contents, push_back, remove_loop, do_enqueue, do_dequeue, Listen,
}
use consul_scheduler.Master.Queue.Cells.{
  ap2, All-keep, Distinct, Distinct-later, Distinct-shorter, Distinct-snoc, add_zero, length-take,
  take-drop, take-length, true-false,
}
use consul_scheduler.Master.Queue.Removal.{
  Differs, Enqueued, after, after-contents, length-after, before, cells, keep-Differs, keep-split,
  later_differ, loop_removes, loop_skips, others, push_back-contents, split_at,
}

module _ {ℓ} {A : Type ℓ} (eq : A → A → Bool) (val : A) where
  abbrev showing : List A → List A → Slice A
  showing xs rest = record { array = xs ++ rest; len = length xs }

  enqueue_fresh :
      (xs rest : List A)
      → All (Differs eq val) xs
      → (t : Slice A) × (do_enqueue eq val (showing xs rest) ≡ returns t)
        × Enqueued eq val (showing xs rest) t
  unfolding do_enqueue remove_loop
  enqueue_fresh xs rest a =
      let s = showing xs rest in
      let walked : remove_loop eq (length xs) 0 val s ≡ returns s =
        ap (λ k. remove_loop eq k 0 val s) (sym (add_zero (length xs)))
        ∙ loop_skips eq val 0 0 s xs rest refl a in
      let (p, l) = push_back-contents eq val s xs (take-length xs rest) refl in
      (
        push_back eq val s,
        rw walked,
        (
          p
              ∙ ap (λ ys. ys ++ val ∷ [])
                  (sym (keep-Differs eq val xs a) ∙ ap (others eq val) (sym (take-length xs rest))),
          l,
        ),
      )

  enqueue_known :
      (pre : List A) (v : A) (post rest : List A)
      → All (Differs eq val) pre
      → eq v val ≡ true
      → All (Differs eq val) post
      → (t : Slice A) × (do_enqueue eq val (before eq val pre v post rest) ≡ returns t)
        × Enqueued eq val (before eq val pre v post rest) t
  unfolding do_enqueue
  enqueue_known pre v post rest a e b =
      let s = after eq val pre v post rest in
      let (p, l) =
        push_back-contents eq val s (pre ++ post) (after-contents eq val pre v post rest)
          (length-after eq val pre v post rest) in
      (
        push_back eq val s,
        rw (loop_removes eq val pre v post rest a e b),
        (
          p
              ∙ ap (λ xs. xs ++ val ∷ [])
                  (sym (keep-split eq val pre post v a e b)
                    ∙ ap (others eq val) (sym (take-length (cells eq val pre v post rest) rest))),
          l,
        ),
      )

  enqueue_showing :
      ((a b : A) → (eq a b ≡ true) ↔ (a ≡ b))
      → (xs rest : List A) → Distinct xs
      → (t : Slice A) × (do_enqueue eq val (showing xs rest) ≡ returns t)
        × Enqueued eq val (showing xs rest) t
  enqueue_showing w xs rest d = elim (split_at eq val xs) [
    | inl a ↦ enqueue_fresh xs rest a
    | inr (pre, v, post, q, a, e) ↦ rw q (
        enqueue_known pre v post rest a e
          (later_differ eq val w v post e (Distinct-later pre v post (subst Distinct q d))))
  ]

  -- A slice whose length is within its array and whose elements are all different takes an element
  -- with no panic: afterwards it shows what it showed, in order, without that element, and the element at its end,
  -- and its length is within its array.
  pub do_enqueue_lem :
      ((a b : A) → (eq a b ≡ true) ↔ (a ≡ b))
      → (s : Slice A) → s.len ≤ length s.array
      → Distinct (contents s)
      → (t : Slice A) × (do_enqueue eq val s ≡ returns t) × Enqueued eq val s t
  do_enqueue_lem w s h d =
      let e : showing (contents s) (drop s.len s.array) ≡ s =
        ap2 (λ xs n. record { array = xs; len = n }) (take-drop s.len s.array)
          (length-take s.len s.array h) in
      subst (λ r. (t : Slice A) × (do_enqueue eq val r ≡ returns t) × Enqueued eq val r t) e
        (enqueue_showing w (contents s) (drop s.len s.array) d)

  Distinct-others : (xs : List A) → Distinct xs → Distinct (others eq val xs)
  Distinct-others [] d = tt
  Distinct-others (x ∷ xs) d = elim (Bool-cases (eq x val)) [
    | inl e ↦ rw e (Distinct-others xs d.1)
    | inr e ↦ rw e (All-keep (λ y. x ≢ y) (λ e. not (eq e val)) xs d.0, Distinct-others xs d.1)
  ]

  others-ne :
      ((a b : A) → (eq a b ≡ true) ↔ (a ≡ b))
      → (xs : List A) → All (λ y. y ≢ val) (others eq val xs)
  others-ne w [] = tt
  others-ne w (x ∷ xs) = elim (Bool-cases (eq x val)) [
    | inl e ↦ rw e (others-ne w xs)
    | inr e ↦ rw e ((λ q. true-false (sym ((w x val).1 q) ∙ e)), others-ne w xs)
  ]

  Distinct-Enqueued :
      ((a b : A) → (eq a b ≡ true) ↔ (a ≡ b))
      → (s t : Slice A) → Distinct (contents s)
      → Enqueued eq val s t
      → Distinct (contents t)
  Distinct-Enqueued w s t d e = rw e.0 (
      Distinct-snoc (others eq val (contents s)) val (Distinct-others (contents s) d)
        (others-ne w (contents s)))

-- A queue that is in order: it lies within its array, and holds no element twice.
abbrev pub InOrder {ℓ} : {A : Type ℓ} → Slice A → Type ℓ
InOrder s = (s.len ≤ length s.array) × Distinct (contents s)

module _ {ℓ} {A : Type ℓ} (eq : A → A → Bool) where
  shown : {p q : A × Slice A} → some p ≡ some q → p.1 ≡ q.1
  shown e = ap (λ p. p.1) (some_inj e)

  dequeue_shorter :
      (s t : Slice A) (val : A)
      → do_dequeue eq s ≡ some (val, t)
      → (t.array ≡ s.array) × (suc t.len ≡ s.len)
  unfolding do_dequeue
  dequeue_shorter s t val h = elim (Bool-cases (ltb 0 s.len)) [
    | inr e ↦ absurd (none-some (rw e at h))
    | inl e ↦ elim (Option-cases (get_elem? s.array (s.len - 1))) [
      | inl f ↦ absurd (none-some (rw (e, f) at h))
      | inr (x, f) ↦
          let q = shown (rw (e, f) at h) in
          (sym (ap (λ r. r.array) q), omega (arith, ltb→lt 0 s.len e, ap (λ r. r.len) q))
    ]
  ]

  -- Every round of listen, an enqueue or a dequeue, keeps it true that the queue lies within its
  -- array and holds no element twice.
  pub Listen-InOrder :
      ((a b : A) → (eq a b ≡ true) ↔ (a ≡ b))
      → (s t : Slice A) → InOrder s
      → Listen eq s t
      → InOrder t
  Listen-InOrder w s t h (Listen.enqueued val u e) =
      let (v, q, c) = do_enqueue_lem eq val w s h.0 h.1 in
      subst InOrder (returned (sym q ∙ e)) (c.1, Distinct-Enqueued eq val w s v h.1 c)
  Listen-InOrder w s t h (Listen.dequeued val u e) =
      let (p, q) = dequeue_shorter s t val e in
      (
        rw p (omega (arith, h.0, q)),
        rw p (Distinct-shorter t.len s.len s.array (omega (arith, q)) h.1),
      )
