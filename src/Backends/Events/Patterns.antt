-- ===== src/Backends/Events/Patterns.antt =====
-- What the pattern test decides, for keys of one-byte runes.
use consul_scheduler.Prelude.{
  ℕ, zero, suc, ◌+◌, ◌≤◌, ◌<◌, ◌≡◌, refl, sym, ◌∙◌, ◌↔◌, ◌⊎◌, inl, inr, Bool, true, false, some,
  List, [], ◌∷◌, arith, leb, if◌then◌else◌, ◌==◌, leb→le, leb→gt, ==_iff, Bool-cases, length,
  get_elem?, drop, All,
}
use consul_scheduler.Backends.Events.{rune_len, star, match_from, match_key}

-- A star accepts whatever is left, and so does the end of the key.
pub data Matches : List ℕ → List ℕ → Type 0 where
  any_rest : {c : ℕ} {key evt : List ℕ} → c ≡ star → Matches (c ∷ key) evt
  done : {evt : List ℕ} → Matches [] evt
  same : {c e : ℕ} {key evt : List ℕ} → c ≡ e → Matches key evt → Matches (c ∷ key) (e ∷ evt)

drop-some :
    (idx : ℕ) (evt : List ℕ)
    → idx < length evt
    → (c : ℕ) × (get_elem? evt idx ≡ some c) × (drop idx evt ≡ c ∷ drop (suc idx) evt)
drop-some idx [] h = absurd (omega arith)
drop-some zero (x ∷ xs) h = (x, refl, refl)
drop-some (suc idx) (x ∷ xs) h = drop-some idx xs (omega arith)

drop_none : (idx : ℕ) (evt : List ℕ) → length evt ≤ idx → drop idx evt ≡ []
drop_none zero [] h = refl
drop_none zero (x ∷ xs) h = absurd (omega arith)
drop_none (suc idx) [] h = refl
drop_none (suc idx) (x ∷ xs) h = drop_none idx xs (omega arith)

-- Inversions, over a variable event.
Matches-cons :
    (c e : ℕ) (key evt : List ℕ)
    → Matches (c ∷ key) (e ∷ evt)
    → (c ≡ star) ⊎ ((c ≡ e) × Matches key evt)
Matches-cons c e key evt (any_rest s) = inl s
Matches-cons c e key evt (same q m) = inr (q, m)

Matches-nil : (c : ℕ) (key : List ℕ) → Matches (c ∷ key) [] → c ≡ star
Matches-nil c key (any_rest s) = s

match_from_sound :
    (idx : ℕ) (key evt : List ℕ)
    → All (λ c. c < 128) key
    → match_from idx key evt ≡ true
    → Matches key (drop idx evt)
unfolding match_from
match_from_sound idx [] evt a h = done
match_from_sound idx (c ∷ key) evt a h = elim (Bool-cases (c == star)) [
  | inl e ↦ any_rest ((==_iff c star).0 e)
  | inr e ↦ elim (Bool-cases (leb (length evt) idx)) [
    | inl l ↦ absurd (ground arith)
    | inr l ↦
        let (x, at, split) = drop-some idx evt (leb→gt _ _ l) in
        let next : idx + rune_len c ≡ suc idx = unfold rune_len in ground arith in
        let eq : c ≡ x = ground arith in
        let rest : match_from (idx + rune_len c) key evt ≡ true = ground arith in
        let ih = match_from_sound (suc idx) key evt a.1 (rw next at rest) in rw split (same eq ih)
  ]
]

match_from_complete :
    (idx : ℕ) (key evt rest : List ℕ)
    → All (λ c. c < 128) key
    → rest ≡ drop idx evt
    → Matches key rest
    → match_from idx key evt ≡ true
unfolding match_from
match_from_complete idx [] evt rest a q m = refl
match_from_complete idx (c ∷ key) evt [] a q m =
    let e : (c == star) ≡ true = (==_iff c star).1 (Matches-nil c key m) in rw e
match_from_complete idx (c ∷ key) evt (x ∷ rest) a q m = elim (Bool-cases (c == star)) [
  | inl e ↦ rw e
  | inr e ↦ elim (Bool-cases (leb (length evt) idx)) [
    | inl l ↦ absurd (cc (q, drop_none idx evt (leb→le _ _ l)))
    | inr l ↦ elim (Matches-cons c x key rest m) [
      | inl s ↦ absurd (ground arith)
      | inr (eq, tail) ↦
          let (y, at, split) = drop-some idx evt (leb→gt _ _ l) in
          let next : idx + rune_len c ≡ suc idx = unfold rune_len in ground arith in
          let hd : x ≡ y = ground arith in
          let tl : rest ≡ drop (suc idx) evt = ground arith in
          let ih = match_from_complete (suc idx) key evt rest a.1 tl tail in
          let ih' : match_from (idx + rune_len c) key evt ≡ true = rw next ih in
          ground (arith, ih', at, hd, eq)
    ]
  ]
]

-- For a key of one-byte runes, match accepts an event exactly when the key's runes agree with the
-- event's up to the key's first star, or up to the key's end; the event may go on from there.
pub match_key_iff :
    (key evt : List ℕ) → All (λ c. c < 128) key → (match_key key evt ≡ true) ↔ Matches key evt
unfolding match_key
match_key_iff key evt a = (match_from_sound 0 key evt a, match_from_complete 0 key evt evt a refl)

-- The same test by recursion on the key and the event.
abbrev pub agrees : List ℕ → List ℕ → Bool
agrees [] evt = true
agrees (c ∷ key) [] = c == star
agrees (c ∷ key) (e ∷ evt) =
    let rest = agrees key evt in if c == star then true else if c == e then rest else false

agrees_sound : (key evt : List ℕ) → agrees key evt ≡ true → Matches key evt
agrees_sound [] evt h = done
agrees_sound (c ∷ key) [] h = any_rest ((==_iff c star).0 h)
agrees_sound (c ∷ key) (e ∷ evt) h = elim (Bool-cases (c == star)) [
  | inl s ↦ any_rest ((==_iff c star).0 s)
  | inr s ↦ elim (Bool-cases (c == e)) [
    | inl q ↦ same ((==_iff c e).0 q) (agrees_sound key evt (rw (s, q) at h))
    | inr q ↦ absurd (ground arith)
  ]
]

agrees_complete : (key evt : List ℕ) → Matches key evt → agrees key evt ≡ true
agrees_complete [] evt m = refl
agrees_complete (c ∷ key) [] m = (==_iff c star).1 (Matches-nil c key m)
agrees_complete (c ∷ key) (e ∷ evt) m = elim (Matches-cons c e key evt m) [
  | inl s ↦ rw ((==_iff c star).1 s)
  | inr (q, tail) ↦ ground (arith, agrees_complete key evt tail)
]

pub match_key-agrees :
    (key evt : List ℕ) → All (λ c. c < 128) key → match_key key evt ≡ agrees key evt
match_key-agrees key evt a = elim (Bool-cases (agrees key evt)) [
  | inl e ↦ (match_key_iff key evt a).1 (agrees_sound key evt e) ∙ sym e
  | inr e ↦ elim (Bool-cases (match_key key evt)) [
    | inr f ↦ f ∙ sym e
    | inl f ↦ absurd (cc (e, agrees_complete key evt ((match_key_iff key evt a).0 f)))
  ]
]

pub agrees-star : (key evt : List ℕ) → agrees (star ∷ key) evt ≡ true
agrees-star key [] = refl
agrees-star key (e ∷ evt) = refl
