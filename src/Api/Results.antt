-- ===== src/Api/Results.antt =====
-- What a Go call gives back. A call that returns an `error` gives a `Result`; a call that may also
-- block for ever or panic gives an `Outcome`.
use consul_scheduler.Prelude.{◌≢◌, ◌≡◌, refl, subst, ◌⊎◌, inl, inr, String, Bool, true, false}

-- `api.ErrNotFound`, and any other error by its text.
pub data Error : Type 0 where
  not_found : Error
  failed : String → Error

pub data Result {ℓ} (A : Type ℓ) : Type ℓ where
  ok : A → Result A
  err : Error → Result A

-- `if err != nil { return err }`
infixl 5 ◌>>=◌
abbrev pub ◌>>=◌ {ℓ κ} : {A : Type ℓ} {B : Type κ} → Result A → (A → Result B) → Result B
ok a >>= f = f a
err e >>= f = err e

pub data Outcome {ℓ} (A : Type ℓ) : Type ℓ where
  returns : A → Outcome A
  hangs : Outcome A
  panics : Outcome A

abbrev pub and_then {ℓ κ} : {A : Type ℓ} {B : Type κ} → Outcome A → (A → Outcome B) → Outcome B
and_then (returns a) f = f a
and_then hangs f = hangs
and_then panics f = panics

abbrev pub is_ok {ℓ} : {A : Type ℓ} → Result A → Bool
is_ok (ok a) = true
is_ok (err e) = false

-- `err.Error()`
abbrev pub message : Error → String
message not_found = "could not find the requested resource"
message (failed s) = s

-- The call does not panic, and what it returns has the property.
abbrev pub Ensures {ℓ} : {A : Type ℓ} → (A → Type 0) → Outcome A → Type 0
Ensures P (returns a) = P a
Ensures P hangs = Unit
Ensures P panics = ⊥

pub Ensures-and_then {ℓ κ} :
    {A : Type ℓ} {B : Type κ} (P : A → Type 0) (Q : B → Type 0) (m : Outcome A) (f : A → Outcome B)
    → Ensures P m
    → ((a : A) → P a → Ensures Q (f a))
    → Ensures Q (and_then m f)
Ensures-and_then P Q (returns a) f h k = k a h
Ensures-and_then P Q hangs f h k = tt
Ensures-and_then P Q panics f h k = absurd h

-- The call returns, and what it returns has the property.
abbrev pub Returns {ℓ} : {A : Type ℓ} → (A → Type 0) → Outcome A → Type 0
Returns P (returns a) = P a
Returns P hangs = ⊥
Returns P panics = ⊥

pub Returns-and_then {ℓ κ} :
    {A : Type ℓ} {B : Type κ} (P : A → Type 0) (Q : B → Type 0) (m : Outcome A) (f : A → Outcome B)
    → Returns P m
    → ((a : A) → P a → Returns Q (f a))
    → Returns Q (and_then m f)
Returns-and_then P Q (returns a) f h k = k a h
Returns-and_then P Q hangs f h k = absurd h
Returns-and_then P Q panics f h k = absurd h

-- A sequence that returns has returned at its first step.
pub and_then-returns {ℓ κ} :
    {A : Type ℓ} {B : Type κ} (m : Outcome A) (f : A → Outcome B) {b : B}
    → and_then m f ≡ returns b
    → (a : A) × (m ≡ returns a) × (f a ≡ returns b)
and_then-returns (returns a) f h = (a, refl, h)
and_then-returns hangs f h = cc
and_then-returns panics f h = cc

pub Result-cases {ℓ} :
    {A : Type ℓ} (r : Result A) → ((a : A) × (r ≡ ok a)) ⊎ ((e : Error) × (r ≡ err e))
Result-cases (ok a) = inl (a, refl)
Result-cases (err e) = inr (e, refl)

-- What the call returns, if it returns, has the property.
abbrev pub WhenReturns {ℓ} : {A : Type ℓ} → (A → Type 0) → Outcome A → Type 0
WhenReturns P (returns a) = P a
WhenReturns P hangs = Unit
WhenReturns P panics = Unit

pub WhenReturns-and_then {ℓ κ} :
    {A : Type ℓ} {B : Type κ} (P : A → Type 0) (Q : B → Type 0) (m : Outcome A) (f : A → Outcome B)
    → WhenReturns P m
    → ((a : A) → P a → WhenReturns Q (f a))
    → WhenReturns Q (and_then m f)
WhenReturns-and_then P Q (returns a) f h k = k a h
WhenReturns-and_then P Q hangs f h k = tt
WhenReturns-and_then P Q panics f h k = tt

pub WhenReturns-any {ℓ} : {A : Type ℓ} (m : Outcome A) → WhenReturns (λ a. Unit) m
WhenReturns-any (returns a) = tt
WhenReturns-any hangs = tt
WhenReturns-any panics = tt

pub WhenReturns-if {ℓ} :
    {A : Type ℓ} (P : A → Type 0) (m : Outcome A)
    → ((a : A) → m ≡ returns a → P a)
    → WhenReturns P m
WhenReturns-if P (returns a) h = h a refl
WhenReturns-if P hangs h = tt
WhenReturns-if P panics h = tt

pub WhenReturns-at {ℓ} :
    {A : Type ℓ} (P : A → Type 0) (m : Outcome A) {a : A} → WhenReturns P m → m ≡ returns a → P a
WhenReturns-at P m h e = subst (WhenReturns P) e h

-- A call that returns has a value.
pub Returns-value {ℓ} :
    {A : Type ℓ} (P : A → Type 0) (m : Outcome A) → Returns P m → (a : A) × (m ≡ returns a)
Returns-value P (returns a) h = (a, refl)
Returns-value P hangs h = absurd h
Returns-value P panics h = absurd h

pub returned {ℓ} : {A : Type ℓ} {x y : A} → returns x ≡ returns y → x ≡ y
returned e = cc

pub hangs-returns {ℓ} : {A : Type ℓ} {x : A} → hangs ≢ returns x
hangs-returns e = cc

pub panics-returns {ℓ} : {A : Type ℓ} {x : A} → panics ≢ returns x
panics-returns e = cc
