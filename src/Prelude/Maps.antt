-- ===== src/Prelude/Maps.antt =====
-- Go maps with text keys as association lists. The order of the entries is the order in which
-- `range` visits them; nothing else depends on it.
use Prim.Native.String.{String}
use mathlib.Core.Path.{◌≡◌, refl}
use mathlib.Core.Logic.{inl, inr}
use mathlib.Core.List.{List, [], ◌∷◌}
use mathlib.Core.Option.{Option, none, some}
use native.Mathlib.Omega.{arith}
use consul_scheduler.Prelude.Tests.{if◌then◌else◌, str_eq, str_eq_iff, str_eq_refl, Bool-cases}
use consul_scheduler.Prelude.Lists.{length, All}
use Prim.Native.Nat.{suc, ◌≤◌}

abbrev pub Assoc {ℓ} : Type ℓ → Type ℓ
Assoc V = List (String × V)

module _ {ℓ} {V : Type ℓ} where
  -- v, ok := m[k]
  unfoldable pub lookup : String → Assoc V → Option V
  lookup k [] = none
  lookup k ((j, v) ∷ m) = if str_eq j k then some v else lookup k m

  -- m[k] = v
  unfoldable pub insert : String → V → Assoc V → Assoc V
  insert k v [] = (k, v) ∷ []
  insert k v ((j, w) ∷ m) = if str_eq j k then (k, v) ∷ m else (j, w) ∷ insert k v m

  -- delete(m, k)
  unfoldable pub delete : String → Assoc V → Assoc V
  delete k [] = []
  delete k ((j, w) ∷ m) = let rest = delete k m in if str_eq j k then rest else (j, w) ∷ rest

  unfoldable pub values : Assoc V → List V
  values [] = []
  values ((j, w) ∷ m) = w ∷ values m

  pub lookup-insert :
      (k j : String) (v : V) (m : Assoc V)
      → lookup j (insert k v m) ≡ (if str_eq k j then some v else lookup j m)
  unfolding lookup insert
  lookup-insert k j v [] = refl
  lookup-insert k j v ((i, w) ∷ m) =
      ground (arith, str_eq_iff k j, str_eq_iff i k, str_eq_iff i j, lookup-insert k j v m)

  pub lookup-delete :
      (k j : String) (m : Assoc V)
      → lookup j (delete k m) ≡ (if str_eq k j then none else lookup j m)
  unfolding lookup delete
  lookup-delete k j [] = ground arith
  lookup-delete k j ((i, w) ∷ m) =
      ground (arith, str_eq_iff k j, str_eq_iff i k, str_eq_iff i j, lookup-delete k j m)

  pub lookup-insert_self : (k : String) (v : V) (m : Assoc V) → lookup k (insert k v m) ≡ some v
  lookup-insert_self k v m = simp (lookup-insert, str_eq_refl)

  pub lookup-delete_self : (k : String) (m : Assoc V) → lookup k (delete k m) ≡ none
  lookup-delete_self k m = simp (lookup-delete, str_eq_refl)

  -- What holds of every entry still does when an entry of which it holds is put.
  pub All-insert {κ} :
      (P : String × V → Type κ) (k : String) (v : V) (m : Assoc V)
      → P (k, v)
      → All P m
      → All P (insert k v m)
  unfolding insert
  All-insert P k v [] h a = (h, tt)
  All-insert P k v ((j, w) ∷ m) h a = elim (Bool-cases (str_eq j k)) [
    | inl e ↦ rw e (h, a.1)
    | inr e ↦ rw e (a.0, All-insert P k v m h a.1)
  ]

  -- A put makes a map longer by one entry at most.
  pub length-insert : (k : String) (v : V) (m : Assoc V) → length (insert k v m) ≤ suc (length m)
  unfolding insert
  length-insert k v [] = omega arith
  length-insert k v ((j, w) ∷ m) = ground (arith, length-insert k v m)
