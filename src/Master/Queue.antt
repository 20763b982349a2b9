-- ===== src/Master/Queue.antt =====
-- master/queue.go: the queue as the slice that the code keeps, with its backing array, since the
-- loop of doEnqueue removes from the array that it walks.
pub mod Cells
pub mod Removal
pub mod Unique
use consul_scheduler.Prelude.{
  ℕ, zero, suc, ◌-◌, String, ◌≡◌, Bool, true, false, ◌&&◌, Option, none, some, List, [], ◌∷◌, ◌++◌,
  map, ltb, if◌then◌else◌, str_eq, get_elem?, take, drop,
}
use consul_scheduler.Api.Results.{Outcome, returns, panics, and_then}
use mathlib.Core.Option

-- The array's cells that have been written, and how many of them the slice shows.
pub record Slice {ℓ} (A : Type ℓ) : Type ℓ where
  pub array : List A
  pub len : ℕ

abbrev pub contents {ℓ} : {A : Type ℓ} → Slice A → List A
contents s = take s.len s.array

abbrev pub empty {ℓ} : {A : Type ℓ} → Slice A
empty = record { array = []; len = 0 }

-- scheduleReq
pub record Request : Type 0 where
  pub cluster : String
  pub service : String

-- `==` of two requests
unfoldable pub same_request : Request → Request → Bool
same_request a b = str_eq a.cluster b.cluster && str_eq a.service b.service

module _ {ℓ} {A : Type ℓ} (eq : A → A → Bool) where
  -- s.queue = append(s.queue[:i], s.queue[i+1:]...): the tail moves down in the array, whose cells
  -- past the new end keep what they held. A bound past the slice's end panics.
  unfoldable pub remove_at : ℕ → Slice A → Outcome (Slice A)
  remove_at i s =
      if ltb i s.len
      then returns (record {
        array = take i s.array ++ (drop (suc i) (take s.len s.array) ++ drop (s.len - 1) s.array);
        len = s.len - 1;
      })
      else panics

  -- s.queue = append(s.queue, val)
  unfoldable pub push_back : A → Slice A → Slice A
  push_back val s = record {
    array = take s.len s.array ++ (val ∷ drop (suc s.len) s.array);
    len = suc s.len;
  }

  -- `for i, e := range s.queue`: as many rounds as the slice had elements when the loop began, over
  -- the array as it is now.
  unfoldable pub remove_loop : ℕ → ℕ → A → Slice A → Outcome (Slice A)
  unfolding remove_at
  remove_loop zero i val s = returns s
  remove_loop (suc n) i val s = elim (get_elem? s.array i) [
    | none ↦ panics
    | some e ↦ elim (eq e val) [
      | true ↦ and_then (remove_at i s) (λ s'. remove_loop n (suc i) val s')
      | false ↦ remove_loop n (suc i) val s
    ]
  ]

  unfoldable pub do_enqueue : A → Slice A → Outcome (Slice A)
  unfolding remove_loop push_back
  do_enqueue val s = and_then (remove_loop s.len 0 val s) (λ s'. returns (push_back val s'))

  -- The dequeue branch of listen, which is open only while the queue has elements: the last one is
  -- sent and cut off.
  unfoldable pub do_dequeue : Slice A → Option (A × Slice A)
  do_dequeue s =
      if ltb 0 s.len
      then Option.map (λ e. (e, record s { len = s.len - 1 })) (get_elem? s.array (s.len - 1))
      else none

  -- One round of listen, by the channel that the select takes.
  pub data Listen (s : Slice A) : Slice A → Type ℓ where
    enqueued : (val : A) (t : Slice A) → do_enqueue val s ≡ returns t → Listen s t
    dequeued : (val : A) (t : Slice A) → do_dequeue s ≡ some (val, t) → Listen s t
