-- ===== src/Backends/Events.antt =====
-- Subscriptions: the pattern test and the sending of events, which backends/consul/consul_events.go
-- and backends/mock/mock_api.go have in common. Texts are walked as lists of code points.
pub mod Patterns
pub mod Heard
use consul_scheduler.Prelude.{
  ℕ, ◌+◌, String, Bool, true, false, none, some, List, [], ◌∷◌, ◌++◌, ltb, leb, ◌==◌, if◌then◌else◌,
  length, get_elem?, Assoc, codes,
}

-- How many bytes a rune takes in the text that `range` walks.
unfoldable pub rune_len : ℕ → ℕ
rune_len c = if ltb c 128 then 1 else if ltb c 2048 then 2 else if ltb c 65536 then 3 else 4

abbrev pub star : ℕ
star = b'*'

abbrev rune_at : List ℕ → ℕ → ℕ
rune_at evt idx = elim (get_elem? evt idx) [ none ↦ 0 | some c ↦ c ]

-- The loop of match from byte `idx` of the key on.
unfoldable pub match_from : ℕ → List ℕ → List ℕ → Bool
unfolding rune_len
match_from idx [] evt = true
match_from idx (c ∷ key) evt =
    let rest = match_from (idx + rune_len c) key evt in
    if c == star
    then true
    else if leb (length evt) idx
    then false
    else if c == rune_at evt idx
    then rest
    else false

unfoldable pub match_key : List ℕ → List ℕ → Bool
unfolding match_from
match_key key evt = match_from 0 key evt

-- A channel of texts: what is in its buffer, the buffer's size, and how many receivers wait.
pub record Chan : Type 0 where
  pub buffer : List String
  pub cap : ℕ
  pub waiting : ℕ

-- select { case ch <- evt: default: }
unfoldable pub try_send : String → Chan → Chan
try_send evt ch =
    if ltb (length ch.buffer) (ch.cap + ch.waiting)
    then record ch { buffer = ch.buffer ++ evt ∷ [] }
    else ch

pub record Listener : Type 0 where
  pub on : String
  pub ch : Chan

unfoldable pub notify : String → Listener → Listener
unfolding match_key try_send
notify evt l = if match_key (codes l.on) (codes evt) then record l { ch = try_send evt l.ch } else l

-- The loop over the listeners for one event.
unfoldable pub emit_to : String → Assoc Listener → Assoc Listener
unfolding notify
emit_to evt [] = []
emit_to evt ((k, l) ∷ ls) = (k, notify evt l) ∷ emit_to evt ls
