-- ===== src/Backends/Consul/Watch.antt =====
-- The two monitors of backends/consul/consul_events.go. A blocking query of the Consul client is a
-- Poll: an error, or the last index and the entries.
pub mod Hearing
pub mod Unheard
use Prim.Native.Char.{code}
use consul_scheduler.Prelude.{
  ℕ, String, ◌≡◌, refl, Bool, true, false, ◌||◌, Option, none, some, List, [], ◌∷◌, map, ltb, ◌==◌,
  if◌then◌else◌, str_eq, Assoc,
}
use Prim.Native.String
use Prim.Native.String.{◌++◌ as str_append}
use consul_scheduler.Backends.Events.{Listener, notify}

-- What is left of a text after its first part.
unfoldable pub strip_prefix : String → String → Option String
strip_prefix String.[] s = some s
strip_prefix (String.◌∷◌ c p) String.[] = none
strip_prefix (String.◌∷◌ c p) (String.◌∷◌ d s) =
    let rest = strip_prefix p s in if code c == code d then rest else none

-- strings.Replace(s, old, "", 1)
unfoldable pub remove_first : String → String → String
unfolding strip_prefix
remove_first old String.[] = String.[]
remove_first old (String.◌∷◌ c s) =
    let later = remove_first old s in
    elim (strip_prefix old (String.◌∷◌ c s)) [ some rest ↦ rest | none ↦ String.◌∷◌ c later ]

-- consul.HealthCheck, with the node
pub record NodeCheck : Type 0 where
  pub node : String
  pub service_id : String
  pub status : String

-- consul.KVPair, as far as monitor reads it
pub record KeyPair : Type 0 where
  pub key : String
  pub modify_index : ℕ

pub data Poll (A : Type 0) : Type 0 where
  errored : Poll A
  answer : ℕ → List A → Poll A

unfoldable pub is_failing : String → Bool
is_failing status = str_eq status "critical" || str_eq status "warning"

unfoldable pub health_event : NodeCheck → String
unfolding is_failing
health_event c =
    let stat = if is_failing c.status then "failing" else "passing" in
    if str_eq c.service_id ""
    then str_append "health::node:" (str_append stat (str_append ":" c.node))
    else str_append "health::task:"
        (str_append c.node (str_append ":" (str_append stat (str_append ":" c.service_id))))

unfoldable pub key_event : String → String → String → String
unfolding remove_first
key_event name prefix key =
    str_append name
      (str_append "::" (remove_first (str_append prefix "/") (remove_first "config/" key)))

-- The entries that the last change of the answer has changed.
unfoldable pub key_events : String → String → ℕ → List KeyPair → List String
unfolding key_event
key_events name prefix last [] = []
key_events name prefix last (kv ∷ kvs) =
    let rest = key_events name prefix last kvs in
    if kv.modify_index == last then key_event name prefix kv.key ∷ rest else rest

-- emit: each listener is given the events in order.
unfoldable pub notify_all : List String → Listener → Listener
unfolding notify
notify_all [] l = l
notify_all (e ∷ es) l = notify_all es (notify e l)

unfoldable pub emit_all : List String → Assoc Listener → Assoc Listener
unfolding notify_all
emit_all es [] = []
emit_all es ((k, l) ∷ ls) = (k, notify_all es l) ∷ emit_all es ls

-- The variables of a monitor: lastId, and the listeners of the backend.
pub record Watch : Type 0 where
  pub last_id : ℕ
  pub listeners : Assoc Listener

-- One round: nothing on an error, and events only where the index has grown.
unfoldable pub round : {A : Type 0} → (ℕ → List A → List String) → Poll A → Watch → Watch
unfolding emit_all
round events errored w = w
round events (answer last entries) w = record {
  last_id = last;
  listeners =
      if ltb w.last_id last then emit_all (events last entries) w.listeners else w.listeners;
}

unfoldable pub rounds : {A : Type 0} → (ℕ → List A → List String) → List (Poll A) → Watch → Watch
unfolding round
rounds events [] w = w
rounds events (p ∷ ps) w = rounds events ps (round events p w)

-- monitorHealth and monitor
unfoldable pub monitor_health : List (Poll NodeCheck) → Watch → Watch
unfolding rounds health_event
monitor_health = rounds (λ last checks. map health_event checks)

unfoldable pub monitor : String → String → List (Poll KeyPair) → Watch → Watch
unfolding rounds key_events
monitor name prefix = rounds (key_events name prefix)

-- Start, once a get has come back with no error: the keys that are watched, each with the name of its
-- events. The health of all services is watched beside them.
unfoldable pub watched_keys : String → List (String × String)
watched_keys prefix =
    (str_append prefix "/config/task_definitions", "config")
    ∷ (str_append prefix "/config/deployments", "config")
    ∷ (str_append prefix "/config/services", "config")
    ∷ (str_append prefix "/config/clusters", "config")
    ∷ (str_append prefix "/state", "state")
    ∷ []

-- The gets of Start, each with its outcome: whether one of them has come back with no error.
unfoldable pub start_waits : List Bool → Bool
start_waits [] = false
start_waits (got ∷ rest) = let later = start_waits rest in if got then true else later

event_of_a_cluster :
    key_event "config" "registry" "registry/config/clusters/main" ≡ "config::clusters/main"
unfolding key_event
event_of_a_cluster = refl
