-- ===== src/Backends/Consul/Watch/Unheard.antt =====
-- The events of the Consul monitor of the state keys, against the subscription of the agents.
use Prim.Native.Char.{code}
use consul_scheduler.Prelude.{
  ℕ, ◌+◌, String, ◌≡◌, refl, ap, ◌∙◌, inl, inr, true, false, Option, none, some, List, [], ◌∷◌,
  ◌++◌, arith, codes, codes-append, Bool-cases, Option-cases, if◌then◌else◌, ◌==◌,
}
use Prim.Native.String.{◌++◌ as str_append}
use consul_scheduler.Backends.Events.{match_key, match_from, rune_len}
use consul_scheduler.Backends.Events.Patterns.{agrees, match_key-agrees}
use consul_scheduler.Backends.Consul.Store.{task_key, health_key}
use consul_scheduler.Backends.Consul.Watch.{strip_prefix, remove_first, key_event}

-- The same operations on code points.
strip_codes : List ℕ → List ℕ → Option (List ℕ)
strip_codes [] s = some s
strip_codes (c ∷ p) [] = none
strip_codes (c ∷ p) (d ∷ s) = let rest = strip_codes p s in if c == d then rest else none

abbrev or_else : List ℕ → Option (List ℕ) → List ℕ
or_else later none = later
or_else later (some rest) = rest

remove_codes : List ℕ → List ℕ → List ℕ
unfolding strip_codes
remove_codes old [] = []
remove_codes old (c ∷ s) = or_else (c ∷ remove_codes old s) (strip_codes old (c ∷ s))

abbrev codes_of : Option String → Option (List ℕ)
codes_of none = none
codes_of (some s) = some (codes s)

codes-strip_prefix : (p s : String) → codes_of (strip_prefix p s) ≡ strip_codes (codes p) (codes s)
unfolding strip_prefix strip_codes
codes-strip_prefix String.[] s = refl
codes-strip_prefix (String.◌∷◌ c p) String.[] = refl
codes-strip_prefix (String.◌∷◌ c p) (String.◌∷◌ d s) = elim (Bool-cases (code c == code d)) [
  | inl e ↦ rw e (codes-strip_prefix p s)
  | inr e ↦ rw e
]

codes-remove_first :
    (old s : String) → codes (remove_first old s) ≡ remove_codes (codes old) (codes s)
unfolding remove_first remove_codes
codes-remove_first old String.[] = refl
codes-remove_first old (String.◌∷◌ c s) =
    let e = codes-strip_prefix old (String.◌∷◌ c s) in
    elim (Option-cases (strip_prefix old (String.◌∷◌ c s))) [
      | inl q ↦
          let f = rw q at e in
          rw (q, remove_first)
            (rw (← f, remove_codes) (ap (λ r. code c ∷ r) (codes-remove_first old s)))
      | inr (r, q) ↦ let f = rw q at e in rw (q, remove_first) (rw (← f, remove_codes))
    ]

-- A key lets no event through that its first part stops.
match_from-append :
    (idx : ℕ) (key more evt : List ℕ)
    → match_from idx (key ++ more) evt ≡ true
    → match_from idx key evt ≡ true
unfolding match_from
match_from-append idx [] more evt h = refl
match_from-append idx (c ∷ key) more evt h =
    ground (arith, match_from-append (idx + rune_len c) key more evt)

-- The patterns of the agent and of the health agent for the state of their host.
abbrev pub host_state : String → String
host_state host = str_append "state::state/hosts/" host

stopped_early :
    (host : String) (evt : List ℕ)
    → agrees (codes "state::state/hosts/") evt ≡ false
    → match_key (codes (host_state host)) evt ≡ false
unfolding match_key
stopped_early host evt h = elim (Bool-cases (match_key (codes (host_state host)) evt)) [
  | inr e ↦ e
  | inl e ↦
      let f = rw (codes-append "state::state/hosts/" host) at e in
      absurd (
        cc (
          match_key-agrees (codes "state::state/hosts/") evt (omega arith),
          h,
          match_from-append 0 (codes "state::state/hosts/") (codes host) evt f,
        ))
]

event_codes :
    (key : String)
    → codes (key_event "state" "registry" key)
      ≡ codes "state::"
        ++ remove_codes (codes "registry/") (remove_codes (codes "config/") (codes key))
unfolding key_event
event_codes key =
    codes-append "state" (str_append "::" (remove_first "registry/" (remove_first "config/" key)))
    ∙ ap (λ r. codes "state" ++ r)
        (codes-append "::" (remove_first "registry/" (remove_first "config/" key)))
    ∙ ap (λ r. codes "state::" ++ r)
        (codes-remove_first "registry/" (remove_first "config/" key)
          ∙ ap (remove_codes (codes "registry/")) (codes-remove_first "config/" key))

-- A key of a task, and a key of a task's health.
task_unheard :
    (id : String)
    → agrees
        (codes "state::state/hosts/")
        (codes (key_event "state" "registry" (str_append "registry/" (task_key id))))
      ≡ false
unfolding remove_codes
task_unheard id =
    rw
      (
        event_codes (str_append "registry/" (task_key id)),
        codes-append "registry/" (task_key id),
        codes-append "state/tasks/" id,
      )
      refl

health_unheard :
    (id : String)
    → agrees
        (codes "state::state/hosts/")
        (codes (key_event "state" "registry" (str_append "registry/" (health_key id))))
      ≡ false
unfolding remove_codes
health_unheard id =
    rw
      (
        event_codes (str_append "registry/" (health_key id)),
        codes-append "registry/" (health_key id),
        codes-append "state/health/" id,
      )
      refl

-- Under the prefix "registry", no event of the Consul monitor about a key that the backend writes
-- below state/, of a task or of a task's health, is let through by the pattern with which the agent
-- and the health agent of a host, whatever its name, listen for changes of their state.
pub state_events_unheard :
    (host id : String)
    → (match_key
          (codes (host_state host))
          (codes (key_event "state" "registry" (str_append "registry/" (task_key id))))
        ≡ false)
      × (match_key
            (codes (host_state host))
            (codes (key_event "state" "registry" (str_append "registry/" (health_key id))))
          ≡ false)
state_events_unheard host id =
    (stopped_early host _ (task_unheard id), stopped_early host _ (health_unheard id))
