-- ===== src/Backends/Events/Heard.antt =====
-- Whether a registered listener of a backend gets an event: the test of emit.
use consul_scheduler.Prelude.{String, ◌≡◌, true, false, some, codes, Assoc, lookup}
use consul_scheduler.Backends.Events.{Listener, match_key}

-- A listener is registered under the key, and its pattern lets the event through.
abbrev pub Hears : String → Assoc Listener → String → Type 0
Hears key ls evt =
    (l : Listener) × (lookup key ls ≡ some l) × (match_key (codes l.on) (codes evt) ≡ true)

-- A listener is registered under the key, and its pattern stops the event.
abbrev pub Misses : String → Assoc Listener → String → Type 0
Misses key ls evt =
    (l : Listener) × (lookup key ls ≡ some l) × (match_key (codes l.on) (codes evt) ≡ false)
