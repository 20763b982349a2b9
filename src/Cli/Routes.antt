-- ===== src/Cli/Routes.antt =====
-- The routes of the HTTP server: http.HandleFunc over the patterns of the one default mux, and
-- every RegisterRoutes and Serve of the program.
use consul_scheduler.Prelude.{String, Bool, true, false, List, [], ◌∷◌, if◌then◌else◌, str_eq}
use consul_scheduler.Api.Results.{Outcome, returns, panics, and_then}

-- http.DefaultServeMux: the patterns that have a handler.
abbrev pub Mux : Type 0
Mux = List String

unfoldable pub registered : String → Mux → Bool
registered p [] = false
registered p (q ∷ qs) = if str_eq q p then true else registered p qs

-- http.HandleFunc panics at a pattern that has been registered.
unfoldable pub handle_func : String → Mux → Outcome Mux
unfolding registered
handle_func p m = if registered p m then panics else returns (p ∷ m)

unfoldable pub handle_all : List String → Mux → Outcome Mux
unfolding handle_func
handle_all [] m = returns m
handle_all (p ∷ ps) m = and_then (handle_func p m) (λ m'. handle_all ps m')

-- What the import of net/http/pprof registers.
abbrev pub initial_mux : Mux
initial_mux =
    "/debug/pprof/" ∷ "/debug/pprof/cmdline" ∷ "/debug/pprof/profile" ∷ "/debug/pprof/symbol"
    ∷ "/debug/pprof/trace" ∷ []

abbrev pub agent_routes : List String
agent_routes = "/agent/status" ∷ "/agent/health" ∷ []

abbrev pub master_routes : List String
master_routes = "/scheduler/health" ∷ []

abbrev pub health_routes : List String
health_routes = "/scheduler/health" ∷ []

abbrev pub discovery_routes : List String
discovery_routes = "/discovery/status" ∷ "/discovery/poll" ∷ "/agent/health" ∷ []

abbrev pub server_routes : List String
server_routes = "/" ∷ "/stats" ∷ []
