-- ===== src/Cli/Commands.antt =====
-- cli/tools.go: the commands that act on the backend and end.
pub mod Numbers
use consul_scheduler.Prelude.{ℕ, zero, suc, String, Option, none, some, List, [], ◌∷◌, Assoc}
use consul_scheduler.Prelude.Parse.{parse_int}
use consul_scheduler.Api.Results.{Error, failed, Result, ok, err, Outcome, returns, and_then}
use consul_scheduler.Api.Backend.{SchedulerApi}
use consul_scheduler.Actions.Apply.{Document, apply_config}
use consul_scheduler.Actions.Scale.{scale, drain}
use consul_scheduler.Actions.Listing.{Printing, list_tasks, list_hosts}

-- c.Args().Get(n): the empty text where there is none
unfoldable pub arg : ℕ → List String → String
arg n [] = ""
arg zero (a ∷ as') = a
arg (suc n) (a ∷ as') = arg n as'

-- The error of ParseInt; its text is not kept.
abbrev pub number_error : Error
number_error = failed "strconv.ParseInt"

module _ {S : Type 0} (api : SchedulerApi S) where
  -- ApplyCmd over readYml, which reads and decodes a file.
  unfoldable pub apply_cmd : (String → Result Document) → String → S → Outcome (S × Option Error)
  unfolding apply_config
  apply_cmd read_yml file s = elim (read_yml file) [
    | err e ↦ returns (s, some e)
    | ok doc ↦ and_then (apply_config api doc s) (λ s'. returns (s', none))
  ]

  -- The wanted number is read by ParseInt(des, 8, 64).
  unfoldable pub scale_cmd : List String → S → S × Option Error
  unfolding scale arg
  scale_cmd args s = elim (parse_int 8 64 (arg 1 args)) [
    | none ↦ (s, some number_error)
    | some i ↦ scale api (arg 0 args) i s
  ]

  unfoldable pub drain_cmd : String → List String → S → S × Option Error
  unfolding drain arg
  drain_cmd cluster args s = drain api cluster (arg 0 args) s

  unfoldable pub tasks_cmd : String → String → String → S → Printing
  unfolding list_tasks
  tasks_cmd by_host by_cluster by_service s = list_tasks api by_host by_cluster by_service s

  unfoldable pub hosts_cmd : (Assoc String → String) → String → S → Printing
  unfolding list_hosts
  hosts_cmd print_tags cluster s = list_hosts api print_tags cluster s
