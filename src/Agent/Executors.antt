-- ===== src/Agent/Executors.antt =====
-- api/executors.go, and RunSetup and RunTeardown of api/task_definition.go. Commands run on a
-- machine, which is not part of this repository: the record Machine over its states `W`.
use consul_scheduler.Prelude.{
  ℕ, String, Bool, true, false, Option, none, some, List, [], ◌∷◌, ◌++◌, if◌then◌else◌, str_eq,
  show,
}
use consul_scheduler.Api.Types.{Duration, Resources, PortMapping, Container, Task}
use consul_scheduler.Api.Results.{Error, failed, Result, ok, err}
use consul_scheduler.Api.Definitions.{ports_for_task, task_id}
use Prim.Native.String.{◌++◌ as str_append}
use consul_scheduler.Api.Validate.{seconds}

pub record BashExecutor : Type 0 where
  pub ports : List ℕ
  pub env : List String
  pub start : String
  pub stop : String
  pub artifact : String
  pub download_dir : String

pub record DockerExecutor : Type 0 where
  pub image : String
  pub cmd : String
  pub entry : String
  pub env : List String
  pub work_dir : String
  pub net : String
  pub net_alias : String
  pub volumes : List String
  pub volume_driver : String
  pub flags : List String

pub data Executor : Type 0 where
  bash : BashExecutor → Executor
  docker : DockerExecutor → Executor

-- `exec env timeout main args` is tools.Exec; `decode_*` reads a container's raw JSON;
-- `port_available` tells whether a port can be bound; `observed` is what the machine has free.
pub record Machine (W : Type 0) : Type 0 where
  pub exec : List String → Duration → String → List String → W → W × Option Error
  pub decode_bash : String → Option BashExecutor
  pub decode_docker : String → Option DockerExecutor
  pub port_available : ℕ → W → Bool
  pub observed : W → Resources

-- if value != "" { main = append(main, flag, value) }
unfoldable pub flag : String → String → List String
flag name value = if str_eq value "" then [] else name ∷ value ∷ []

-- main = append(main, flag, value) for each value
unfoldable pub flags_for : String → List String → List String
flags_for name [] = []
flags_for name (v ∷ vs) = name ∷ v ∷ flags_for name vs

unfoldable pub port_flags : List PortMapping → List String
port_flags [] = []
port_flags (p ∷ ps) =
    "-p" ∷ str_append (show p.host) (str_append ":" (show p.container)) ∷ port_flags ps

-- The arguments of `docker run`.
unfoldable pub docker_args : DockerExecutor → Task → Container → List String
unfolding flag flags_for port_flags
docker_args d t c =
    "run"
    ∷ "--name"
    ∷ task_id t
    ∷ (flag "--entrypoint" d.entry
        ++ (flag "-w" d.work_dir
            ++ (flag "--volume-driver" d.volume_driver
                ++ (flag "--net-alias" d.net_alias
                    ++ (flag "--net" d.net
                        ++ (d.flags
                            ++ (flags_for "-v" d.volumes
                                ++ (flags_for "-e" d.env
                                    ++ (port_flags (ports_for_task c t)
                                        ++ ("-d" ∷ d.image ∷ []))))))))))

module _ {W : Type 0} (machine : Machine W) where
  abbrev wrap {ℓ} : {A : Type ℓ} {B : Type ℓ} → (A → B) → Option A → Option B
  wrap f none = none
  wrap f (some a) = some (f a)

  -- GetExecutor with the two builders of ExecutorBuilders; none for nil.
  unfoldable pub get_executor : Container → Option Executor
  get_executor c =
      if str_eq c.kind "docker"
      then wrap docker (machine.decode_docker c.executor)
      else if str_eq c.kind "bash"
      then wrap bash (machine.decode_bash c.executor)
      else none

  -- Each command in turn, up to the first that fails.
  unfoldable pub run_commands : List String → W → W × Option Error
  run_commands [] w = (w, none)
  run_commands (cmd ∷ cmds) w =
      let (w', e) = machine.exec [] (seconds 20) "sh" ("-c" ∷ cmd ∷ []) w in
      elim e [ some x ↦ (w', some x) | none ↦ run_commands cmds w' ]

  unfoldable pub run_setup : Container → W → W × Option Error
  unfolding run_commands
  run_setup c w = run_commands c.setup w

  -- RunTeardown walks the container's Setup.
  unfoldable pub run_teardown : Container → W → W × Option Error
  unfolding run_commands
  run_teardown c w = run_commands c.setup w

  unfoldable pub start_bash : BashExecutor → Task → W → W × Option Error
  start_bash b t w =
      let begin : W → W × Option Error =
        λ v. machine.exec b.env t.task_definition.grace_period "sh" ("-c" ∷ b.start ∷ []) v in
      if str_eq b.artifact ""
      then begin w
      else let (w', e) =
          machine.exec b.env (seconds 30) "curl" ("-o" ∷ b.download_dir ∷ b.artifact ∷ []) w in
        elim e [ some x ↦ (w', some x) | none ↦ begin w' ]

  unfoldable pub start_docker : DockerExecutor → Task → Container → W → W × Option Error
  unfolding docker_args
  start_docker d t c w =
      let (w1, e) = machine.exec d.env (seconds 900) "docker" ("pull" ∷ d.image ∷ []) w in
      elim e [
        | some x ↦ (w1, some x)
        | none ↦
            let w2 =
              (machine.exec d.env (seconds 5) "docker" ("rm" ∷ "-f" ∷ task_id t ∷ []) w1).0 in
            machine.exec d.env t.task_definition.grace_period "docker" (docker_args d t c) w2
      ]

  unfoldable pub start_task : Executor → Task → Container → W → W × Option Error
  unfolding start_bash start_docker
  start_task (bash b) t c w = start_bash b t w
  start_task (docker d) t c w = start_docker d t c w

  unfoldable pub stop_task : Executor → Task → Container → W → W × Option Error
  stop_task (bash b) t c w = machine.exec b.env (seconds 20) "sh" ("-c" ∷ b.stop ∷ []) w
  stop_task (docker d) t c w = machine.exec d.env (seconds 20) "docker" ("stop" ∷ task_id t ∷ []) w

  -- IsRunning: the bash executor cannot tell.
  unfoldable pub is_running : Executor → Task → Container → W → W × Result Bool
  is_running (bash b) t c w = (w, err (failed "cannot determine state"))
  is_running (docker d) t c w =
      let (w', e) =
        machine.exec [] (seconds 20) "docker"
          ("inspect" ∷ "-f" ∷ "{{.State.Running}}" ∷ task_id t ∷ []) w in
      (w', ok (elim e [ none ↦ true | some x ↦ false ]))
