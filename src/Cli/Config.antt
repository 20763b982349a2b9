-- ===== src/Cli/Config.antt =====
-- config/config.go, and the Before of cli/app.go: the settings that the global flags give.
use consul_scheduler.Prelude.{ℤ, pos, String, Option, none, some, if◌then◌else◌, str_eq}

-- consul.Config, as far as the flags set it
pub record ConsulConfig : Type 0 where
  pub address : String
  pub datacenter : String
  pub token : String

pub record Config : Type 0 where
  pub addr : String
  pub port : ℤ
  pub advertise : String
  pub log_level : String
  pub version : String
  pub backend : String
  pub consul : ConsulConfig

-- NewConfig over the Consul client's default.
unfoldable pub new_config : ConsulConfig → Config
new_config default = record {
  addr = "0.0.0.0";
  port = pos 8231;
  advertise = "127.0.0.1:8231";
  log_level = "info";
  version = "0.2.1";
  backend = "consul";
  consul = default;
}

pub record GlobalFlags : Type 0 where
  pub log_level : String
  pub backend : String
  pub consul_api : String
  pub consul_dc : String
  pub consul_token : String
  pub bind : String
  pub advertise : String
  pub prefix : String
  pub port : ℤ

-- The flags that are not given.
abbrev pub default_flags : GlobalFlags
default_flags = record {
  log_level = "debug";
  backend = "consul";
  consul_api = "";
  consul_dc = "";
  consul_token = "";
  bind = "0.0.0.0";
  advertise = "127.0.0.1:8231";
  prefix = "registry";
  port = pos 8231;
}

pub data LogLevel : Type 0 where
  debug info warn error : LogLevel

unfoldable pub log_level_of : String → LogLevel
log_level_of s =
    if str_eq s "debug"
    then debug
    else if str_eq s "info"
    then info
    else if str_eq s "warn"
    then warn
    else if str_eq s "error"
    then error
    else debug

-- The backend of the process: NewConsulApi with a prefix and a configuration, or NewMockApi.
pub data BackendChoice : Type 0 where
  consul_backend : String → ConsulConfig → BackendChoice
  memory_backend : BackendChoice

-- if flag != "" { setting = flag }
abbrev pub or_kept : String → String → String
or_kept flag kept = if str_eq flag "" then kept else flag

unfoldable pub configured : GlobalFlags → Config → Config
configured f c = record c {
  port = f.port;
  addr = f.bind;
  advertise = f.advertise;
  log_level = f.log_level;
  backend = f.backend;
  consul = record {
    address = or_kept f.consul_api (c.consul).address;
    datacenter = or_kept f.consul_dc (c.consul).datacenter;
    token = or_kept f.consul_token (c.consul).token;
  };
}

-- A backend that is not supported is fatal.
unfoldable pub backend_of : String → Config → Option BackendChoice
backend_of prefix c =
    if str_eq c.backend "consul"
    then some (consul_backend prefix c.consul)
    else if str_eq c.backend "memory"
    then some memory_backend
    else none

pub record Settings : Type 0 where
  pub config : Config
  pub backend : BackendChoice
  pub level : LogLevel

abbrev settings_with : Config → Option BackendChoice → Option Settings
settings_with c none = none
settings_with c (some b) =
    some (record { config = c; backend = b; level = log_level_of c.log_level })

-- Before; none is log.Fatalf, which ends the process.
unfoldable pub before : GlobalFlags → Config → Option Settings
unfolding configured backend_of log_level_of
before f c = let c' = configured f c in settings_with c' (backend_of f.prefix c')
