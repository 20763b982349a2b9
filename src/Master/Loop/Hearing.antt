-- ===== src/Master/Loop/Hearing.antt =====
-- The subscriptions with which monitor of master/master.go begins, at the events of the Consul backend.
use consul_scheduler.Prelude.{String}
use Prim.Native.String.{◌++◌ as str_append}
use consul_scheduler.Backends.Events.{Listener}
use consul_scheduler.Master.Loop.{hundred}

abbrev listener : String → Listener
listener on = record { on = on; ch = hundred }
