-- ===== src/Backends/Consul.antt =====
-- backends/consul/: the backend over Consul. `Codec` is what is stored, `Store` the client and the
-- four basic calls, `Registering` the writes of hosts and tasks, `States` the task states and the
-- listing of tasks, `Interface` the whole as a SchedulerApi.
pub mod Codec
pub mod Store
pub mod Registering
pub mod States
pub mod Interface
pub mod Laws
pub mod Lock
pub mod Watch
