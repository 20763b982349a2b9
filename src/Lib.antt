-- ===== src/Lib.antt =====
-- A verification library of sked, a scheduler of containers over Consul: the data model, the
-- scheduler, the two backends, the master, the agents, the processes and the commands, as functions
-- on explicit states, and what makes them correct.
--
-- The program. A user writes clusters, deployments, task definitions and services into a backend
-- (actions/). The master (master/) is told of changes by the backend's events, puts a request for
-- each deployment into a queue of unique elements, takes the deployment's lock and calls the
-- scheduler (scheduler/), which reads hosts and tasks and writes tasks that it has scheduled on a
-- host or unscheduled. On each host an agent (agent/) reads the host's tasks, starts, stops and
-- rejects them and publishes what the host has left; a health agent (health/) runs their checks and
-- reports their states; a discovery agent (discovery/) keeps the endpoints of the services. All of
-- them meet in the interface api.SchedulerApi only, which backends/consul and backends/mock offer.
-- The command line (cli/) puts a master, an agent, a health and a discovery agent together into a
-- process, with the configuration (config/) that its flags give.
--
-- The files.
--   Prelude     numbers, lists, maps as association lists, texts, Go's 64-bit integers and how they
--               are printed and parsed
--   Api         api/: Types has the structs, Definitions the methods of TaskDefinition, Container
--               and Task, Validate the Validate methods, Backend the interface SchedulerApi as a
--               record over the backend's states, StoreLaws what a backend promises, Results what
--               a call gives back, Loops the triggers, tickers and channels of the loops
--   Scheduler   scheduler/: Rankers is rankers.go; Hosts has matchHost, updateHost and selectHost,
--               Ports selectPort, Schedule syncHosts and the three phases of Schedule (cleanup,
--               shrink, grow) of scheduler.go
--   Backends    Events has match and emit, Query the filter of ListTasks, Mock
--               backends/mock/mock_api.go and mock_locking.go, Consul
--               backends/consul/consul_api.go over a client that is a parameter, with Codec for
--               encoding.go, Watch for consul_events.go and Lock for consul_lock.go
--   Master      master/: Queue is queue.go with the backing array of its slice, Lockers
--               lockers.go, Dispatch the handlers of master.go, Loop its monitor, worker and
--               garbageCollector, Workers the calls of several workers on one lock
--   Agent       agent/ and api/executors.go: State is state.go, Executors the executors, Running
--               start, stop and runner, Sync syncTask and sync, Publish PublishState, Setup
--               NewAgent, Loop Run with its deferred calls
--   Health      health/: Checks is the checks of health.go, Monitor a round of its Run, Monitors
--               the sync of agent.go, Loop its Run and Stop
--   Discovery   discovery/discovery.go: endpoints and sync; Polling has Run, Listen and the poll
--               route
--   Actions     actions/: Apply is ApplyConfig, Scale has Drain and Scale, Listing ListTasks and
--               ListHosts, Table the printed table
--   Cli         cli/ and config/: Config is config.go, Routes the routes of a process, Processes
--               processes.go, Commands the commands of app.go
--   Examples    the theorems at a small cluster
-- A module below a component's file holds what is proved of it.
--
-- How the code is read. A method is a function from the state to the new state and the result. A Go
-- error is a value of Result; a call that may also panic or wait for ever gives an Outcome, with
-- `panics` for a nil pointer or an index out of range and `hangs` for a lock or a channel that
-- nobody frees. `int` and `int64` wrap at 64 bits, `uint` is taken modulo 2^64 where it is added
-- to. `range` over a map visits the entries in the order of the association list. Random numbers
-- are a function `draw` of the number of the call and the bound; time and the outcome of a health
-- check are arguments. A loop that waits in a select is recursion over the list of what wakes it,
-- each with the backend as it is at that moment, so that the writes of other processes between two
-- rounds are any writes. The Consul client, the locks, the network, the machine (commands, ports,
-- JSON of executors), UnSubscribe, the parser of the configuration file and the print of a map are
-- records of functions or parameters. A cluster, a deployment and a service are stored in Consul as
-- the JSON object with the tags of their fields; how such an object is written as bytes is part of
-- the client, and a text is one of whole characters, so that JSON replaces nothing in it. Hosts,
-- task definitions and tasks are stored whole.
--
-- Bounds. The loop of selectPort has fuel, one more than the host's reserved ports where the search
-- starts low enough; it stands for a loop that the code does not bound. The downward loop of
-- Schedule has as much fuel as its counter is above the last instance to keep. The queue of an
-- agent holds 500 actions; an action that finds it full is dropped, as the code drops it after 15
-- seconds. The loop of a queue's enqueue takes as many rounds as the slice had elements.
--
-- Not modelled: the random sleeps and the intervals of tickers, the JSON forms of the answers,
-- of the states' file, of hosts, of task definitions and of tasks, logging, the welcome text, the statistics of /stats, a second signal, the
-- parsing of the command line, Debug, and running commands. Values of the backend are handed out
-- as copies: a change of an object that is not put is not seen by the backend, where the in-memory
-- backend shares its pointers.
pub mod Prelude
pub mod Api
pub mod Scheduler
pub mod Backends
pub mod Master
pub mod Agent
pub mod Health
pub mod Discovery
pub mod Actions
pub mod Cli
pub mod Examples
