-- ===== src/Lib.antt =====
-- Servr, a testbed for distributed-systems clients: a data plane (HTTP, jobs, webhooks, WebSocket)
-- whose faults, clock and configuration an operator changes at run time. The library models the
-- program's own logic; networks, databases and third-party crates are parameters with what the code
-- relies on stated as laws.
--
-- Parts, and the file that models each, with its counterpart in the repository:
--   Core.Glob, Core.Fault   crates/core/src/fault.rs: route globs (`glob_match`) and fault rules
--   Core.Clock              crates/core/src/clock.rs: `advance`, `freeze`, `resume`, `reset`
--   Core.Config, Core.State crates/core/src/config.rs and state.rs: the scenario, the overlay and
--                           what they resolve to; `mutate` and `reset`
--   Core.State.Threads      the same two operations in their steps under the write lock
--   Core.Event, Core.Bus    crates/core/src/event.rs and bus.rs: `emit`, and a subscriber's stream
--   Core.Trace              crates/core/src/trace.rs: trace and span ids as texts
--   Core.Snapshot           crates/core/src/snapshot.rs, and the boot from a snapshot in
--                           server/src/main.rs
--   Queue.Job, Queue.Store, Queue.Memory, Queue.Redis, Queue.Scheduler
--                           crates/queue/src/job.rs, store.rs, redis_store.rs and scheduler.rs
--   Http.Fault              crates/http/src/fault.rs: `Effects::resolve` and the fault layer
--   Http.Data, Http.Items   crates/http/src/data.rs and items.rs: a schema and a pool for each run, and
--                           the requests for items
--   Http.Lenient            crates/http/src/json.rs: a JSON body without its header
--   Hooks.Sign, Hooks.Outbound, Hooks.Inbound
--                           crates/hooks/src/sign.rs, outbound.rs and inbound.rs: signed deliveries
--                           with retries, the check of a signature, and the capture inbox
--   Mail.Allow              crates/mail/src/allow.rs: recipients that a relay may reach
--   Mail.Inbox, Mail.Mailer crates/mail/src/inbox.rs, send.rs and lib.rs: a run's mail read back, and
--                           mail sent; Mail.Env, its configuration by the environment
--   Ws.Hub                  crates/ws/src/hub.rs: topics, members, presence and the fan-out
--   Stream.Chunks, Stream.Scripted, Stream.Chat
--                           crates/stream/src/chunks.rs, scripted.rs and chat.rs: paced streams
--   Ws.Conn                 crates/ws/src/conn.rs: the frame loop of one connection
--   Telemetry.Chaos, Telemetry.Metrics
--                           crates/telemetry/src/chaos.rs: batches of spans and the metrics text,
--                           corrupted on their way out
--   Telemetry.Collector     crates/telemetry/src/lib.rs: the endpoint and the headers of the collector,
--                           and whether it is used
--   Telemetry.Propagation   crates/telemetry/src/propagation.rs: trace context in headers
--   Admin.Control, Admin.Jobs, Admin.Mail, Admin.Hooks, Admin.Sockets, Admin.Snapshots, Admin.Runs
--                           crates/admin/src/lib.rs: the operator's requests and their answers
--   Server                  server/src/main.rs: the flag, the boot from a snapshot or a scenario, and
--                           the port; Server.Restart, a restart with a file that was written
--   Common, Examples        shared helpers; concrete data and the theorems applied to it
--
-- How the parts interact: the fault layer asks the resolved configuration for the rules of a path;
-- the scheduler claims jobs from any store that keeps `Queue.Store.Contract`, which `Queue.Memory`
-- fills; scheduler, webhook sender and fault layer read the virtual clock and give events to the
-- bus. The admin routes change the control plane's state, move its clock and put jobs in the store;
-- a snapshot carries that state over a restart. An operation takes what it reads from outside as
-- arguments: instants of the monotonic clock, the virtual time, draws of the random generator,
-- answers of a receiver. Its events are kept in a list of the component's own state. A WebSocket
-- connection comes as rounds, each with what other tasks do to the hub meanwhile.
--
-- Bounds: a `u32` and a `u64` wrap by `% 2 ^ w`, an `i64` by `wrap_i64`; a `usize` is unbounded.
-- The glob search runs on fuel, `glob_fuel`, which is enough for every pattern and text: see
-- `Core.Glob.Sound`. A client of a stream makes a given number of reads, and two more than there are
-- chunks reach its end: see `Stream.Pace`. Random span ids come as a list, which is long enough if it
-- has an id that is not zero for each span: see `Telemetry.Chaos.Spans`. A number of at most 64 bits
-- is printed in 20 steps. A scheme is stripped from an endpoint at most as often as the text has
-- code points. All other loops are structural.
--
-- Not modelled: spans, logs and metrics; the wall-clock stamps of events; the timers around the
-- passes; (de)serialization; the calendar's ends (`Core.Chrono`); `f64` beyond a comparison and a
-- scaling (`Core.Float`); the order in which a `HashMap` is iterated, which is an association
-- list's, or of the topics `presence` shows; connections lost to Redis; the interned
-- statements of PostgreSQL and the race of two first uses of a pool; the pipelines of OpenTelemetry,
-- and the upgrade of a WebSocket.
pub mod Admin
pub mod Server
pub mod Common
pub mod Core
pub mod Examples
pub mod Hooks
pub mod Http
pub mod Mail
pub mod Queue
pub mod Stream
pub mod Telemetry
pub mod Ws
