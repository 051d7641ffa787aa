-- ===== src/Lib.antt =====
-- A verification library for the Rust code of rules_systemtest: the coordinator that leases test
-- fixtures to clients, the client it drives fixture plugins with, and the protocol they speak.
--
-- The parts, by their paths in the repository:
--
-- - src/coordinator/src/coordinator.rs keeps two tables under one lock, fixtures by fingerprint and
--   leases by id, and answers four calls. Coordinator/Memory has the `State`, the `Coordinator` and
--   the sharing policy (`sharing_admits`, `plugin_socket_path`). `take_lease` releases the lock while
--   a plugin starts, so Coordinator/TakeLease has it in three parts: `begin` runs to the end of the
--   first lock, `provision` holds none, and `finish` holds the second; `take_lease` composes them,
--   and its argument `others` is what other calls do to the state in between. Coordinator/Slots has
--   what happens inside the locks (`validate`, `attach`, `register`), and Coordinator/Leases has
--   `keepalive`, `release_lease` and `status`, which hold the lock from end to end.
-- - src/coordinator/src/plugin_client.rs spawns a plugin process, connects to its socket and reads
--   the stream of its progress. PluginClient/Process has `spawn` and the drop, PluginClient/Connect
--   has `connect_with_retry`, and PluginClient/Create has `describe` and `create_fixture`, whose loop
--   is `drain`.
-- - src/coordinator/src/fixture.rs gives a fixture its fingerprint: Fixture and Fixture/Hex.
-- - src/coordinator/src/lease.rs has the ids of leases: Lease.
-- - src/plugins/dummy/src/main.rs is the stub plugin of the scaffold: Dummy, with Dummy/Ports for the
--   list of ports, Dummy/Names for their order, Dummy/Decimal for the parse of a number and
--   Dummy/Serve for `main`.
-- - src/coordinator/src/bin/coordinator_local.rs starts the daemon: Daemon.
-- - src/proto/systemtestrs/src/lib.rs has the messages: Proto, with Proto/Data, Proto/Enums,
--   Proto/Service and Proto/Plugin. It also has the generated gRPC clients and servers of the two
--   services: Rpc/CoordinatorClient, Rpc/CoordinatorServer, Rpc/PluginClient and Rpc/PluginServer, with
--   what their methods have in common in Rpc/Calls. The handlers of the coordinator and of the stub
--   plugin are the services behind the servers in Coordinator/Service and Dummy/Service, and
--   PluginClient/Remote has the coordinator's two calls to a plugin through the generated client.
--   Dummy/Provided has `take_lease` with the stub plugin at the other end of the wire, and System puts
--   the client of the coordinator before it: a client, the coordinator and the plugin together.
--
-- How the code is modelled:
--
-- - What the operating system and the libraries do is a parameter. `Os` is a record of the types and
--   the operations that the coordinator calls (files, processes, the clock, sockets, the gRPC client),
--   each a function on a `World`; `Codec` has SHA-256 and the protobuf encoding. What a theorem needs
--   of them is a hypothesis that names it, such as `IsClock`.
-- - An `async` function that may fail is a function from a world to a result and a world (Io, Result).
--   An `anyhow` error is the list of its messages, the outermost first. The `Status` of a call has the
--   codes that the code uses.
-- - A HashMap is a sealed association list with the laws of a map (Map). A BTreeMap is the list of its
--   entries, which the coordinator passes on and the stub plugin looks keys up in.
-- - UUIDs are given texts (`Draws`); that the id of a new lease is fresh is a hypothesis where a
--   theorem needs it. An i64 is an integer with its wrap-around written out, and so is each operation
--   on it (Prelude/Int).
-- - http, prost and tonic are the record `Tonic` of Rpc/Tonic, over which the generated clients and
--   servers are written. What tonic documents of a connection - that messages within the limits of
--   both sides come out as they went in, under the path they were sent to - is the record `Carries` of
--   Rpc/Carried, a hypothesis of the theorems that need it; Tests/Wire has a connection that meets it.
--   A builder of a server whose name is that of the field it sets has `set_` before its name.
-- - serde_json is the record `Json`, and what the daemon takes from its host the record `Host`, also
--   parameters. A panic of the stub plugin is `none`.
-- - A gRPC stream is the finite list of the items it yields. A lock that is poisoned, the plugin
--   of a call that its client cancels, and the overflow of the clock by a timeout are not modelled.
-- - The retry loop runs on fuel, `timeout / 50 + 2` rounds. A round that asks for another one sleeps
--   50 ms before the deadline, so that `timeout / 50 + 1` rounds reach it, and one more gives up.
-- - The histories of the coordinator are Coordinator/Step: a step is one locked part of a call, so
--   that a sequence of steps is an interleaving of calls.
-- - Coordinator/Ledger has an abstract view of a state, the fixture of each lease and the outputs of
--   each fixture, and Coordinator/Simulation the change of it that each step stands for.
--   Coordinator/Effects has the changes that a lease makes, by the lookups in the tables before and
--   after, and Coordinator/Granted the calls that make them.
-- - Coordinator/Calls has the coordinator with the calls that it is serving: a call of `take_lease`
--   that provisions waits in a list, and any number of calls come, wait, finish with the outcome of
--   their own plugin, give up and release in any order. To whom a lease was granted is noted in the
--   state for the statements; the program keeps no such note.
--
-- Proofs stand in the files that are named for what they prove, below the part they are about; Tests
-- has the same theorems at concrete inputs, over a small operating system of its own (Tests/Machine).
--
-- Not modelled: the parse of command lines, the runner (Go), the Bazel rules, and the code that the
-- derive macros of prost expand to: an encoding is a parameter.
pub mod Prelude
pub mod Result
pub mod Map
pub mod Proto
pub mod Io
pub mod Os
pub mod Fixture
pub mod Lease
pub mod PluginClient
pub mod Coordinator
pub mod Rpc
pub mod System
pub mod Dummy
pub mod Daemon
pub mod Tests
