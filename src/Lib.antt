-- ===== src/Lib.antt =====
-- Verification library of the DeRouter node.
--
-- A node keeps its state in an SQLite database and in a few shared maps. As a Provider it publishes
-- heartbeats with the offers that the modules behind its RPC connections provide. As a Consumer it
-- stores the offers of the heartbeats that it receives. Both sides keep a row for each service job
-- and settle it by a signature on a common hash.
--
-- Base: the conditional, equality of keys, lists searched and updated by tests, maps as association
--   lists, the integers, and `Outcome`, whose `panic` is a failed `unwrap`.
-- Dto, State: src/dto.rs and the events of src/state.rs.
-- Db: the tables of src/db/migrations as lists of rows. Db/Providers: src/db/providers.rs.
-- Db/Jobs: src/db/service_jobs. `create_job`, `find_by_rowid`, `find_by_job_id` and `hash_job` stand in
--   Jobs itself, `fail_job` in Jobs/Fail, the Consumer's and the Provider's completion and confirmation
--   in Jobs/Consumer and Jobs/Provider, the confirmation error in Jobs/ConfirmationError, the two
--   queries of query_all.rs in Jobs/Unconfirmed and Jobs/QueryAll. Jobs/Lookup, Failure, Completion,
--   Stored, Confirmation, Agreement, Validity, Steps, Preservation, Total and Ambiguity hold the proofs.
-- Db/Offers: src/db/offers.rs, with the unique indexes of the table. Offers/Table, Enable, Place and
--   Upsert hold the proofs.
-- P2p/Proto, P2p/Heartbeat: src/p2p/proto/gossipsub.rs and
--   src/p2p/gossipsub/heartbeat/handle.rs. Heartbeat/Announce, Reconcile, Sync, Replay, Enter and NewPeer
--   hold the proofs, which rest on those of Db/Offers.
-- P2p/Sender: src/p2p/gossipsub/heartbeat/send.rs, which reads the provider state of Rpc/Provide. Gather
--   and Message hold the proofs on one node, Delivery those on a sender and a receiver together.
-- P2p/Requests: src/p2p/proto/request_response.rs, the handlers of src/p2p/reqres, and the end of
--   src/p2p/job_confirmation_scheduler.rs. They call the operations of Db/Jobs and `find_offer` of
--   Rpc/Provide. Requests/Authorization, Confirm and Settle hold the proofs.
-- P2p/Scheduler: the jobs that a turn of src/p2p/job_confirmation_scheduler.rs sends, the task of one
--   job, and the messages of src/p2p/gossipsub.rs. Scheduler/Settlement puts the two nodes together.
-- P2p/Outbound: the requests that a node has sent, `response_tx_map` of src/p2p.rs and its users in
--   src/p2p/reqres.rs. Outbound/Settled and Answers hold the proofs.
-- P2p/Peers: the map of discovered peers that src/p2p.rs keeps.
-- P2p/Streams: src/p2p/stream/job_connection.rs and
--   src/rpc/procedure/consumer/open_job_connection.rs, the two ends of a stream for a job. Streams/Open
--   and Closed hold the proofs.
-- Rpc/Subscriptions: `handle_event` of src/rpc/connection.rs and src/rpc/procedure/subscription.
-- Rpc/Provide: the provider state of src/state.rs, src/rpc/procedure/provider/provide.rs, and the
--   cleanup at the end of src/rpc/connection.rs. It calls `upsert` of Db/Offers. Provide/Keys, Sync,
--   Request and Close hold the proofs on one call, Provide/Sessions is the step relation of all
--   connections of a node.
-- Rpc/ProviderLock: the lock on the provider state as a step relation of two tasks, one of
--   src/p2p/reqres/create_job.rs or src/p2p/stream/job_connection.rs, the other of src/rpc/connection.rs.
-- Rpc/Connections: the streams that wait for the client in src/rpc/connection.rs.
-- Rpc/Consumer, Rpc/Settle: the other procedures of src/rpc/procedure/consumer, and
--   src/rpc/procedure/fail_job.rs with src/rpc/procedure/provider/complete_job.rs.
-- Rpc/Queries: src/rpc/procedure/query, on the queries of Db.
-- Util/Cbor: src/util/cbor.rs. Frame and Stream hold the proofs on one value and on a stream of values.
--
-- A handler is a function from the state to an `Outcome`: an error carries no state, since the
-- transaction is rolled back. The function returns the response that stands in the frame or
-- message that the handler sends. Clocks are arguments. Peer IDs are base58 texts and times are
-- timestamps in nanoseconds, which the program compares and rounds down to seconds in a heartbeat.
-- Rowids are natural numbers. The counters of modules (u32) and job connections (u64) and the
-- length of a frame (u32) wrap around, written out; theorems that need no wrap say so. Loops are
-- structural recursion on the rows, entries or bytes that they visit, so no fuel is needed, but
-- for `read_each` of Util/Cbor/Stream, which is given the number of values.
--
-- Parameters stand for code of other crates and of other nodes: hashing, signatures and the
-- parsing of numbers and peer IDs (`Primitives`, `parse`), the encoders and decoders of serde_cbor
-- (`to_vec`, `from_slice`, `decode`), the writer of a stream (`write_all`), libp2p's `publish`,
-- the answer of a peer or module (`ask`, `open_stream`, and arguments of the handlers). SQLite is
-- what its documentation says of the statements used; where it leaves an order open, the order is
-- a parameter: `main_first` for the checks of two indexes, `scan` for the rows of a query of
-- several rows with no ORDER BY.
--
-- Not modelled: the set-up of libp2p, sockets, Yamux and the copying of streams, logging, the
-- command line and the configuration, which only move data; the enumerations of the RPC frames in
-- src/rpc/procedure.rs; a connection whose task has panicked; the table of requests to a module in
-- src/rpc/connection.rs; the sending of a response to a peer; the waiting between two turns of the
-- loops.
pub mod Base
pub mod Dto
pub mod Db
pub mod State
pub mod Util
pub mod P2p
pub mod Rpc
