-- ===== src/Lib.antt =====
-- A model of my-etcd, a replicated key-value store in C++: its Raft consensus and its transport, its
-- storage, its files, its leases and watchers, and the server that composes them, with the theorems about them.
--
-- The parts of the program and the files that model them:
--   * Types: src/common/types.h, the data that the parts exchange.
--   * Raft/Log: src/raft/raft_log.h, the log in memory (`RaftLog`). Its methods keep their names
--     (LastIndex is `last_index`, TruncateTo is `truncate_to`, the two overloads of Append are `append`
--     and `append_all`).
--   * Raft/Messages: src/raft/transport.h, the requests and responses of the two RPCs.
--   * Raft/Node, Raft/Vote, Raft/Replicate: src/raft/raft.cpp and raft_node.h (`RaftNode`): the state and
--     the role changes, proposals, membership and snapshots; votes and elections; replication and commitment.
--     Raft/Worker is the loop of its thread. Raft/Steps, Raft/Safety, Raft/Vote/Votes and Raft/Worker/Rounds are about
--     all these among the steps of the node's threads.
--   * Storage/KeyIndex and Storage/Mvcc: src/storage/mvcc.cpp, the versions of each key.
--   * Storage/Backend: src/storage/backend.cpp, the current values.
--   * Storage/KvStore: src/storage/kvstore.cpp, which keeps the two together, and its snapshot format.
--   * Lease: src/lease/lease.cpp. Watch: src/watch/watcher.cpp.
--   * Codec, Transport: src/raft/tcp_transport.cpp. Transport/Wire is the format of the messages, Transport/Server
--     the receiving side, and Transport/Client the sending one.
--   * Wal: src/wal/wal.cpp; Wal/Crc is its checksum and Wal/Entry its record format. Wal/Replay, Wal/Contents and
--     Wal/Truncation are about what it gives back.
--   * Snapshots: src/snapshot/snapshot.cpp. Storage/Backend/DataFile: the data file of the backend.
--   * Server: src/server/etcd_server.cpp, how the server composes the parts; Server/Requests and Server/Txn are its
--     requests, and Server/Json is src/server/http_handler.cpp. Server/Machine, Server/Durability,
--     Server/Applied, Server/Answers, Server/Events, Server/Members, Server/Numbers, Server/Sections, Server/Runs,
--     Server/Invariant, Server/Rounds and Server/Recovery are about these.
--   * Http: src/main.cpp, the HTTP server. Http/Text is how it takes texts apart, Http/Request its parser, Http/Routes
--     the authentication, the routes and the handlers (HandlePut is `handle_put`), Http/Response the text of an answer,
--     and Http/Connection what it does with a connection (HandleClientImpl is `read_request` and `handle_client`).
--     Http/Auth, Http/Bounds, Http/Effects and Http/Machine are about these; Http/Client is the text of a request as a
--     client writes it, which Http/RoundTrip and Http/Delivery compare the parser with, by Http/Lines, Http/Encoding,
--     Http/Fields, Http/Search and Http/Arrival.
--   * Startup: src/main.cpp, the arguments and the initial cluster, and the constructor of the server;
--     Startup/Identifiers is about the initial cluster.
--   * OrdMap: `std::map` as a list of pairs in key order. Base: what the modules share.
--   * Tests: the theorems applied at concrete states.
--
-- How the code corresponds to the definitions. A class is a record of its fields, and a method a function
-- from the state to the new state and the result, which runs without another thread in between; other threads run
-- between the methods. Most methods hold a mutex for what they change. HandleRequestVote checks the terms before it
-- takes the mutex, so its definition has what other threads do at each of its accesses, and its parts are steps of
-- their own. HandleAppendEntries, ApplySnapshot and the checks of the role in front of a proposal are not under the
-- mutex either, and finer interleavings of these are not in the model. Where a method of the Raft node waits for the
-- answer of a peer, the RPC is a function of the node's state to the state after it and the answer, and a round of
-- the loop of Run has what other threads do while it waits, so that the steps of other threads in
-- between are in the model. Handlers that the node calls stand in a trace, and are taken as set. Strings are
-- lists of bytes, each below 256. Terms and indices of Raft are 64-bit and wrap around where the code adds to
-- or subtracts from them (`add64`, `sub64`); `last + 1` of FindConflictTermIndex is not taken to wrap.
-- Revisions, versions, lease identifiers and times are signed in the code and counted here from 0 up. Sizes
-- that the code casts to int are taken to fit. The lease of a tombstone, which the code leaves unset and never
-- reads, is 0. An error text is a constructor. A read past the end of a vector, which has no defined behaviour,
-- is `none`.
--
-- Loops are recursion on the list or the number that they go through. The binary search of
-- FindConflictTermIndex has fuel, the width of its interval, which falls in each round. The loops over the bytes
-- of a file and over the text of a transaction have the length as fuel, since each round goes on behind at least
-- one byte; the search for a new member's identifier has the number of peers and two more. The decimal digits of
-- a number have 20 as fuel, which is what 64 bits need.
--
-- Parameters of the model, since they are not code of the repository: the network (Transport/Client), what other
-- threads do while a request waits (Server/Requests), and the functions of the C++ library that read a number
-- (`Library` in Http/Request).
--
-- A put over HTTP that names a negative lease has no result, since the leases are counted from 0 up.
--
-- Not modelled: threads and their start and stop, the clock and random timeouts (their steps may happen at any
-- time), the sockets of src/raft/tcp_transport.cpp and src/main.cpp and writes to them that fail, file operations
-- that fail and when written bytes reach the disk, signals, and what the program prints.
pub mod Base
pub mod OrdMap
pub mod Codec
pub mod Transport
pub mod Lease
pub mod Watch
pub mod Snapshots
pub mod Wal
pub mod Types
pub mod Raft
pub mod Storage
pub mod Server
pub mod Http
pub mod Startup
mod Tests
