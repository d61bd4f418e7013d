-- ===== src/Lib.antt =====
-- A peer-to-peer file sharing system in Go: trackers that keep users, groups and files, a distributed
-- hash table, and a client. Modelled are the tracker's commands, the core of the hash
-- table, the framing of messages, and the client's sharing and downloading.
--
-- The parts, and how they interact:
--   * Tracker models tracker/. Tracker/State is tracker/state.go and tracker/protocol.go: the three
--     global maps are one record, `State`. Tracker/Accounts, Groups and Files are the handlers of
--     tracker/handlers.go, one function each under the name of the source's function in snake case:
--     `uploadFile` is `upload_file`. A handler takes the state and the arguments and gives an
--     `Outcome`: the new state, the response, and as effects what it starts with `go` (saving, and
--     broadcasts to the other trackers); or a panic, where the source indexes past its arguments or
--     dereferences a missing group. Tracker/Server is the dispatch of tracker/server.go, and
--     Tracker/Sync what a tracker does with the messages of its peers, tracker/sync.go. Tracker/Rejoin
--     is tracker/persistence.go and what a tracker does when it starts again.
--   * Dht models dht/. Dht/Clock is dht/vector_clock.go and `compareVectorClocks` of dht/node.go;
--     Dht/Value the data of a node; Dht/Store its own reads and writes (`localPut`, `localGet`);
--     Dht/Resolve the resolution of conflicting answers; Dht/Ring the hash ring of
--     dht/consistent_hash.go, which names the primary node of a key; Dht/Replicas the choice of the
--     nodes for a key, from the primary on; Dht/Quorum the coordinator's `Put` and `Get`, which use
--     all of these, with the guards of dht/config.go; Dht/Hints hinted handoff; and Dht/Gossip the
--     member list and the failure detector of dht/gossip.go, whose verdict the choice of nodes asks for.
--     Dht/Server is the handlers of dht/server.go, from a decoded body to the status of the answer,
--     Dht/Requests what one node sends to another and takes from its answers, the direct sync of the
--     anti-entropy included, and Dht/Reconnect the delivery of hints; there two nodes are two states,
--     a `Delivery` says whether a request or its answer is lost, and a `Route` what its router makes of
--     the URL in which a key stands unescaped. Dht/Merkle is the hash tree of dht/merkle_tree.go.
--   * Common/Netio is the framing of messages between the programs, common/netio.go: `Send` and
--     `Recv` over the bytes of a connection.
--   * Client models client/. Client/Chunk is client/chunk.go: how a file is cut, hashed and saved as
--     chunk files; a disk is a map from file hashes to folders. Client/Peer is what a peer answers
--     from its disk, client/peer_server.go, and the requests that client/download.go makes to it;
--     Client/Rarity the rarest-first order, and Client/Download the run of `DownloadFile` from the
--     tracker's answer on: what is skipped, asked for, compared with its hash, written and at last
--     assembled, ended by an error or a panic where the source is. Client/Trackers is
--     client/tracker_conn.go: which tracker is asked, and how the addresses are read. Client/Commands
--     is client/main.go with client/session.go: what a command sends, and what it leaves in the session
--     file, on the disk and at the tracker; Client/Commands/Shared joins it to Tracker.
--   * Base holds the shared helpers: Boolean tests, lists, and Base/Map, a Go map as an association
--     list in one of the orders in which a range loop may meet its entries.
-- Below each part stand the modules with what is shown of it, named for what they show, and its
-- Tests, in which each theorem is applied at concrete data.
--
-- Conventions. Each critical section is one step. Where goroutines run side by side over a list of
-- nodes, one order is an argument (the order of the list). The store behind `Storage` (Badger), the
-- answers of other machines, the routing of URLs, the decoding of JSON, the formatting of times and the
-- random shuffle are parameters; what is used of them is stated as a field or a hypothesis. Times, heartbeats, counters and clocks are
-- natural numbers: the program only counts up from zero, and their overflow is not modelled. A loop
-- over retries recurs on the number of attempts, three or five as in the source,
-- the loop that places a node on the ring on its 256 rounds, the loops over the chunks of a file on
-- their number, and the building of a hash tree on the number of leaves, which is shown to be enough;
-- no other loop needs fuel, since each runs over a list.
--
-- Not modelled: the network, the file system, logging, timers and the start of the programs; what the
-- client prints, the entries of dht/p2p_client.go and tracker/dht_adapter.go, which rest on what a
-- read after a write gives in a cluster, the turning of a hash tree into JSON, the moment at which a
-- read starts a repair, the port numbers that dht/server.go makes of the names of nodes (a parameter,
-- `port_of`), and the shell in POSIX_Shell_complete/, which the rest does not use.
pub mod Base
pub mod Client
pub mod Common
pub mod Dht
pub mod Tracker
