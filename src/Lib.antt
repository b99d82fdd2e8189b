-- ===== src/Lib.antt =====
-- GoThinkDB: the consensus node, the B-tree over its page cache and its file, transactions,
-- users and cluster membership.
--
-- The program is a distributed document store. A client's query goes through the query layer
-- (internal/reql, internal/protocol) to a table, which keeps its rows in a B-tree (internal/btree) over
-- blocks (internal/storage). A command that changes the cluster's data is put in the log of a
-- consensus node (internal/raft), which replicates it. Operations can be gathered in a transaction
-- (internal/transaction). Nodes join the cluster with a token and leave it after their data was
-- transferred (internal/cluster). Users and what they may do are kept in a store (internal/auth).
--
-- Files, and the code that they model:
--
--   Prelude            shared names. Prelude/Tests has the Boolean tests on numbers, Prelude/Lists the
--                      list operations on native numbers, Prelude/Assoc Go's `map[string]V`, and
--                      Prelude/Result what a Go call does: a value, an error, or a panic.
--   Raft/Types         internal/raft/types.go, and the struct `Raft` of internal/raft/raft.go.
--   Raft/Vote          internal/raft/raft.go: RequestVote, tick, becomeCandidate, startElection,
--                      becomeLeader; internal/raft/consistency.go: GetQuorumSize, CheckQuorum.
--                      Vote/Election counts the replies of one election.
--   Raft/Append        internal/raft/raft.go: AppendEntries. Append/Overlay describes the merge of two
--                      logs without the loop; Append/Accept, Append/Total and Append/Redeliver are about
--                      the handler.
--   Raft/Leader        internal/raft/raft.go: Propose, sendAppendEntriesToPeer; consistency.go:
--                      QuorumWrite. Leader/Round is a request, its answer, and the answer's handling.
--   Raft/Events        a node under any sequence of events, each a locked region of raft.go.
--   Raft/Compaction    internal/raft/compaction.go, and the struct of internal/raft/snapshot.go.
--   BTree/Bytes        bytes.Compare and bytes.Equal, as Go documents them.
--   BTree/Search       internal/btree/node.go: the binary search of findKey and FindChild.
--   BTree/Sorted       what the two searches return on rising keys.
--   BTree/Leaf         internal/btree/node.go: LeafNode and its operations. Leaf/Lookup and Leaf/Laws
--                      read a leaf as a finite map.
--   BTree/Internal     internal/btree/node.go: InternalNode and its operations; the descent of `get` in
--                      internal/btree/btree.go. Internal/Route is the child that a key is sent to.
--   BTree/Codec        internal/btree/node.go: Serialize, DeserializeLeaf, DeserializeInternal;
--                      internal/storage/block.go: NewBlockFromData.
--   BTree/Pages        the calls of the page cache that the tree relies on: an interface, with its laws.
--   BTree/Tree         internal/btree/btree.go. Tree/Leads is the way from a node down to the leaf of a
--                      key; Tree/Writes rewrites one leaf; Tree/Reads, Tree/Deletes and Tree/Puts
--                      are about the calls.
--   BTree/Cached       the page cache, as an instance of BTree/Pages.
--   Storage/Serializer internal/storage/serializer.go: the interface of a store of blocks, with its laws.
--   Storage/PageCache  internal/storage/page_cache.go, over any serializer. PageCache/Coherent says what a
--                      cache shows, the other files are named for the calls that they are about.
--   Storage/File       internal/storage/file_serializer.go: a file of blocks, an instance of
--                      Storage/Serializer.
--   Auth               internal/auth/store.go, user.go and permission.go: users and permissions. Auth/Keys
--                      is about the keys of permissions, Auth/Invariant about any sequence of calls,
--                      the other files about the calls that they are named for.
--   Transaction        internal/transaction/transaction.go: transactions in a heap, since the manager and
--                      its callers share them, and the manager. The operations
--                      are the pointers of the callers, with a heap of their own. Transaction/Pointers
--                      is about one call, Invariant and Settled about any sequence of calls.
--   Cluster/Types      internal/cluster/types.go.
--   Cluster/Token      internal/cluster/token.go. The HMAC and the decimal print are parameters.
--   Cluster/Join       internal/cluster/join.go: the members. It uses the tokens.
--   Cluster/Transfer   internal/cluster/transfer.go. The goroutine of a transfer is ten rounds and an end.
--   Cluster/Removal    internal/cluster/remove.go. It uses the members and the transfers.
--
-- State and time. Each region that the source runs under a lock is one step, a function from the state
-- before to the state after; goroutines are steps that an event starts later. Times are numbers that
-- the caller gives. Terms and log indexes are int64 in the source and numbers here: nothing
-- decreases them below 0, and the model is right as long as 2^63 of them are not reached. An index comes
-- from messages too, so that Raft/Events/Ready names this condition for the next indexes. Counts that the source cuts to 16 bits
-- are cut here (`% 2 ^ 16`), and so are the lengths in the written nodes.
--
-- Fuel. The binary search has one round more than there are keys, which is enough: each round makes
-- the interval shorter. The loop that evicts has one round more than the cache has entries, which is
-- enough in a coherent cache: each round takes one. The calls of the tree have the number of levels
-- that they may go down, and the theorems about them name a number that is enough. All other loops
-- go over a list or count down.
--
-- Storage. A page cache is built over a serializer and a tree over a page cache, each behind an
-- interface whose laws the part below fulfils. An `os.File` is what Go and POSIX document: a write at
-- an offset replaces the bytes there and grows the file, and the bytes of a hole are zeros. A call that fails leaves the
-- store as it was: a write that stops in the middle is not modelled. `Split` of a leaf cuts its two
-- lists at the middle of the keys; the model gives the empty list where the source panics, for a leaf
-- with fewer values than half of its keys, which the operations do not make.
--
-- Not modelled: the network (internal/raft/transport.go, internal/rpc, internal/api,
-- internal/protocol), the write-ahead log (internal/raft/wal.go), errors of the operating system, the
-- query language (internal/reql), rebalancing (internal/cluster/rebalance.go), tokens and the file of
-- the users (internal/auth), and the drivers, the commands and the dashboard.

pub mod Prelude
pub mod Raft
pub mod BTree
pub mod Storage
pub mod Auth
pub mod Transaction
pub mod Cluster
