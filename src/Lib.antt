-- ===== src/Lib.antt =====
-- MonoFS, a distributed filesystem that presents Git repositories and packages as one tree: models of
-- its core logic, with their proofs.
--
-- The program. Clients (a FUSE mount, or the kernel module monofs-kmod) resolve a path, hash it to a
-- shard key and ask the storage node that owns the key. The kernel client talks to the gateway in
-- internal/router/native_gateway.go in the binary protocol of internal/nativeproto. The router and the
-- user-space client place keys on nodes with internal/sharding, which tracks the nodes' health as the
-- router reports it; internal/monopath says what a display path is and derives storage ids and shard
-- keys from it, with internal/sharding/key.go. What a caller may see is decided by pkg/authz and by the
-- compiled policy of pkg/authz/policy. The commits, pushes and refreshes of a workspace are kept in the
-- ledger of internal/router/workspaceledger, which logs them in the store of
-- internal/storage/workspacestore and is rebuilt from it when a server starts; that store keeps jobs,
-- bundles and audit events too, and compacts its log into snapshots.
--
-- The parts, and the files that model them.
--
-- * The wire protocol, internal/nativeproto/protocol.go. NativeProto/Encoder and NativeProto/Decoder
--   model the types encoder and decoder, NativeProto/Frame ReadFrame and WriteFrame, and
--   NativeProto/{Attr, Session, Namespace, Files, Replies} the messages: EncodeX is encode_x and
--   DecodeX is decode_x. A byte slice is a list of numbers, a decoder is the rest of the frame behind
--   its offset, and a reader is the list of bytes still to come. The decoder of a listing returns the
--   capacity that it allocates for entries with its result (read_dir). io.Reader and io.Writer are used as
--   documented: io.ReadFull is read_full, and a writer is a state with a parameter `write`.
--   Proofs: NativeProto/Reads has a rule for each way to build an encoder and its decoder; RoundTrip,
--   Consumes and Frame/RoundTrip apply them.
-- * Rendezvous hashing, internal/sharding/hrw.go. Sharding models every method of HRW as a function on
--   the list of nodes, as each holds the lock throughout; Sharding/Fnv is the FNV-1a hash of hash/fnv
--   as it is published, on the bytes of key and id; Sharding/TopN models GetNodes, whose sort.Slice is a parameter (SliceSort) with
--   the two facts that Go documents, since it leaves the order of equal scores open.
--   Sharding/InsertionSort is a sort that has these facts. Maps from ids to nodes are functions into
--   Option. Scores wrap around modulo 2 ^ 64 as uint64 does.
-- * Paths and keys, internal/monopath/path.go and internal/sharding/key.go. Monopath models all
--   functions of both but SHA-256, which is a parameter with the size of its digests (Sha256).
-- * Access decisions. Authz models pkg/authz/authz.go: Identity and the role table. Grants models what
--   one Grant of pkg/authz/policy/policy.go says, Policy the decisions over all grants of a bundle
--   (IsAdmin, can, Role, VisiblePartitions), and AwsBindings the index of AWS bindings that New builds
--   and PartitionForAWS reads. Unicode case folding, which strings.EqualFold needs, is a parameter. Go's
--   maps are functions into Option, and a map used as a sorted set is the sorted list.
-- * The grant store, pkg/authz/grants.go. GrantStore models GrantStore with Validate, Add, Replace and
--   Can. Whether os.WriteFile and os.Rename succeed is a parameter of each change (Outcome), and the
--   disk is the file and its temporary copy. GrantStore/Validity and GrantStore/Persistence have the
--   proofs.
-- * Merge requests, internal/router/mergerequest/store.go. MergeRequest models the store of proposals
--   and its methods; MergeRequest/Reviews has what one step keeps, MergeRequest/Calls all sequences of
--   calls. The ownership checker is a parameter, and the clock's time an argument.
-- * The workspace ledger, internal/router/workspaceledger/ledger.go. LedgerQuery models Query with its
--   filters and limits; Ledger models the insertions, which write to the log first and to the tables
--   then, and ReplayFromWAL, as ReplayLedgerEntries of internal/storage/workspacestore/store.go calls
--   it. The JSON of a message and the log are parameters. The messages are those of
--   api/proto/monofs.proto.
-- * The workspace store, internal/storage/workspacestore. WorkspaceLog models the segments of wal.go,
--   WorkspaceStore the types and the methods of store.go, and WorkspaceRecovery its compact, recover,
--   loadSnapshot and New. A segment is the list of its lines, and a line an abstract value that JSON
--   decodes; how a system call ends is a parameter of each call. WorkspaceLog/{Reading, Keeping} say
--   what a reader finds in the log; WorkspaceRecovery/Forget says what JSON keeps, Loading what a
--   snapshot gives back, Invariant what memory and disk have in common, which Changes and Compacting
--   keep, Restart what a start finds, and Lives puts starts, changes and compactions together.
-- * Owners, pkg/authz/owners.go and pkg/authz/codeowners.go. Owners models the references and ParseOwners,
--   Codeowners the parser of CODEOWNERS, the path matcher and OwnersFor. Codeowners/Globs compares the
--   matcher of a segment with a glob by recursion; Codeowners/Rules says which rule counts.
-- * The three-way merge of a refreshed file, internal/fuse/merge3.go. Merge3 models all its functions;
--   GetMatchingBlocks of the package go-difflib is a parameter, and a slice out of bounds is `none`.
--   Merge3/{Symmetry, SameChange, Markers, Sync, Fuel} have the proofs, Merge3/{Shared, Bounds} what
--   holds of regions, Merge3/{Lines, Cuts} the lemmas on lines and slices.
-- * The leader lease, pkg/repowatch/lease.go. Lease models acquisition, renewal and expiry. A request to
--   the Kubernetes API is a field of the parameter LeaseApi; the server's state may change between the
--   read and the write of an elector. Lease/Exclusion states what the server documents on versions (Optimistic)
--   and when an elector may take the lease. Lease/Winner has the writes that may happen between the read
--   and the write of an elector (LeaseWrites), that the server uses no version twice (Versions), and what
--   follows where acquisitions overlap; nothing in lease.go deletes a lease.
--
-- Prelude holds what the parts share: Boolean tests and lists over native numbers, Go's strings as
-- lists of code points (of bytes, where Sharding hashes them), signed integers, and Go's (value, error) pairs as Result. Examples applies the
-- theorems to concrete inputs, and runs the models.
--
-- Bounds and fuel. Every loop of the source runs over a list or counts down, and is structural
-- recursion, but for two that count down on fuel: the decimal digits of an id, with one more than the
-- number, which has no more digits than that, and the loop over two lists of matching blocks, with as
-- much fuel as there are blocks, since each step drops one. Machine integers keep their width: an
-- encoder writes n bytes of a number modulo 256 ^ n, the hash, the score and the sequence numbers are
-- computed modulo 2 ^ 64, a count of matches is converted to int32 by wrapping around, and so is a
-- lease's duration to int64.
--
-- Not modelled. Of the policy: CanReadPath and Explain, whose path patterns belong to
-- pkg/authz/policy/match.go, and a nil policy, which allows nothing. Of the ledger: insertions that
-- interleave between the log and the lock. Of the workspace store: the directory's own errors, fsync,
-- and the interleaving of a compaction with a change. Of the lease: the HTTP requests, and the
-- goroutines and timers of Run. Further: the generated code of api/proto; the programs under cmd and the user interfaces, which wire the parts together; the rest of internal/fuse, internal/fetcher,
-- internal/server and internal/worker, which call the operating system, Git and the network; and the
-- stores that stand on external databases. Logging, metrics and timers are left out of the modelled
-- functions, and so are a request's context and its cancellation.
pub mod Prelude
pub mod NativeProto
pub mod Sharding
pub mod Monopath
pub mod Authz
pub mod Grants
pub mod GrantStore
pub mod AwsBindings
pub mod Policy
pub mod LedgerQuery
pub mod Ledger
pub mod WorkspaceLog
pub mod WorkspaceStore
pub mod WorkspaceRecovery
pub mod MergeRequest
pub mod Merge3
pub mod Lease
pub mod Owners
pub mod Codeowners
pub mod Examples
