-- ===== src/Lib.antt =====
-- Prosiak, a distributed backup: a server that cuts backups into chunks and keeps their metadata,
-- nodes that store the chunks, a scheduler in the server that keeps the number of copies right,
-- and a client that makes archives of directories, sends them, and restores them.
--
-- Base has the helpers: numbers, texts as lists of code points, and tables as lists of rows.
-- Protocol has the messages of internal/protocol/types.go, under the names of their fields.
-- Chunker models readContentDefinedChunk of internal/server/handlers.go with its rolling hash:
--   words are natural numbers below 2 ^ 64, and the product that sets the greatest size wraps as an
--   int64. Chunker.Cut is about one chunk, Chunker.Split about a whole stream, and Chunker.Power
--   about nextPowerOfTwo. `split` runs on fuel; each round takes a byte at least, so the number of
--   bytes and one more is enough.
-- Network models the requests of internal/server/handlers.go to the nodes (putChunk, deleteChunk,
--   clearNodeStorage, fetchFromAny). The nodes and the HTTP client are its parameter.
-- State models internal/server/state.go. The database is a record of four tables; a method is a
--   function on it, and its SQL is read as what it says about the rows. State.Nodes has the nodes
--   and PlanChunkSpread, State.Locations the table chunk_locations, State.Files the backups with
--   ApplyRetention, State.Tasks the queries of the scheduler. State.Consistent is the invariant of
--   the tables, State.Nodes.Plan is about the choice of nodes, State.Files.Unused about deletions
--   and State.Files.Retention about versions, and State.Locations.Confirmed about what ConfirmChunk
--   leaves. The clock and the generated ids are arguments; times are nanoseconds, and seconds in the
--   tables, the resolution of their text form.
-- Handlers models the handlers of internal/server/handlers.go over State and Network: Nodes,
--   Files, Query (the parameters of a request), Backup (backupFile), Download (downloadFile) and
--   Delete. Handlers.Backup.Entered, over Handlers.Backup.Kept, is about what an upload enters in
--   its manifest, Handlers.Backup.Unsaved about what it leaves as it is, Handlers.Backup.Unstored
--   about uploads without copies, and Handlers.Download.Exact about what a download delivers. A
--   response is its status and its body's data. The loop of backupFile has a fuel of the length of
--   the stream and one more. Handlers.Backup.Confirms and Handlers.Calls are about the calls of
--   State that a handler makes.
-- Handlers.Mux and Handlers.Serve model Routes: the patterns with the choice that ServeMux of
--   net/http makes among them, and a request on its way through the token and the patterns to its
--   handler. Handlers.Serve.Guarded is about requests without the token, Handlers.Serve.Reached,
--   over Handlers.Reached, about the calls of State that a request makes. System has the running
--   server, requests and passes of the scheduler; System.Invariant is about its tables, and
--   System.RoundTrip about a backup from its upload to its download, over System.Entries,
--   Handlers.Backup.Saved and State.Files.Stored, which are about the rows of a manifest that was
--   saved, and Handlers.Download.Whole, about downloads that end well. System.Clients has the client
--   at the server: System.Clients.Routed is about the way of its requests, System.Clients.Uploaded
--   and System.Clients.Restored about a file from backup to restore, and System.Clients.Misled, over
--   Handlers.Download.Filled, about a restore of a download with a corrupt chunk.
-- Replicator models internal/server/replicator.go: one pass of the scheduler. Replicator.Race,
--   over Replicator.Orphans, is about a pass during an upload, Replicator.Copies about the copies
--   that a pass makes and Replicator.Pruned and Replicator.Spared about those that it leaves.
-- Store models internal/chunkstore/store.go, Store.Usage, over Store.Scanned, is about its
--   counter, Store.Integrity about what is read back, and Store.Refines, over Store.Contents, about
--   a store as a map of contents. The files under the root are a list, and each operation takes the
--   faults of the disk that it meets. AES-GCM is a parameter that opens what it sealed.
-- NodeServer models the handlers of cmd/backup-node/main.go over Store, and NodeServer.Capacity is
--   about its reserved space.
-- Auth models internal/auth/auth.go and publicPath of internal/server/handlers.go; Auth.Token is
--   about who is served.
-- Client models cmd/backupctl/main.go. Client.Jobs has the jobs of a configuration (selectJob,
--   applyDefaults, validate), Client.Upload the query of uploadToServer, Client.Glob the exclude
--   patterns (newExcludeMatcher, match, globToRegexp), Client.Paths safeExtractPath with the part of
--   package path/filepath that it uses, Client.Archive the archive of a job (writeTarJob, tarRoots,
--   addRootToTar) over a tree of files, and Client.Restore extractTar over a file system that is a
--   parameter; Client.Commands has restore and restoreConfiguredJob over a reply of the server,
--   Client.Backups the switch of main, backup, backupConfiguredJob, uploadToServer and listBackups,
--   and Client.Commands.Restored is about the output file. Client.Archive.Safe and
--   Client.Archive.Collide are about the names in an archive, Client.Restore.Contained about the paths
--   that a restore names. Client.Jobs.Valid is about the selected job, Client.Upload.Accepted, over
--   Client.Upload.Numbers, about what the server reads of a query, Client.Glob.Compiled and
--   Client.Glob.Excluded about what a pattern matches, Client.Paths.Inside and Client.Paths.Root
--   about the names that are let through. The loop of globToRegexp has the number of characters as
--   fuel, and takes a character at least in each round; regexp.Compile is modelled for what it
--   writes.
-- Startup models main of cmd/backup-server/main.go (Startup.ServerMain) and of
--   cmd/backup-node/main.go (Startup.NodeMain) from the parsed flags and configuration on,
--   parseCapacity (Startup.Capacity) and internal/tlsconfig/tlsconfig.go (Startup.Tls).
--   Startup.Serving and Startup.NodeServing are about what a started program serves with,
--   Startup.Capacity.Units about the units of a capacity. Floats and certificate pools are
--   parameters.
-- Witness has the theorems with conditions at concrete input.
--
-- Not modelled: internal/httpjson and internal/version, which are calls of encoding/json and a
-- constant; the parsing of flags and of JSON; the display of progress in cmd/backupctl; the
-- heartbeat of a node and the timer of the scheduler; the failures of the database itself; web and
-- configs.
-- SHA-256 is a parameter throughout.
pub mod Base
pub mod Protocol
pub mod Chunker
pub mod Network
pub mod State
pub mod Handlers
pub mod Replicator
pub mod Store
pub mod NodeServer
pub mod Auth
pub mod Client
pub mod Startup
pub mod System
pub mod Witness
