-- ===== src/Lib.antt =====
-- gogol: semantic search and knowledge store. This library models the parts of the program whose
-- logic is pure or a state machine, and proves what makes them correct. Paths below are those of the
-- repository. Bytes of a std::string are numbers below 256 (Text.Bytes); a numeral type of C++ is a
-- native number with its wrap-around written out where the source can wrap.
--
-- Prelude: names shared by all modules. Text: std::string operations, and the loop over the lines of a
-- text that several parsers share (Text.Lines), by positions and with the length of the text as fuel.
--
-- Loc: src/core/loc.{h,cpp}. parse_entry_type, entry_type_str, split_path_line, format_loc. `atoi` is
-- glibc's: it saturates as strtol does and is cut to 32 bits.
--
-- Rpc: src/daemon/rpc_v2.{h,cpp}, the protocol between the command line client and the daemon.
-- Rpc.Buffer has MsgWriter and MsgReader. Rpc.Socket is read(2) and write(2) as an interface with the
-- documented behaviour; Rpc.Frame has raw_read, raw_write, frame_read, frame_write over it, the loops with
-- the number of bytes as fuel, since each round moves one byte at least. Rpc.Crypto has the encrypted
-- frames over an abstract authenticated cipher (the vendored monocypher is a parameter), Rpc.Handshake
-- both sides of the handshake, whose random nonces are arguments. Rpc.Pipe is a concrete connection.
--
-- Protocol: src/daemon/rpc.h, the commands that run over Rpc: the messages that RpcClient of
-- src/daemon/embed_client.cpp writes and reads (Protocol.Client), and those that the handlers of
-- src/daemon/embed_server.cpp read and write (Protocol.Server). Protocol.Serving relates both to the fields
-- on the wire. A variable that a failed read leaves uninitialised has a value that is an argument, `junk`.
--
-- Daemon: the daemon's concurrency. Daemon.WriteQueue is src/daemon/write_queue.h as a step relation: a
-- step is one region under the mutex or the run of one job, and the steps of all threads interleave.
-- The constructor starts the worker before it sets stop_: a worker that finds the flag set before that is a
-- start of its own (start_raced), here and in Embedding.Dispatcher. The worker is also a function on fuel,
-- with two steps for each queued job and two more proved enough.
-- Daemon.Snapshots has the index snapshots of DaemonState in src/daemon/embed_server.cpp, which the jobs of
-- that queue copy, change and publish while readers take them; an index is abstract there.
-- Daemon.Handlers has the registry of connection threads of the same file, HandlerRegistry.
--
-- Dict: std::map with string keys. Storage.DocRefs: src/storage/docref_store.{h,cpp}, the links between
-- documents; the loop of normalize_path has fuel for one round more than the path has bytes.
-- Storage.Calls: src/storage/call_store.{h,cpp}, the call edges of an index, and the queries over several
-- indexes in src/core/call_graph_query.{h,cpp}. Storage.Imports: src/storage/import_store.{h,cpp}.
--
-- Storage.Types: src/storage/type_store.{h,cpp}, src/storage/metrics_store.{h,cpp} and
-- src/storage/export_store.{h,cpp}. Storage.Index and Storage.Half: src/storage/index_file.{h,cpp}.
--
-- Storage.Sqlite: src/storage/sqlite_backend.cpp, the tables of an index. SQLite is an interface, Database,
-- whose laws say what INSERT, INSERT OR REPLACE, DELETE and SELECT do to the rows of a table; a SELECT
-- without ORDER BY promises no order, so what is loaded is compared up to order. Storage.Sqlite.Memory is
-- such a database. A statement that fails throws, and its transaction is rolled back by SQLite, so that
-- only the runs without a failure are modelled. The keyword table entries_fts, which save_index rebuilds, is not. The loop of split_sep has as much fuel as the text has bytes,
-- and one round more.
--
-- Chunking: src/chunking/chunker.cpp and the RegexChunker of src/chunking/chunker_iface.cpp, whose
-- std::regex_search is a parameter. Chunking.Window runs with the length of the text as fuel, and gives none out
-- of fuel; that is enough when the overlap is less than the window, as in every call.
--
-- Adapters: src/adapters/ and split_csv of src/config/utils.h. The file system is an interface, FileSystem;
-- the walk over a directory (scan_md_files) is its `scan`, and the choice of a chunker an argument. The
-- directories, headings and glossary terms around the text that is embedded are in Adapters.EmbedText.
--
-- Daemon.Watcher: src/daemon/file_watcher.cpp. A notice of the operating system is a change of a directory
-- and a file name at a time; the loops that wait for such notices are not modelled. A round of debounce_loop
-- gives the indexes that it calls the callback with.
--
-- Operations: src/core/operations.cpp, over the adapters, the tables of each index (World.dbs) and the
-- file system (World.fs). The two readings of the clock, the embedder and the chunkers are arguments. The daemon
-- calls them inside the jobs of Daemon.WriteQueue, on copies of Daemon.Snapshots. A read of the notes
-- that fails throws in SQLite, so that load_mem gives true wherever it returns.
--
-- Embedding.Dispatcher: src/embedding/embed_dispatcher.{h,cpp}, the queue in front of the embedding model,
-- whose calls are an interface; it is related to Daemon.WriteQueue by a refinement.
--
-- Config: src/config/config.{h,cpp}, the five readers of ~/.gogol/config; getenv("HOME") and the content of
-- the file are arguments, an int is a 32-bit number in two's complement.
--
-- Not modelled: the embedding model and its bindings, the inside of SQLite and the tree-sitter grammars
-- (third-party code), the terminal output of the commands, the MCP server's JSON, file system access.
pub mod Adapters
pub mod Chunking
pub mod Config
pub mod Daemon
pub mod Dict
pub mod Embedding
pub mod Loc
pub mod Operations
pub mod Prelude
pub mod Protocol
pub mod Rpc
pub mod Storage
pub mod Text
