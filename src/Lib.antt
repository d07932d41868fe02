-- ===== src/Lib.antt =====
-- A model of the distributed vector search engine: shards that keep vectors with payloads, a client
-- that routes writes to them and merges their answers, filters and namespaces over the payloads, and a
-- write-ahead log with snapshots that makes the writes of a shard durable.
--
-- Parts, and where each is modelled:
--   vsearch/storage.py. Storage/Record.antt has the record that `WriteAheadLog.append` writes and the
--     parser of `_read_records` and `_parse_payloads`; Storage/Log.antt a whole log file;
--     Storage/Durable.antt `DurableShard`: the constructor (`open_shard`), `add_batch`, `checkpoint`,
--     `records_after`, `snapshot_bytes` and `install_snapshot`. Its state is the record `DurableShard`,
--     whose `disk` is the snapshot file and the log file. The shard inside it is an interface:
--     `ShardOps` has the operations, `ShardLaws` what is relied on (a loaded snapshot is the saved shard
--     up to `restore`, and writes do not depend on what `restore` forgets, that is the spare capacity of
--     the vector array and the lazily built payload index). Storage/HnswShard.antt fills it with the shard of
--     vsearch/cluster.py, its HNSW index and the snapshots of Storage/Snapshot.antt; what stands for numpy's file
--     format and for the arithmetic on vectors is the record `Machinery`.
--   vsearch/filtering.py. Filtering/Key.antt has `_key` and `normalize_filter`, Filtering/Wire.antt
--     `encode_filter` and `decode_filter`, Filtering/Index.antt
--     `PayloadIndex`; Filtering/Index/Contents.antt and Filtering/Matching.antt are about what it holds
--     and what `matching` returns.
--   vsearch/cluster.py. Cluster/Routing.antt has `route_round_robin` and `route_to_shard`,
--     Cluster/Merge.antt `merge_top_k_scored` and `merge_top_k`, Cluster/Namespace.antt the payload
--     encoding, `tag_namespace`, `shard_for_namespace` and `plan_query`. Cluster/Shard.antt has `Shard`
--     and `filter_strategy`, Cluster/Local.antt `Coordinator` in its sequential mode. The index inside a
--     shard is an interface: `IndexOps` has its operations, `IndexLaws` what is relied on (only nodes that
--     are allowed, or that are given, are returned). Hnsw/Search/Allowed.antt fills it with the HNSW index.
--   vsearch/hnsw.py. Hnsw.antt has the state of the index and what it uses of numpy and heapq: a type `V`
--     of vectors, an ordered type `D` of distances, `Space` with the functions on them, `Heapq` with the
--     layout of a heap's list. Hnsw/Layer.antt has the walks in one layer, Hnsw/Select.antt
--     `_select_neighbors`, Hnsw/Insert.antt `insert` and `build`, Hnsw/Search.antt the searches.
--   vsearch/client.py. Client.antt has the state of `GrpcCoordinator`, the calls of the servers as the
--     record `Calls` and `_check_shards`; Client/Replicas.antt `_replica_order`; Client/Search.antt
--     `_scatter_gather` and the searches; Client/Write.antt `add`; Client/Repair.antt `repair`. A
--     call takes the state of the servers and the clock to its outcome, which is fixed when it is sent.
--     Storage/Snapshot.antt has `save_snapshot` and `load_snapshot` for a shard with an HNSW index.
--   vsearch/chunking.py. Chunking.antt has `_hard_split` and `_pack`, Chunking/Document.antt the rest, up to
--     `chunk_document`. What a regular expression finds in a line is the parameter `Rules`.
--   vsearch/health.py. Health.antt has `find_problems`, each problem as a value; Health/Describe.antt its
--     sentence, and `describe_health`.
--   vsearch/state.py and processes.py. State.antt has the content of cluster.json as a record, State/Env.antt
--     `load_env_file`, State/Machines.antt what acts on the network and on processes (`Machines`), with
--     `cluster_health` of vsearch/health.py. State/Stopping.antt has `stop`.
--   vsearch/ops.py. Ops.antt has the journal and the variables of `Operations`, Ops/Looking.antt,
--     Ops/Changing.antt and Ops/Tools.antt its operations, Ops/Runbook.antt `run_runbook`. The tools are
--     those that vsearch/agent.py and vsearch/mcp.py run (Agent.antt, Mcp.antt).
--   vsearch/documents.py and ingest.py. Documents.antt, Documents/Files.antt for the search of files, and
--     Documents/Ingest.antt for `ingest_files`, and Documents/Passages.antt for `find_passages`.
--   vsearch/memory.py. Memory.antt has the records and filters, Memory/Operations.antt `MemoryStore`,
--     Memory/Recall.antt `recall`, Memory/Writing.antt `remember` and `forget`.
--   vsearch/server.py. Server.antt has the handlers of `ShardServicer`, Server/Sync.antt `catch_up` and
--     `SyncFrom`. A handler is one step on the shard, since it holds the shard's lock.
--     Server/Sync/Steady.antt has a peer that is a durable shard behind `FetchLog` and `FetchSnapshot`.
--   vsearch/mcp.py. Mcp.antt has `check_arguments` and `run_tool`, Mcp/Values.antt the types and the order of
--     JSON values that they test, Mcp/Server.antt `McpServer`,
--     Mcp/Valid.antt what a schema asks of an argument.
--   vsearch/agent.py. Agent.antt has `run_agent` and `ScriptedModel`.
--   Python/ has what the code uses of the language and its library: text as a list of code points
--     (Text), UTF-8 with surrogates refused (Utf8), struct and little-endian arrays (Struct), CRC-32 by
--     its bit register (Crc32), the JSON values (Json), and sorting (Sorting). Prelude/ has lists, the
--     Boolean tests on numbers, the errors that the code raises, and ordered types.
--
-- Operations that read and change the outside world are actions (Actions.antt): functions from a world of any
-- type to the world after them and a result. What such an operation calls is a record of actions, so a
-- theorem about it holds for every behaviour of what it calls that its hypotheses allow.
--
-- Choices. An exception is a value of `Error`; an operation that may leave its object changed when it
-- raises returns the new state beside the result. A float32 value is its 32-bit pattern, and a batch is
-- given to the log and to the shard as the same float32 array, which is how the server calls it. An id is its
-- 64-bit pattern. `json.loads` and `json.dumps` are the arguments `loads` and `dumps`; a JSON float is a
-- decimal, since no arithmetic is done on payloads. A dict is its list of items. A path is its text, and
-- paths are ordered as texts, where Python orders them by their parts. The vectors of a logged record have
-- a component at least. A crash leaves
-- a prefix of the bytes that were being appended; a snapshot file is replaced in one step.
--
-- Fuel. `_hard_split` runs on fuel, the length of the text: each round cuts off at least one character.
-- The loop of `_read_records` runs on fuel, the size of the file in bytes. An encoded record has at
-- least 24 bytes, so the fuel is never used up on a log that was written by `append`.
-- A greedy walk runs on fuel, one more than the rows: every hop is strictly closer. A beam search runs on
-- fuel, the links of the layer times the rows, and one: a round takes a candidate from the heap, and what
-- goes into the heap is a link of a layer to a row that had not been met.
-- The fan-out of a search runs on fuel, the most replicas that a shard has: each round drops one of every
-- shard that is left. The chunks of a write run on fuel, the length of the longest batch.
--
-- The wait of `stop` runs on fuel, one more than the sleeps of 50 milliseconds in its ten seconds.
-- Digits and batches run on fuel, the number plus one and the number of texts.
--
-- Not modelled: the format of a snapshot file, the local cluster's threads and processes, the services
-- that run language models, and the command line and the tools of the MCP server (vsearch/cli.py,
-- mcp_server.py), which print what the parts above return. Generated protocol code, benchmarks,
-- evaluations, readers of datasets and embedding models hold none of the program's own logic.
pub mod Prelude
pub mod Storage
pub mod Filtering
pub mod Python
pub mod Cluster
pub mod Chunking
pub mod Health
pub mod Hnsw
pub mod Client
pub mod Mcp
pub mod Agent
pub mod Server
pub mod Documents
pub mod Memory
pub mod Ops
pub mod State
pub mod Actions
