-- ===== src/Lib.antt =====
-- The RociaDB Rust SDK: a client library that turns a caller's documents, graph writes and files
-- into gRPC calls. This library models its own logic and states what that logic promises.
--
-- Parts, and how they interact. `src/lib.rs` holds the client: the settings, and the path of every
-- call, which may refresh the token and replay the call once. `src/auth.rs` holds the token manager
-- behind it: a cached header, a refresh that callers share, and a background task. `src/retry.rs` is
-- the opt-in retry loop around any call of the client. `src/file.rs` cuts uploads into messages,
-- from memory or from a stream of pieces, and checks downloads while they arrive. `src/graph.rs`
-- batches graph writes and walks the pages of a node's neighbors. `src/document.rs` writes, reads and
-- queries documents, and binds them to graph nodes; `src/tenant.rs` lists the tenants.
-- `src/error.rs` is the error type that all of them answer with. `build.rs` generates the gRPC
-- client that they call.
--
-- Files and sources:
--   Error       `src/error.rs`: the error type, its predicates, the context conversions, `Display`.
--   Duration    the `std::time::Duration` arithmetic that the delays and backoffs use.
--   Retry       `src/retry.rs`: RetryPolicy, delay_ceiling, full_jitter, RociaDbClient::retry.
--   Auth        `src/auth.rs`: TokenManager (new, refresh_now, ensure_fresh, spawn_refresh), the
--               backoff and the interceptor. The record TokenManager is TokenManagerInner; a lock's
--               guarded value is a field. Token: fetch_token and the decoding of its answer. Tasks: the
--               calls of refresh_now and ensure_fresh that run side by side, step by step, and
--               the drop of TokenRefreshGuard.
--   Client      `src/lib.rs`: page_request, the resolve_ functions, attempt, attempt_with_replay,
--               unary, server_streaming, refresh_for_replay. It knows the token manager by the
--               record Manager, which Client/Tests and Client/Session fill with Auth's functions.
--               Builder: RociaDbBuilder, its setters, validate_host_path, build and
--               build_with_channel. Service: an RPC, a JSON codec and the paginated read, which
--               the methods of the other parts are made of. Sends and Contract carry what is known
--               of one RPC over to a method that sends it. Session puts the client, the token
--               manager and the interceptor together. Redaction: the hand-written `Debug`.
--   File        `src/file.rs`. Upload: chunk_upload_requests. Rechunk: RechunkState and
--               rechunk_upload_requests, one pass of its loop being `turn`. Send: upload_file and
--               upload_file_chunked, on top of these two and of Client. Download: VerifiedDownload
--               and download_verified_into. Timestamp: parse_rfc3339, days_from_civil, system_time
--               and unix_nanos. Calls: the listings, stat_file, delete_file and the downloads.
--   Graph       `src/graph.rs`: the request builders, group_preserving_order,
--               next_pagination_cursor and the loop of get_neighbor_nodes. Calls: the methods of
--               one RPC. Neighbors: the methods that load neighbors. Batch: put_nodes and
--               add_edges, their Order and the History that they leave; Schedule: the
--               interleavings of their groups.
--   Document    `src/document.rs`: the request builders, put_document, get_document,
--               delete_document. Reads: the listings, searches and queries. Store: the abstract
--               store, with its marks of request ids, that the three operations implement. Retried: put_document as the
--               operation of the retry loop.
--   Tenant      `src/tenant.rs`: list_tenants.
--   Build       `build.rs`: the two code generations of a build and the documentation tables.
--   Prelude     tests, lists, results, actions on a world and integers that the parts share.
-- A folder beside a file holds the theorems on that part, and its Tests.
--
-- Conventions. Asynchronous code is a function from a world to an answer and a world; what another
-- library does (the gRPC channel, the identity provider, SHA-256, serde_json, the random source, the
-- clock, the caller's reader and writer) is an argument, with what is relied on named as a
-- hypothesis. Bytes are numbers. Machine integers are natural numbers, with saturation and
-- wrap-around written where the code has them. The chunk size of an upload is an argument; the
-- client's is 1 MiB (`default_chunk_size`). Of graph writes that run side by side, each whole
-- call, with its refresh and replay, is one step. Of calls of the token manager that run side by
-- side, a step is one lock taken, one read or write of what they share, or one request; a relaxed
-- atomic counts as one that all tasks see in the same order.
--
-- Fuel. The retry loop has as much as the policy has attempts. The rechunking machine has
-- `weight items + 3`, two passes for a byte of the source and one for an item being the most that
-- can be needed. The walk over neighbor pages takes its fuel as an argument.
--
-- Not modelled: the code that is generated from the protocol files (`src/pb.rs`), of which the models
-- have records of the fields that the code sets and reads; logging; interleavings within one RPC.
mod Prelude
pub mod Duration
pub mod Error
pub mod Retry
pub mod File
pub mod Auth
pub mod Client
pub mod Graph
pub mod Document
pub mod Tenant
pub mod Build
