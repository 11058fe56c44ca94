-- ===== src/Build/Docs.antt =====
-- The documentation that `build.rs` attaches to generated messages and to their fields: each entry
-- is the path of a message or of a field in the `.proto` file, with its text.
use Prim.Native.String.{String, ◌++◌}
use rociadb_core_sdk_rust.Prelude.{List, [], ◌∷◌}

abbrev pub docs : List (String × String)
docs =
    (
      ".rocia.v1.CollectionInfo",
      "One document collection, as reported by "
          ++ "[`RociaDbClient::list_collections`](crate::RociaDbClient::list_collections).",
    )
    ∷ (
      ".rocia.v1.Neighbor",
      "One graph neighbor: the node reached and the edge that reaches it. Returned by "
          ++ ("[`RociaDbClient::neighbors_out`](crate::RociaDbClient::neighbors_out) and "
              ++ "[`RociaDbClient::neighbors_in`](crate::RociaDbClient::neighbors_in)."),
    )
    ∷ (
      ".rocia.v1.UploadRequest",
      "One message of a file-upload stream. The first message of a stream carries the "
          ++ ("file metadata (`size_bytes`, `content_type`, `checksum`) and may carry a first "
              ++ ("`chunk`; every later message carries only a `chunk`. Build these by hand only "
                  ++ ("for "
                      ++ ("[`RociaDbClient::upload_file_stream`](crate::RociaDbClient::upload_file_stream), "
                          ++ ("whose documentation states the wire contract in full — the other upload "
                              ++ "methods build the stream for you."))))),
    )
    ∷ (
      ".rocia.v1.DownloadResponse",
      "One message of a file-download stream, as yielded by "
          ++ ("[`RociaDbClient::download_file_stream`](crate::RociaDbClient::download_file_stream). "
              ++ "Concatenating every `chunk` in the order received reproduces the file."),
    )
    ∷ []

abbrev pub field_docs : List (String × String)
field_docs =
    (".rocia.v1.CollectionInfo.collection", "Name of the collection.")
    ∷ (
      ".rocia.v1.CollectionInfo.count",
      "Number of documents the collection holds. Read from a counter the server "
          ++ ("maintains on every write, so it costs nothing to report; it describes the same "
              ++ ("instant as the page it arrives with, and nothing is promised from one call to "
                  ++ "the next.")),
    )
    ∷ (
      ".rocia.v1.Neighbor.node_id",
      "Id of the neighboring node: the edge's `to` for an outgoing read, its `from` "
          ++ "for an incoming one.",
    )
    ∷ (
      ".rocia.v1.Neighbor.edge_id",
      "Id of the edge connecting the queried node to `node_id`. Pass it to "
          ++ ("[`RociaDbClient::get_edge`](crate::RociaDbClient::get_edge) to read the edge's "
              ++ "own properties."),
    )
    ∷ (
      ".rocia.v1.UploadRequest.tenant_id",
      "Tenant the file belongs to. Read from the first message of the stream.",
    )
    ∷ (
      ".rocia.v1.UploadRequest.bucket",
      "Bucket the file is stored in. Read from the first message of the stream.",
    )
    ∷ (
      ".rocia.v1.UploadRequest.file_id",
      "Id of the file to write. Read from the first message of the stream. Replacing "
          ++ ("an existing `file_id` is atomic: the upload writes its own generation and the "
              ++ ("published version is swapped in one step, so a download either serves the old "
                  ++ ("version whole or the new one whole, and an interrupted upload never leaves a "
                      ++ "mixed one behind."))),
    )
    ∷ (
      ".rocia.v1.UploadRequest.size_bytes",
      "Exact total byte count of the file, on the first message of the stream. The "
          ++ ("server fails the upload with `INVALID_ARGUMENT` if the chunks do not add up to "
              ++ "it."),
    )
    ∷ (
      ".rocia.v1.UploadRequest.content_type",
      "MIME type to record for the file, on the first message of the stream. Ignored "
          ++ "on later messages.",
    )
    ∷ (
      ".rocia.v1.UploadRequest.checksum",
      "SHA-256 digest of the complete file, as exactly 32 raw bytes, on the first "
          ++ ("message of the stream. The server rejects any other length with "
              ++ ("`INVALID_ARGUMENT` but never checks the digest against the bytes received. "
                  ++ "Ignored on later messages.")),
    )
    ∷ (
      ".rocia.v1.UploadRequest.chunk",
      "Next slice of file bytes. At most 1 MiB (1_048_576 bytes) per message; a "
          ++ ("larger chunk is rejected with `INVALID_ARGUMENT`. Any smaller size is "
              ++ "accepted, and the slicing need not be uniform."),
    )
    ∷ (
      ".rocia.v1.UploadRequest.request_id",
      "Optional idempotency key, on the first message of the stream. A sequential "
          ++ ("replay reusing the same key, operation and target is absorbed and answered Ok. "
              ++ ("The key's scope includes the target, so reusing one across two files performs "
                  ++ ("both uploads. Markers expire after the server's `gc.request_ttl_secs` (24 "
                      ++ "hours by default)."))),
    )
    ∷ (
      ".rocia.v1.DownloadResponse.chunk",
      "Next slice of file bytes. The server chooses the slicing and makes no promise "
          ++ "about chunk size; read until the stream ends.",
    )
    ∷ []
