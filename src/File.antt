-- ===== src/File.antt =====
-- `src/file.rs`: uploads, downloads, file metadata and its timestamps. Bytes are numbers, and
-- `usize` and `u64` lengths are never near their limits where the code adds them: a buffer is at
-- most a chunk long, and every other length is that of a list in memory.
pub mod Upload
pub mod Rechunk
pub mod Download
pub mod Send
pub mod Timestamp
pub mod Calls
