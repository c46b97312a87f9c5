-- ===== src/Jptrace/Aggregator.antt =====
-- internal/jptrace/aggregator.go: parts of traces that a storage yields are merged into whole
-- traces, each cut to `max_size` spans (no limit where that is 0 or less).
-- `Copy` has the copying and merging of containers, `Stream` the loop over the input sequence.
pub mod Copy
pub mod Stream
pub mod CopyLaws
pub mod Groups
pub mod Merge
pub mod Tracks
pub mod Steps
pub mod Result
pub mod Protocol
