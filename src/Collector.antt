-- ===== src/Collector.antt =====
-- internal/collector: the local collector's ingest cursor and its incremental file scanner.
pub mod Watermark
pub mod Persist
pub mod Jsonl
