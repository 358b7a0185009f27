-- ===== src/Metrics.antt =====
-- internal/metrics: what a scrape of the snapshot emits.
pub mod Descriptors
pub mod Tables
pub mod Collector
pub mod Sound
pub mod Unread
