-- ===== src/Ingestion.antt =====
-- packages/event-ingestion-worker/src: the worker that takes events off the broker's queue and
-- keeps each of them once, in its inbox.
pub mod Inbox
pub mod Store
pub mod Memory
pub mod Ingest
pub mod Runtime
pub mod DedupKey
pub mod Ending
pub mod Guarantees
pub mod Interleaving
pub mod Returning
