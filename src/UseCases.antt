-- ===== src/UseCases.antt =====
-- packages/webhook-api/src/application: the use cases of the subscription API, over the ports.
pub mod Ports
pub mod World
pub mod Execute
pub mod Guarantees
pub mod Replies
pub mod ReadAfter
pub mod Interleaving
