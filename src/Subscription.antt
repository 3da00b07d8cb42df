-- ===== src/Subscription.antt =====
-- packages/webhook-api/src/domain/subscription: the errors, the value objects and the aggregate.
pub mod Errors
pub mod ValueObjects
pub mod PrivateHost
pub mod TargetUrl
pub mod Events
pub mod Aggregate
