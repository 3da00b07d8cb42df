-- ===== src/Checks.antt =====
-- The theorems at concrete inputs.
pub mod Samples
pub mod Subscriptions
pub mod Requests
pub mod Deliveries
pub mod Listings
pub mod Masks
pub mod Serving
pub mod Publishing
pub mod Orders
pub mod Launching
pub mod Services
pub mod Workspace
pub mod Linking
pub mod Concurrent
