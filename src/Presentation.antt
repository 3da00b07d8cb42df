-- ===== src/Presentation.antt =====
-- packages/webhook-api/src/presentation/common: what stands between a request and the use cases.
pub mod Identity
pub mod Paging
pub mod Responses
pub mod Dto
pub mod Masking
pub mod Requests
pub mod Controller
