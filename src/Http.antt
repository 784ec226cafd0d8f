-- ===== src/Http.antt =====
-- http/: requests, responses, status codes and content types.
pub mod Status
pub mod Mime
pub mod Decimal
pub mod Response
pub mod Request
pub mod MutableRequest
mod Tests
