-- ===== src/Protocol.antt =====
-- internal/protocol: message identifiers, error codes, business errors, frames and routes.
pub mod Ids
pub mod Errors
pub mod Codec
pub mod Routes
