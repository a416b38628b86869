-- ===== src/Http.antt =====
-- src/http.c, src/handle_http.c: requests and responses, and the WebSocket frames.
pub mod Response
pub mod Fields
pub mod Header
pub mod Request
pub mod Fitting
pub mod Enough
pub mod Stable
pub mod Chunks
pub mod Kept
pub mod Reads
pub mod Pieces
