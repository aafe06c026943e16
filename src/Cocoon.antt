-- ===== src/Cocoon.antt =====
-- The client of pkg/cocoon: errors, the query correlator, the handshake.
pub mod Errors
pub mod Correlator
pub mod Handshake
pub mod Inference
pub mod Client
pub mod Models
pub mod Request
pub mod Streams
pub mod Transport
