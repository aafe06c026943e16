-- ===== src/Tl.antt =====
-- The wire format of pkg/tl: primitives, vectors, constructors, tcp packets and frames.
pub mod Reader
pub mod Writer
pub mod Codec
pub mod Vector
pub mod Ids
pub mod Constants
pub mod Types
pub mod Tcp
pub mod Frame
pub mod RoundTrip
