-- ===== src/Tests.antt =====
-- Runs of the models, and the theorems at concrete inputs.
mod Tl
mod Frames
mod Correlators
mod Handshakes
mod Work
mod Streaming
mod Stores
mod Gateway
mod Transports
mod Settings
mod Clients
mod Requests
