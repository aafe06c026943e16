-- ===== src/Runner.antt =====
-- cmd/gocoon-runner: the HTTP gateway in front of a client.
pub mod Config
pub mod Text
pub mod Json
pub mod Strip
pub mod Prompt
pub mod Tools
pub mod ToolCalls
pub mod Extract
