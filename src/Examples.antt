-- ===== src/Examples.antt =====
-- The theorems at concrete inputs.
pub mod Sessions
mod Turns
pub mod Requests
mod Tools
mod Served
pub mod Load
mod Sockets
mod Memories
mod Wasm
mod Counted
mod Fences
mod Startup
mod Settings
