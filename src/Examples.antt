-- ===== src/Examples.antt =====
-- Concrete inputs for the theorems: packets, a server, a queue, a socket and a channel.
pub mod Protocol
pub mod Waiting
pub mod Calls
pub mod Exchanges
pub mod Files
pub mod Servers
pub mod Openings
pub mod Operations
pub mod Programs
pub mod Settings
