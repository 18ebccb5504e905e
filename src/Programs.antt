-- ===== src/Programs.antt =====
-- The programs of example/: what example/server.cpp has around its file server, and
-- example/client.cpp.
pub mod Tracking
pub mod Requested
pub mod Echo
pub mod Main
pub mod Client
pub mod Accepting
pub mod Browsing
