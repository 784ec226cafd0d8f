-- ===== src/Server.antt =====
-- server/: the counters of the status page, the sessions and the set-up from the configuration.
pub mod Status
pub mod Session
pub mod Ports
pub mod WebServer
pub mod EventLoop
pub mod Threads
pub mod Main
pub mod Runs
mod Tests
