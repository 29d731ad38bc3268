-- ===== src/UnixSocket/Link.antt =====
-- The two ends of a socket together, embedded-can/embedded-can-unix-socket/src/server.rs and
-- embedded-can/embedded-can-unix-socket/src/client.rs.
pub mod Downlink
pub mod Uplink
