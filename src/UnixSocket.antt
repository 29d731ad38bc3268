-- ===== src/UnixSocket.antt =====
-- embedded-can/embedded-can-unix-socket: a CAN bus over a Unix socket.
pub mod Frame
pub mod Wire
pub mod Server
pub mod Client
pub mod Link
mod Tests
