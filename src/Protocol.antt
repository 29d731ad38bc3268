-- ===== src/Protocol.antt =====
-- The protocol crate, thincan/src/lib.rs: the wire format, the message set of a maplet, the mailboxes
-- of received messages, and the interface that joins them with a transport.
pub mod Wire
pub mod Maplet
pub mod Mailbox
pub mod Interface
pub mod Send
mod Tests
