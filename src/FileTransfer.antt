-- ===== src/FileTransfer.antt =====
-- thincan-file-transfer: the messages of the file-transfer protocol, its receivers and its sender.
pub mod Messages
pub mod Encode
pub mod Receive
pub mod Send
