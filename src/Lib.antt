-- ===== src/Lib.antt =====
-- Verification of the thincan workspace, as far as it is modelled.
--
-- The crate thincan (thincan/src/lib.rs) carries typed messages over ISO-TP. A sender encodes a message
-- behind a header of two bytes; a receiver looks the id up in its maplet, stores the body in the
-- mailbox of its message type and wakes the receivers of that type. The crate thincan-file-transfer
-- sends files by such messages: an offer, an acceptance, chunks and cumulative acknowledgements. The crate
-- embedded-can-unix-socket is a CAN bus for tests: a server that relays the frames of its clients. The crate
-- can-isotp-queue lets several endpoints share one ISO-TP node, which an actor owns.
--
-- Which file models which code:
--   Common            lists, results, bytes and tests that the other files share.
--   Protocol/Wire     HEADER_LEN, decode_wire, EncodeCapnp, TxState::encode_capnp_into_buf.
--   Protocol/Maplet   MapletSpec::slot_for_id; MESSAGE_COUNT, MESSAGE_IDS and the duplicate check that
--                     the forms of maplet! with bundles expand to.
--   Protocol/Mailbox  MailboxSlot and TypeMailbox with push and pop_matching_where. Mailbox/Contents
--                     and Mailbox/Queue read a mailbox as a queue, Mailbox/Invariant bounds its arrays.
--   Protocol/Interface  RxState, BusHandle::ingest, Interface::pump_ingest_once and
--                     BusHandle::__recv_next_capnp_from_where.
--   Protocol/Send     Interface::encode_capnp_into and the four functions that send; Send/Travel
--                     follows a message from such a call to the call that receives it.
--   FileTransfer/Messages  the fields of schema/file_transfer.capnp and the acknowledgements of
--                     thincan-file-transfer/src/lib.rs.
--   FileTransfer/Encode    the sizes of thincan-file-transfer/src/lib.rs, the encoders of
--                     src/alloc_encode.rs, and in Encode/Fixed those of src/heapless_encode.rs that
--                     have a scratch of a fixed size.
--   FileTransfer/Receive   recv_file_impl of thincan-file-transfer/src/tokio_impl.rs: the checks on a
--                     request here, the chunk loop and what follows it in Receive/Loop.
--   FileTransfer/Receive/NoAlloc  recv_file_no_alloc_impl, where it differs from recv_file_impl.
--   FileTransfer/Send      SendConfig, SendState, decode_file_ack, wait_for_transfer_ack,
--                     inflight_chunk_count; send_file_impl and send_file_with_id_impl in Send/Loop, as a
--                     machine with a state for each of the two waits for an acknowledgement.
--   UnixSocket/Frame       UnixFrame of embedded-can/embedded-can-unix-socket/src/frame.rs.
--   UnixSocket/Wire        all of embedded-can/embedded-can-unix-socket/src/wire.rs: the framing and the
--                     acknowledgements here, frames in Wire/Frames and filters in Wire/Filters.
--   UnixSocket/Server      handle_command, bus_loop and the filters of
--                     embedded-can/embedded-can-unix-socket/src/server.rs; its accept, reader and
--                     writer loops in Server/Connection. Server/View says what one client sees.
--   UnixSocket/Client      UnixCan of embedded-can/embedded-can-unix-socket/src/client.rs: the buffer here,
--                     the reads and writes in Client/Io, what a client does in Client/Ops.
--   UnixSocket/Link        a client and the server together, one direction each.
--   IsoTpQueue             QueueIsoTpError, ActorConfig and the messages of
--                     iso-tp/can-isotp-queue/src/common.rs and src/tokio.rs; run_actor in
--                     IsoTpQueue/Actor, the calls of QueueIsoTpEndpoint in IsoTpQueue/Endpoint, the lock,
--                     the channels and the actor of src/embassy.rs in IsoTpQueue/Embassy.
--   KernelIsoTp            iso-tp/linux-socketcan-iso-tp/src/linux.rs: STmin and the other durations in
--                     KernelIsoTp/Stmin, the options in Options, SocketCanIsoTp::open in Socket, what
--                     the blocking and the async sockets send and receive in Transfer, KernelUdsDemux
--                     in Demux. Kernel and Order say what a sequence of calls is.
--   SocketCan              embedded-can/embedded-can-socketcan/src/linux.rs: the settings of the socket, in
--                     SocketCan/Settings, and the conversion of filters, in SocketCan/Match.
--
-- How the code is read. A slice is the list of its bytes and a usize is not bounded (of 64 bits
-- where FileTransfer/Encode masks one); a number of 32 bits keeps its wrap-around or
-- saturation. An async function is a function of what it meets: the loop that
-- waits for a message takes the payloads that other tasks ingest while it waits, and the chunk loop
-- takes what arrives. A call whose input has ended still waits, and this is a result of its own.
-- Lists of events bound these loops. The loop that fills the sender's window runs on fuel, as many
-- rounds as the file has bytes; a round sends a byte at least, and the invariant of a waiting sender
-- says that the window is full or the file is sent, so the fuel does not run out early. A mutex of the
-- source is held for one step. A Watch of embassy-sync is the number of its sends, and a receiver wakes
-- when that number changes; a new receiver may in the code wake once more, for an older send, and only
-- looks again.
--
-- On the Unix socket, a channel to a client is the client's number and what the bus sends is a list of
-- pairs of a channel and a message. What `read`, `write` and `poll` return is given ahead as lists of
-- events, so a call that runs out of events still waits. The loops of a client and the reader of the
-- server run on fuel for one message a round; the theorems give a bound that is enough.
--
-- The actor of can-isotp-queue is a machine: a turn takes one request, polls the node once, or tries to
-- hand on one event, and between two turns any endpoint may send or receive. The node is a parameter.
--
-- On KernelIsoTp: the calls that open and set up sockets run against a kernel that is a function of all calls
-- before and the call, so that it may refuse any of them; the calls made are kept, oldest first. The loops that
-- send and receive recurse on a list of turns: what the kernel does, the clock, and what poll returns for the
-- timeout that it is given. A theorem that a loop returns names the turn at which it ends at the latest.
--
-- What is a parameter: the Cap'n Proto encoder of a message, the transport, the answers of the file
-- store and of the bus (each a function of all that was done before), SHA-256, StandardId::new and
-- ExtendedId::new of embedded-can, uds29::encode_phys_id_raw, the kernel's answers to system calls, the
-- frames that a SocketCAN socket reads, and in FileTransfer/Encode the segments that the Cap'n Proto
-- builder makes, with its documented layout as a hypothesis.
--
-- What is not modelled: generated Cap'n Proto readers and builders, the macros that generate types and
-- forwarding methods, encode_segmented_root of thincan-file-transfer/src/heapless_encode.rs, starting and
-- stopping the threads of BusServer, Display texts and clocks, the async SocketCAN
-- adapter, the adapters of embedded-can-embassy-stm32, and the examples.
pub mod Common
pub mod FileTransfer
pub mod Protocol
pub mod UnixSocket
pub mod IsoTpQueue
pub mod KernelIsoTp
pub mod SocketCan
