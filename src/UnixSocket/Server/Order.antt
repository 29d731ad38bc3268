-- ===== src/UnixSocket/Server/Order.antt =====
-- Every client receives the frames that its filters select, in the one order of the bus.
use thincan.Common.{ℕ, false, ◌≡◌, List, [], ◌∷◌, if◌then◌else◌}
use thincan.UnixSocket.Frame.{UnixFrame}
use thincan.UnixSocket.Wire.Filters.{IdMaskFilter}
use thincan.UnixSocket.Server.{
  BusCommand, send_frame, shutdown, ServerMsg, frame_msg, ack_msg, hello_msg, filters_ack_msg,
  filters_match,
}
use thincan.UnixSocket.Server.View.{named, names}

-- The frames among what a channel carries.
unfoldable pub frames : List ServerMsg → List UnixFrame
frames [] = []
frames (frame_msg frame ∷ msgs) = frame ∷ frames msgs
frames (ack_msg seq status ∷ msgs) = frames msgs
frames (hello_msg ∷ msgs) = frames msgs
frames (filters_ack_msg seq status ∷ msgs) = frames msgs

-- A command that leaves the client connected, its filters as they are, and the bus running.
abbrev pub LeavesAlone : ℕ → BusCommand → Type 0
LeavesAlone id (send_frame i seq expect_ack frame) = Unit
LeavesAlone id shutdown = ⊥
LeavesAlone id cmd = names (named cmd) id ≡ false

-- A frame reaches the client when its filters let it.
hits : List IdMaskFilter → UnixFrame → List UnixFrame
hits filters frame = if filters_match filters frame then frame ∷ [] else []
