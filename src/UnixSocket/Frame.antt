-- ===== src/UnixSocket/Frame.antt =====
-- embedded-can/embedded-can-unix-socket/src/frame.rs: `UnixFrame`. An identifier of the crate
-- embedded-can is the number that its `as_raw` returns.
pub mod Canonical
use thincan.Common.{
  ℕ, ◌-◌, Bool, true, false, Option, none, some, List, [], ◌++◌, length, take, drop, replicate, ltb,
  if◌then◌else◌,
}

-- `embedded_can::Id`
pub data CanId : Type 0 where
  standard extended : (raw : ℕ) → CanId

abbrev pub max_dlc : ℕ
max_dlc = 64

pub record UnixFrame : Type 0 where
  pub id : CanId
  pub data_bytes : List ℕ
  pub dlc : ℕ
  pub remote : Bool

-- `UnixFrame::new`: the array of zeros with the data in front.
unfoldable pub new : CanId → List ℕ → Option UnixFrame
new id bytes =
    if ltb max_dlc (length bytes)
    then none
    else some (record {
      id = id;
      data_bytes = bytes ++ drop (length bytes) (replicate max_dlc 0);
      dlc = length bytes;
      remote = false;
    })

unfoldable pub new_remote : CanId → ℕ → Option UnixFrame
new_remote id dlc =
    if ltb max_dlc dlc
    then none
    else some (record { id = id; data_bytes = replicate max_dlc 0; dlc = dlc; remote = true })

-- `Frame::data`
unfoldable pub data_of : UnixFrame → List ℕ
data_of frame = if frame.remote then [] else take frame.dlc frame.data_bytes

unfoldable pub from_parts : CanId → ℕ → List ℕ → Bool → Option UnixFrame
from_parts id dlc bytes remote =
    if ltb max_dlc dlc
    then none
    else some (record { id = id; data_bytes = bytes; dlc = dlc; remote = remote })
