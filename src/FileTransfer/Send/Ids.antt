-- ===== src/FileTransfer/Send/Ids.antt =====
-- The ids that a sender gives to its transfers.
use thincan.Common.{ℕ, ◌+◌, ◌-◌, ◌^◌, ◌≤◌, ◌<◌, ◌≡◌, leb, arith, Bool-cases, inl, inr}
use thincan.FileTransfer.Send.{SendState, wrapping_suc, alloc_transfer_id, observe_transfer_id}
use native.Mathlib.Nat.{mod-eq_of_lt}

-- After a transfer with an id below the last one of 32 bits, the next id that is allocated is above it,
-- and not below the one that was due before.
pub alloc_transfer_id-observe_transfer_id :
    (state : SendState) (transfer_id : ℕ)
    → transfer_id < 2 ^ 32 - 1
    → let next = (alloc_transfer_id (observe_transfer_id state transfer_id)).1 in
      (transfer_id < next) × (state.next_transfer_id ≤ next)
unfolding alloc_transfer_id observe_transfer_id
alloc_transfer_id-observe_transfer_id state id h =
    let no_wrap : wrapping_suc id ≡ id + 1 = mod-eq_of_lt (omega arith) in
    elim (Bool-cases (leb state.next_transfer_id id)) [
      | inl seen ↦ rw seen (ground (arith, no_wrap))
      | inr fresh ↦ rw fresh (ground arith)
    ]
