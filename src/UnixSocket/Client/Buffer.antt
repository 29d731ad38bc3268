-- ===== src/UnixSocket/Client/Buffer.antt =====
-- The buffer of the client stays in bounds.
use thincan.Common.{
  ℕ, ◌+◌, ◌-◌, ◌*◌, ◌/◌, ◌≤◌, ◌≡◌, refl, false, ◌&&◌, List, [], ◌∷◌, Result, length, take, drop,
  get_or, ltb, leb, arith, inl, inr, Bool-cases, Result-cases, length-append,
}
use thincan.Common.Bytes.{from_le_bytes}
use thincan.UnixSocket.Wire.{max_payload_len}
use thincan.UnixSocket.Client.{
  UnixCanError, UnixCan, would_block_kind, timed_out_kind, interrupted_kind, other_kind, unread,
  taken, with_next_msg,
}
use thincan.UnixSocket.Client.Io.{Read, bytes, read_would_block, read_failed, read_more_once}

-- The offset stays inside the buffer, and what has been read already takes no more than 4096 bytes and
-- what has not.
pub record IsBuffer (can : UnixCan) : Type 0 where
  pub inside : can.rx_off ≤ length can.rx_bytes
  pub compacted : 2 * can.rx_off ≤ length can.rx_bytes + 4096

taken-IsBuffer :
    (can : UnixCan) (total : ℕ)
    → can.rx_off + total ≤ length can.rx_bytes
    → IsBuffer (taken can total)
taken-IsBuffer can total h =
    elim (Bool-cases
      (leb 4096 (can.rx_off + total) && leb (length can.rx_bytes / 2) (can.rx_off + total))) [
        | inl e ↦ rw e (record { inside = omega arith; compacted = omega arith })
        | inr e ↦
            rw e (record { inside = h; compacted = few can.rx_off total (length can.rx_bytes) h e })
      ]
  where
    few :
        (off total size : ℕ)
        → off + total ≤ size
        → (leb 4096 (off + total) && leb (size / 2) (off + total)) ≡ false
        → 2 * (off + total) ≤ size + 4096
    few off total size h e = ground arith

-- What else the client holds.
abbrev pub SameRest : UnixCan → UnixCan → Type 0
SameRest can can' =
    (can'.rx_queue ≡ can.rx_queue) × (can'.next_seq ≡ can.next_seq) × (can'.filters ≡ can.filters)

-- The client stays as it is, or a message that lies in the buffer is taken.
module _ {ℓ κ} {R : Type ℓ} (f : ℕ → List ℕ → Result R UnixCanError) (can : UnixCan)
    (P : UnixCan → Type κ) where
  with_next_msg-cases :
      can.rx_off ≤ length can.rx_bytes
      → P can
      → ((total : ℕ) → can.rx_off + total ≤ length can.rx_bytes → P (taken can total))
      → P (with_next_msg f can).1
  unfolding with_next_msg
  with_next_msg-cases inside same taking =
      let len = from_le_bytes (take 4 (drop 1 (unread can))) in
      let size = length can.rx_bytes - can.rx_off in
      elim (Bool-cases (ltb size 5)) [
        | inl short ↦ rw (short, with_next_msg) same
        | inr e ↦ elim (Bool-cases (ltb max_payload_len len)) [
          | inl long ↦ rw (e, with_next_msg) (rw (long, with_next_msg) same)
          | inr e' ↦ elim (Bool-cases (ltb size (5 + len))) [
            | inl part ↦
                rw (e, with_next_msg) (rw (e', with_next_msg) (rw (part, with_next_msg) same))
            | inr e'' ↦
                rw (e, with_next_msg)
                  (rw (e', with_next_msg)
                    (rw (e'', with_next_msg)
                      (elim (Result-cases
                        (f (get_or (unread can) 0 0) (take len (drop 5 (unread can))))) [
                          | inl (out, whole) ↦ rw whole (
                              taking (5 + len)
                                (inner can.rx_off (length can.rx_bytes) len inside e''))
                          | inr (bad, fails) ↦ rw fails same
                        ])))
          ]
        ]
      ]
    where
      inner :
          (off size len : ℕ)
          → off ≤ size
          → ltb (size - off) (5 + len) ≡ false
          → off + (5 + len) ≤ size
      inner off size len h e = ground arith

module _ {ℓ} {R : Type ℓ} (f : ℕ → List ℕ → Result R UnixCanError) (can : UnixCan)
    (b : IsBuffer can) where
  pub with_next_msg-IsBuffer : IsBuffer (with_next_msg f can).1
  with_next_msg-IsBuffer = with_next_msg-cases f can IsBuffer b.inside b (taken-IsBuffer can)

  pub with_next_msg-SameRest : SameRest can (with_next_msg f can).1
  with_next_msg-SameRest =
      with_next_msg-cases f can (SameRest can) b.inside (refl, refl, refl)
        (λ total h. (refl, refl, refl))

-- A `read` only adds to the buffer.
pub read_more_once-IsBuffer :
    (r : Read) (can : UnixCan) → IsBuffer can → IsBuffer (read_more_once r can).1
read_more_once-IsBuffer (bytes []) can b = b
read_more_once-IsBuffer (bytes (x ∷ xs)) can b = record {
  inside = omega (arith, b.inside, length-append can.rx_bytes (x ∷ xs));
  compacted = omega (arith, b.compacted, length-append can.rx_bytes (x ∷ xs));
}
read_more_once-IsBuffer (read_would_block polls) can b = b
read_more_once-IsBuffer (read_failed would_block_kind) can b = b
read_more_once-IsBuffer (read_failed timed_out_kind) can b = b
read_more_once-IsBuffer (read_failed interrupted_kind) can b = b
read_more_once-IsBuffer (read_failed other_kind) can b = b
