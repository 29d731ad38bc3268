-- ===== src/UnixSocket/Client/Parser.antt =====
-- The buffer of the client, compaction and all, is the list of the bytes that are left to read.
pub mod Front
use thincan.Common.{
  ℕ, zero, suc, ◌+◌, ◌-◌, ◌*◌, ◌/◌, ◌≤◌, ◌<◌, ◌≡◌, refl, sym, ap, ◌∙◌, Bool, true, false, ◌&&◌,
  Option, none, some, List, [], ◌∷◌, ◌++◌, Result, ok, err, length, take, drop, get_or, ltb, leb,
  if◌then◌else◌, arith, inl, inr, Bool-cases, Result-cases, length-drop, drop-drop,
}
use thincan.Common.Bytes.{from_le_bytes}
use thincan.UnixSocket.Wire.{max_payload_len}
use thincan.UnixSocket.Client.{
  UnixCanError, protocol, payload_exceeds_limit, UnixCan, unread, compact, taken, with_next_msg,
}

-- The offset stays inside the buffer.
abbrev pub InBuffer : UnixCan → Type 0
InBuffer can = can.rx_off ≤ length can.rx_bytes

module _ {ℓ} {R : Type ℓ} (f : ℕ → List ℕ → Result R UnixCanError) where
  -- The first message of the bytes, and the bytes behind it.
  unfoldable pub parse : List ℕ → Result (Option (R × List ℕ)) UnixCanError
  parse bs =
      if ltb (length bs) 5
      then ok none
      else let len = from_le_bytes (take 4 (drop 1 bs)) in
        if ltb max_payload_len len
        then err (protocol payload_exceeds_limit)
        else if ltb (length bs) (5 + len)
        then ok none
        else elim (f (get_or bs 0 0) (take len (drop 5 bs))) [
          | err e ↦ err e
          | ok out ↦ ok (some (out, drop (5 + len) bs))
        ]

module _ {ℓ} {R : Type ℓ} where
  -- What is found, and the bytes that are left.
  abbrev pub found : Result (Option (R × List ℕ)) UnixCanError → Result (Option R) UnixCanError
  found (err e) = err e
  found (ok none) = ok none
  found (ok (some (out, rest))) = ok (some out)

  abbrev pub left : Result (Option (R × List ℕ)) UnixCanError → List ℕ → List ℕ
  left (err e) bs = bs
  left (ok none) bs = bs
  left (ok (some (out, rest))) bs = rest

module _ {ℓ} {R : Type ℓ} where
  -- What a call may change of the client: bytes and offset with a message, nothing without one.
  abbrev pub Keeps : Result (Option (R × List ℕ)) UnixCanError → UnixCan → UnixCan → Type 0
  Keeps (err e) can can' = can' ≡ can
  Keeps (ok none) can can' = can' ≡ can
  Keeps (ok (some m)) can can' =
      (can'.rx_queue ≡ can.rx_queue) × (can'.next_seq ≡ can.next_seq) × (can'.filters ≡ can.filters)

unread-taken : (can : UnixCan) (total : ℕ) → unread (taken can total) ≡ drop total (unread can)
unread-taken can total =
    elim (Bool-cases
      (leb 4096 (can.rx_off + total) && leb (length can.rx_bytes / 2) (can.rx_off + total))) [
        | inl e ↦ rw e (sym (drop-drop can.rx_off total can.rx_bytes))
        | inr e ↦ rw e (sym (drop-drop can.rx_off total can.rx_bytes))
      ]

module _ {ℓ} {R : Type ℓ} (f : ℕ → List ℕ → Result R UnixCanError) (can : UnixCan) where
  -- Whatever the closure: what `with_next_msg` returns, and the bytes that it leaves unread, are those
  -- that the plain parser finds in the bytes not yet read. An error and an unfinished message leave the
  -- whole client as it was, and a message leaves its queue, its filters and its sequence number.
  pub with_next_msg-parse :
      let (result, can') = with_next_msg f can in
      let p = parse f (unread can) in
      (result ≡ found p) × (unread can' ≡ left p (unread can)) × Keeps p can can'
  unfolding with_next_msg parse
  with_next_msg-parse =
      let avail : length (unread can) ≡ length can.rx_bytes - can.rx_off =
        length-drop can.rx_off can.rx_bytes in
      let len = from_le_bytes (take 4 (drop 1 (unread can))) in
      let size = length can.rx_bytes - can.rx_off in
      rw avail (elim (Bool-cases (ltb size 5)) [
        | inl short ↦ rw (short, with_next_msg) (refl, refl, refl)
        | inr e ↦ elim (Bool-cases (ltb max_payload_len len)) [
          | inl long ↦ rw (e, with_next_msg) (rw (long, with_next_msg) (refl, refl, refl))
          | inr e' ↦ elim (Bool-cases (ltb size (5 + len))) [
            | inl part ↦
                rw (e, with_next_msg)
                  (rw (e', with_next_msg) (rw (part, with_next_msg) (refl, refl, refl)))
            | inr e'' ↦
                rw (e, with_next_msg)
                  (rw (e', with_next_msg)
                    (rw (e'', with_next_msg)
                      (elim (Result-cases
                        (f (get_or (unread can) 0 0) (take len (drop 5 (unread can))))) [
                          | inl (out, whole) ↦
                              rw whole (refl, unread-taken can (5 + len), (refl, refl, refl))
                          | inr (bad, fails) ↦ rw fails (refl, refl, refl)
                        ])))
          ]
        ]
      ])
