-- ===== src/UnixSocket/Wire/Framing.antt =====
-- What is written to the socket is what is read from it.
use thincan.Common.{
  ℕ, zero, suc, false, true, append-nil, ◌-◌, ◌^◌, ◌<◌, ◌≡◌, refl, sym, ap, ◌∙◌, List, [], ◌∷◌,
  ◌++◌, append_assoc, ok, err, length, take, get_or, ltb, ◌==◌, if◌then◌else◌, arith, Bool-cases,
  inl, inr, le→ltb, length-append, take-append, drop-append,
}
use thincan.Common.Bytes.{to_le_bytes, from_le_bytes, length-to_le_bytes, from_le_bytes-to_le_bytes}
use thincan.UnixSocket.Wire.{
  max_payload_len, invalid_data, read_exact, read_payload, read_body, write_msg, read_msg_into,
  encode_ack, decode_ack,
}

-- Reading splits what was written from what follows.
read_exact-append :
    (xs rest : List ℕ) (n : ℕ) → n ≡ length xs → read_exact n (xs ++ rest) ≡ ok (xs, rest)
read_exact-append xs rest n e =
    rw (le→ltb (length (xs ++ rest)) n (omega (arith, length-append xs rest)))
      (rw (take-append xs rest e) (rw (drop-append xs rest e) refl))

take_all : (l : List ℕ) {n : ℕ} → n ≡ length l → take n l ≡ l
take_all l {n} e = ap (take n) (sym (append-nil l)) ∙ take-append l [] e

get_or-append : (l : List ℕ) (x n : ℕ) → n ≡ length l → get_or (l ++ (x ∷ [])) n 0 ≡ x
get_or-append [] x zero e = refl
get_or-append [] x (suc n) e = absurd (omega arith)
get_or-append (y ∷ l) x zero e = absurd (omega arith)
get_or-append (y ∷ l) x (suc n) e = get_or-append l x n (omega arith)

ltb→lt_pred : (n : ℕ) → ltb (2 ^ 32 - 1) n ≡ false → n < 256 ^ 4
ltb→lt_pred n e = ground arith

nine : (seq status : ℕ) → (length (to_le_bytes 8 seq ++ (status ∷ [])) == 9) ≡ true
nine seq status =
    let l = length-append (to_le_bytes 8 seq) (status ∷ []) in
    let k = length-to_le_bytes 8 seq in ground (arith, l, k)

-- A message that was written is read back with its type and payload, and the reader stands at what
-- follows, when the payload is within `MAX_PAYLOAD_LEN`. A longer one is written, but refused by the
-- reader.
pub read_msg_into-write_msg :
    (msg_type : ℕ) (payload rest bytes : List ℕ)
    → write_msg msg_type payload ≡ ok bytes
    → read_msg_into (bytes ++ rest) ≡ (
        if ltb max_payload_len (length payload)
        then err invalid_data
        else ok (msg_type, payload, rest))
unfolding write_msg read_msg_into
read_msg_into-write_msg msg_type payload rest bytes e =
    elim (Bool-cases (ltb (2 ^ 32 - 1) (length payload))) [
      | inl large ↦ cc (rw large at e)
      | inr small ↦
          let header = msg_type ∷ to_le_bytes 4 (length payload) in
          let same : header ++ payload ≡ bytes = ground (arith, small, e) in
          let back : from_le_bytes (take 4 (to_le_bytes 4 (length payload))) ≡ length payload =
            ap from_le_bytes (
              take_all (to_le_bytes 4 (length payload))
                (sym (length-to_le_bytes 4 (length payload))))
            ∙ from_le_bytes-to_le_bytes 4 (length payload) (ltb→lt_pred _ small) in
          let split : read_exact 5 ((header ++ payload) ++ rest) ≡ ok (header, payload ++ rest) =
            ap (read_exact 5) (append_assoc header payload rest)
            ∙ read_exact-append header (payload ++ rest) 5
                (omega (arith, length-to_le_bytes 4 (length payload))) in
          ap (λ b. read_body (read_exact 5 (b ++ rest))) (sym same)
          ∙ ap read_body split
          ∙ rw back (elim (Bool-cases (ltb max_payload_len (length payload))) [
            | inl long ↦ rw long refl
            | inr short ↦
                rw short (
                  ap (read_payload msg_type) (read_exact-append payload rest (length payload) refl))
          ])
    ]

-- An acknowledgement of 64 bits and a status decodes to itself.
pub decode_ack-encode_ack :
    (seq status : ℕ) → seq < 2 ^ 64 → decode_ack (encode_ack seq status) ≡ ok (seq, status)
unfolding decode_ack encode_ack
decode_ack-encode_ack seq status h = rw (nine seq status) (
    rw (take-append (to_le_bytes 8 seq) (status ∷ []) (sym (length-to_le_bytes 8 seq))) (
      rw (from_le_bytes-to_le_bytes 8 seq h)
        (rw (get_or-append (to_le_bytes 8 seq) status 8 (sym (length-to_le_bytes 8 seq))) refl)))
