-- ===== src/UnixSocket/Client/Parser/Front.antt =====
-- A message that is found in some bytes is found whatever follows them.
use thincan.Common.{
  ℕ, ◌+◌, ◌≤◌, ◌≡◌, ◌⊎◌, refl, sym, ap, ◌∙◌, false, Option, none, some, List, ◌++◌, Result, ok, err,
  length, take, drop, get_or, ltb, arith, inl, inr, Bool-cases, Result-cases, length-drop,
  length-append, some_eq, ok_eq, le→ltb, take-append_le, drop-append_le, get_or-append_lt,
}
use thincan.Common.Bytes.{from_le_bytes}
use thincan.UnixSocket.Wire.{max_payload_len}
use thincan.UnixSocket.Client.{UnixCanError}
use thincan.UnixSocket.Client.Parser.{parse}

module _ {ℓ} {R : Type ℓ} where
  -- The same message, and more bytes behind it.
  abbrev extended_by :
      List ℕ → Result (Option (R × List ℕ)) UnixCanError → Result (Option (R × List ℕ)) UnixCanError
  extended_by more (err e) = err e
  extended_by more (ok none) = ok none
  extended_by more (ok (some (out, rest))) = ok (some (out, rest ++ more))

middle-append :
    (m n : ℕ) (bs more : List ℕ)
    → m + n ≤ length bs
    → take n (drop m (bs ++ more)) ≡ take n (drop m bs)
middle-append m n bs more h =
    ap (take n) (drop-append_le m bs more (omega arith))
    ∙ take-append_le n (drop m bs) more (omega (arith, length-drop m bs))

module _ {ℓ} {R : Type ℓ} (f : ℕ → List ℕ → Result R UnixCanError) (bs more : List ℕ) where
  -- What is found in some bytes is found whatever follows them.
  parse-append : (parse f bs ≡ ok none) ⊎ (parse f (bs ++ more) ≡ extended_by more (parse f bs))
  unfolding parse
  parse-append =
      let len = from_le_bytes (take 4 (drop 1 bs)) in
      elim (Bool-cases (ltb (length bs) 5)) [
        | inl short ↦ inl (rw short refl)
        | inr e1 ↦
            let header : ltb (length (bs ++ more)) 5 ≡ false = le→ltb _ 5 (longer 5 e1) in
            let same_len : take 4 (drop 1 (bs ++ more)) ≡ take 4 (drop 1 bs) =
              middle-append 1 4 bs more (ground arith) in
            elim (Bool-cases (ltb max_payload_len len)) [
              | inl long ↦ inr (
                  rw (header, parse)
                    (rw (same_len, parse) (rw (long, parse) (rw (e1, parse) refl))))
              | inr e2 ↦ elim (Bool-cases (ltb (length bs) (5 + len))) [
                | inl part ↦ inl (rw (e1, parse) (rw (e2, parse) (rw part refl)))
                | inr e3 ↦
                    let size : ltb (length (bs ++ more)) (5 + len) ≡ false =
                      le→ltb _ (5 + len) (longer (5 + len) e3) in
                    let first = get_or-append_lt bs more 0 0 (ground arith) in
                    let body = middle-append 5 len bs more (ground arith) in
                    let rest = drop-append_le (5 + len) bs more (ground arith) in
                    inr (
                      rw (header, parse)
                        (rw (same_len, parse)
                          (rw (e1, parse)
                            (rw (e2, parse)
                              (rw (size, parse)
                                (rw (e3, parse)
                                  (rw (first, parse)
                                    (rw (body, parse)
                                      (elim (Result-cases
                                        (f (get_or bs 0 0) (take len (drop 5 bs)))) [
                                          | inl (out, ok_out) ↦
                                              rw ok_out (rw same_len (rw rest refl))
                                          | inr (bad, fails) ↦ rw fails refl
                                        ])))))))))
              ]
            ]
      ]
    where
      longer : (n : ℕ) → ltb (length bs) n ≡ false → n ≤ length (bs ++ more)
      longer n h = ground (arith, length-append bs more)

module _ {ℓ} {R : Type ℓ} (f : ℕ → List ℕ → Result R UnixCanError) (bs more : List ℕ) where
  -- What the bytes hold when a whole stream that begins with them holds a message.
  pub parse_front :
      (out : R) (rest : List ℕ)
      → parse f (bs ++ more) ≡ ok (some (out, rest))
      → (parse f bs ≡ ok none)
        ⊎ ((mid : List ℕ) × (parse f bs ≡ ok (some (out, mid))) × (mid ++ more ≡ rest))
  parse_front out rest e = elim (parse-append f bs more) [
    | inl nothing ↦ inl nothing
    | inr same ↦ inr (undo (parse f bs) refl (sym same ∙ e))
  ]
    where
      undo :
          (p : Result (Option (R × List ℕ)) UnixCanError)
          → parse f bs ≡ p
          → extended_by more p ≡ ok (some (out, rest))
          → (mid : List ℕ) × (parse f bs ≡ ok (some (out, mid))) × (mid ++ more ≡ rest)
      undo (err x) now e = cc
      undo (ok none) now e = cc
      undo (ok (some (o, mid))) now e =
          let pair = some_eq (ok_eq e) in
          (mid, now ∙ ap (λ o. ok (some (o, mid))) (ap (λ p. p.0) pair), ap (λ p. p.1) pair)
