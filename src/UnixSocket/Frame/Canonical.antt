-- ===== src/UnixSocket/Frame/Canonical.antt =====
-- The frames that the constructors build: an array of 64 bytes, zero behind the length.
use thincan.Common.{
  ℕ, Bool, false, some_eq, subst, zero, suc, ◌-◌, ◌≤◌, ◌≡◌, refl, sym, ap, ◌∙◌, some, List, ◌++◌,
  length, take, drop, replicate, ltb, arith, Bool-cases, inl, inr, length-append, length-drop,
  length-replicate, drop-append, take-append-drop,
}
use thincan.UnixSocket.Frame.{CanId, UnixFrame, new, new_remote}

abbrev pub zeros : ℕ → List ℕ
zeros n = replicate n 0

length-zeros : (n : ℕ) → length (zeros n) ≡ n
length-zeros n = length-replicate n _

pub record IsCanonical (f : UnixFrame) : Type 0 where
  pub array : length f.data_bytes ≡ 64
  pub bounded : f.dlc ≤ 64
  pub padded : drop f.dlc f.data_bytes ≡ zeros (64 - f.dlc)

zeros_eq : {m n : ℕ} → m ≡ n → zeros m ≡ zeros n
zeros_eq e = ap zeros e

drop-zeros : (n m : ℕ) → drop n (zeros m) ≡ zeros (m - n)
drop-zeros zero m = zeros_eq (omega arith)
drop-zeros (suc n) zero = zeros_eq {m = 0} (omega arith)
drop-zeros (suc n) (suc m) = drop-zeros n m ∙ zeros_eq (omega arith)

-- The front of an array of zeros overwritten.
pub copied-IsCanonical :
    (id : CanId) (bytes : List ℕ) (remote : Bool)
    → length bytes ≤ 64
    → IsCanonical (record {
      id = id;
      data_bytes = bytes ++ drop (length bytes) (zeros 64);
      dlc = length bytes;
      remote = remote;
    })
copied-IsCanonical id bytes remote h = record {
  array = omega (
    arith,
    length-append bytes (drop (length bytes) (zeros 64)),
    length-drop (length bytes) (zeros 64),
    length-zeros 64,
  );
  bounded = h;
  padded = drop-append bytes (drop (length bytes) (zeros 64)) refl ∙ drop-zeros (length bytes) 64;
}

pub new-IsCanonical :
    (id : CanId) (bytes : List ℕ) (f : UnixFrame) → new id bytes ≡ some f → IsCanonical f
unfolding new
new-IsCanonical id bytes f e = elim (Bool-cases (ltb 64 (length bytes))) [
  | inl long ↦ cc (rw long at e)
  | inr short ↦
      subst IsCanonical (some_eq (rw short at e)) (copied-IsCanonical id bytes false (ground arith))
]

pub new_remote-IsCanonical :
    (id : CanId) (dlc : ℕ) (f : UnixFrame) → new_remote id dlc ≡ some f → IsCanonical f
unfolding new_remote
new_remote-IsCanonical id dlc f e = elim (Bool-cases (ltb 64 dlc)) [
  | inl long ↦ cc (rw long at e)
  | inr short ↦
      subst IsCanonical (some_eq (rw short at e))
        (record { array = length-zeros 64; bounded = ground arith; padded = drop-zeros dlc 64 })
]

-- A canonical array is its front, padded.
pub padded_front :
    (f : UnixFrame)
    → IsCanonical f
    → take f.dlc f.data_bytes ++ drop f.dlc (zeros 64) ≡ f.data_bytes
padded_front f c =
    ap (λ l. take f.dlc f.data_bytes ++ l) (drop-zeros f.dlc 64 ∙ sym c.padded)
    ∙ take-append-drop f.dlc f.data_bytes
