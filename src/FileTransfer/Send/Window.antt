-- ===== src/FileTransfer/Send/Window.antt =====
-- The number of chunks in flight, described by multiplication.
use native.Mathlib.Nat.{mod-lt, div-add-mod', mul-le-mul_right, le_of_mul-le-mul_right, add-mul}
use thincan.Common.{
  ℕ, ◌+◌, ◌-◌, ◌*◌, ◌/◌, ◌%◌, ◌≤◌, ◌<◌, ◌≡◌, true, false, ◌↔◌, ◌==◌, leb, ltb, ltb→le, arith,
  Bool-cases, inl, inr,
}
use thincan.FileTransfer.Send.{div_ceil, inflight_chunk_count}

eq_of_test : (a b : ℕ) → (a == b) ≡ true → a ≡ b
eq_of_test a b e = ground arith

pos_of_test : {a : ℕ} → (a == 0) ≡ false → 0 < a
pos_of_test {a} e = ground arith

div_ceil_le : (n k : ℕ) {d : ℕ} → 0 < d → div_ceil n d ≤ k → n ≤ k * d
div_ceil_le n k {d} h e = elim (Bool-cases (n % d == 0)) [
  | inl even ↦
      omega (arith, div-add-mod' n d, mul-le-mul_right d (rw even at e), eq_of_test _ _ even)
  | inr odd ↦
      omega
        (arith, div-add-mod' n d, mod-lt n h, mul-le-mul_right d (rw odd at e), add-mul (n / d) 1 d)
]

le_div_ceil : (n k : ℕ) {d : ℕ} → 0 < d → n ≤ k * d → div_ceil n d ≤ k
le_div_ceil n k {d} h e = elim (Bool-cases (n % d == 0)) [
  | inl even ↦
      rw even (le_of_mul-le-mul_right (omega (arith, div-add-mod' n d, eq_of_test _ _ even)) h)
  | inr odd ↦ rw odd (elim (Bool-cases (ltb (n / d) k)) [
    | inl less ↦ ground (arith, less)
    | inr more ↦
        absurd
          (omega (arith, div-add-mod' n d, mul-le-mul_right d (ltb→le _ _ more), pos_of_test odd))
  ])
]

-- There are at most `k` chunks in flight exactly when `k` full chunks reach from the acknowledged offset
-- to the next one to send.
pub inflight_chunk_count_iff :
    (last_acked next_to_send chunk_size k : ℕ)
    → 0 < chunk_size
    → (inflight_chunk_count last_acked next_to_send chunk_size ≤ k)
      ↔ (next_to_send ≤ last_acked + k * chunk_size)
unfolding inflight_chunk_count
inflight_chunk_count_iff a n c k h = elim (Bool-cases (leb n a)) [
  | inl none_due ↦ rw none_due (λ _. ground arith, λ _. omega arith)
  | inr some_due ↦
      rw some_due
        (λ e. omega (arith, div_ceil_le (n - a) k h e), λ e. le_div_ceil (n - a) k h (ground arith))
]
