-- ===== src/SwarmGossip/Bits.antt =====
-- The bits of a byte: `b & (1 << i) != 0` and `b | (1 << i)`.
use swarm_intelligence_netwo.Prelude.{
  ℕ, zero, suc, ◌+◌, ◌*◌, ◌/◌, ◌%◌, ◌≡◌, Bool, ◌||◌, arith, if◌then◌else◌, ◌==◌, string_eq, nat_eq,
  pair_eq,
}

unfoldable pub test_bit : ℕ → ℕ → Bool
test_bit zero b = b % 2 == 1
test_bit (suc i) b = test_bit i (b / 2)

unfoldable pub set_in : ℕ → ℕ → ℕ
set_in zero b = if b % 2 == 1 then b else b + 1
set_in (suc i) b = b % 2 + 2 * set_in i (b / 2)

pub test_bit-set_in : (i j b : ℕ) → test_bit j (set_in i b) ≡ (i == j || test_bit j b)
unfolding test_bit set_in
test_bit-set_in zero zero b = ground arith
test_bit-set_in zero (suc j) b =
    let same : (if b % 2 == 1 then b else b + 1) / 2 ≡ b / 2 = ground arith in
    rw same (ground arith)
test_bit-set_in (suc i) zero b = ground arith
test_bit-set_in (suc i) (suc j) b =
    let half : (b % 2 + 2 * set_in i (b / 2)) / 2 ≡ set_in i (b / 2) = omega arith in
    rw half (ground (arith, test_bit-set_in i j (b / 2)))
