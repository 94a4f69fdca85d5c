-- ===== src/Task/Ids.antt =====
-- The packed result of a flush: FLB_TASK_SET, FLB_TASK_RET, FLB_TASK_ID and FLB_TASK_OUT.
use my_repo.Base.{
  ℕ, ◌+◌, ◌*◌, ◌/◌, ◌%◌, ◌^◌, ◌<◌, ◌≡◌, arith, refl, bit_or_fields, bit_and_mask, bit_and_shift,
}
use my_repo.Task.{task_set, task_ret, task_id, task_out, bits_u64_set, bits_u64_high, bits_u64_low}

task_set_sum :
    (ret id out : ℕ)
    → ret < 2 ^ 4
    → id < 2 ^ 14
    → out < 2 ^ 14
    → task_set ret id out ≡ ret * 2 ^ 28 + id * 2 ^ 14 + out
unfolding task_set
task_set_sum ret id out lr li lo =
    let a : ret * 2 ^ 28 % 2 ^ 32 ≡ ret * 2 ^ 28 = omega arith in
    let b : id * 2 ^ 14 % 2 ^ 32 ≡ id * 2 ^ 14 = omega arith in
    let c : ret * 2 ^ 28 + id * 2 ^ 14 ≡ (ret * 2 ^ 14 + id) * 2 ^ 14 = omega arith in
    rw
      (
        a,
        b,
        bit_or_fields 28 ret (id * 2 ^ 14) (omega arith),
        c,
        bit_or_fields 14 (ret * 2 ^ 14 + id) out lo,
      )
      (omega arith)

-- FLB_TASK_SET followed by FLB_TASK_RET, FLB_TASK_ID and FLB_TASK_OUT gives back the three numbers,
-- for a result below 16 and for a task and an output coroutine with numbers below 2 ^ 14.
pub task_set_roundtrip :
    (ret id out : ℕ)
    → ret < 2 ^ 4
    → id < 2 ^ 14
    → out < 2 ^ 14
    → (task_ret (task_set ret id out) ≡ ret)
      × (task_id (task_set ret id out) ≡ id)
      × (task_out (task_set ret id out) ≡ out)
unfolding task_ret task_id task_out
task_set_roundtrip ret id out lr li lo = (
  omega (arith, task_set_sum ret id out lr li lo),
  rw (task_set_sum ret id out lr li lo, bit_and_shift 14 v 0x3fff, bit_and_mask 14 (v / 2 ^ 14))
      (omega arith),
  rw (task_set_sum ret id out lr li lo, bit_and_mask 14 v) (omega arith),
)
  where
    v : ℕ
    v = ret * 2 ^ 28 + id * 2 ^ 14 + out

pub task_set_bound :
    (ret id out : ℕ) → ret < 2 ^ 4 → id < 2 ^ 14 → out < 2 ^ 14 → task_set ret id out < 2 ^ 32
task_set_bound ret id out lr li lo = omega (arith, task_set_sum ret id out lr li lo)

-- FLB_BITS_U64_HIGH and FLB_BITS_U64_LOW give back the two halves of FLB_BITS_U64_SET, for numbers
-- below 2 ^ 32.
pub bits_u64_set_roundtrip :
    (a b : ℕ)
    → a < 2 ^ 32
    → b < 2 ^ 32
    → (bits_u64_high (bits_u64_set a b) ≡ a) × (bits_u64_low (bits_u64_set a b) ≡ b)
unfolding bits_u64_high bits_u64_low
bits_u64_set_roundtrip a b la lb =
    (omega (arith, sum), rw (sum, bit_and_mask 32 (a * 2 ^ 32 + b)) (omega arith))
  where
    sum : bits_u64_set a b ≡ a * 2 ^ 32 + b
    sum =
        unfold bits_u64_set in
        let small : a * 2 ^ 32 % 2 ^ 64 ≡ a * 2 ^ 32 = omega arith in
        rw (small, bit_or_fields 32 a b lb) refl
