-- ===== src/Stream/Flags.antt =====
-- The flags of a stream: what a change of one shows of itself and of the others.
use my_repo.Base.{
  ℕ, ◌^◌, ◌<◌, ◌≡◌, not, ◌&&◌, ◌||◌, arith, ◌==◌, ◌∙◌, digit, digit_bound, digit-bit_or,
  digit-bit_and, digit-complement, bit_and-pow, digit-pow,
}
use native.Mathlib.Nat.{one-le-pow, pow-le-pow_right}
use my_repo.Stream.{Stream, get_flag_status, enable_flags, disable_flags, complement}

status-digit : (s : Stream) (k : ℕ) → get_flag_status s (2 ^ k) ≡ (digit k s.flags == 1)
unfolding get_flag_status
status-digit s k = rw (bit_and-pow k s.flags) (grind (arith, digit_bound k s.flags, one-le-pow k 2))

-- After `flb_stream_enable_flags` for one flag, it is set and every other flag is as before.
pub get_flag_status-enable_flags :
    (s : Stream) (k j : ℕ)
    → get_flag_status (enable_flags s (2 ^ k)) (2 ^ j) ≡ ((j == k) || get_flag_status s (2 ^ j))
unfolding enable_flags
get_flag_status-enable_flags s k j = rw (status-digit s j) (
    status-digit (enable_flags s (2 ^ k)) j
    ∙ rw (digit-bit_or j s.flags (2 ^ k), digit-pow j k) (ground (arith, digit_bound j s.flags)))

-- After `flb_stream_disable_flags` for one of the 32 flags, it is not set and every other one of
-- them is as before.
pub get_flag_status-disable_flags :
    (s : Stream) (k j : ℕ)
    → k < 32
    → j < 32
    → get_flag_status (disable_flags s (2 ^ k)) (2 ^ j)
      ≡ (not (j == k) && get_flag_status s (2 ^ j))
unfolding disable_flags
get_flag_status-disable_flags s k j lk lj = rw (status-digit s j) (
    status-digit (disable_flags s (2 ^ k)) j
    ∙ rw (digit-bit_and j s.flags (complement (2 ^ k))) (
        ground (
          arith,
          digit_bound j s.flags,
          digit-complement 32 j (2 ^ k) lj (
              omega (arith, pow-le-pow_right {n = 2} (omega arith) {i = k} {j = 31} (omega arith))),
          digit-pow j k,
        )))
